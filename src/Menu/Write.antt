-- ===== src/Menu/Write.antt =====
-- `write_all_fd`: a block is written by as many calls of `write` as it takes.
use developer_dashboard.Common.{
  ℕ, zero, suc, ◌+◌, ◌-◌, ◌≤◌, ◌<◌, ◌≡◌, ◌≢◌, Bool-cases, inl, inr, sym, append_assoc, length-drop,
  ◌∙◌, refl, ap, arith, Bool, true, false, [], ◌∷◌, ◌++◌, Option, none, some, Bytes, length, drop,
  ltb,
}

-- What a call of `write` answers: how much it wrote, an interruption, or another error.
pub data Wrote : Type 0 where
  written : ℕ → Wrote
  interrupted : Wrote
  write_error : Wrote

abbrev pub take : ℕ → Bytes → Bytes
take zero s = []
take (suc n) [] = []
take (suc n) (c ∷ s) = c ∷ take n s

-- What came out of the descriptor, and whether all was written.
pub record Output : Type 0 where
  pub sent : Bytes
  pub complete : Bool

abbrev pub sent_before : Bytes → Option Output → Option Output
sent_before s none = none
sent_before s (some o) = some (record o { sent = s ++ o.sent })

-- One round of the loop with what `write` answers, and the rounds behind it.
unfoldable pub after_write : Wrote → Bytes → (Bytes → Option Output) → Option Output
after_write interrupted s next = next s
after_write write_error s next = some (record { sent = []; complete = false })
after_write (written zero) s next = some (record { sent = []; complete = false })
after_write (written (suc n)) s next = sent_before (take (suc n) s) (next (drop (suc n) s))

-- `answer k` is what the k-th call of `write` answers; no value where the fuel is too little.
unfoldable pub write_all : (ℕ → Wrote) → ℕ → ℕ → Bytes → Option Output
write_all answer zero call s = none
write_all answer (suc fuel) call [] = some (record { sent = []; complete = true })
write_all answer (suc fuel) call (c ∷ s) =
    after_write (answer call) (c ∷ s) (write_all answer fuel (call + 1))

-- What has been sent is the start of the block, and all of it where the call says so.
abbrev pub IsSent : Bytes → Output → Type 0
IsSent s o = (o.complete ≡ true → o.sent ≡ s) × (rest : Bytes) × (s ≡ o.sent ++ rest)

abbrev pub Sends : Bytes → Option Output → Type 0
Sends s r = (o : Output) × (r ≡ some o) × IsSent s o

take-drop : (n : ℕ) (s : Bytes) → take n s ++ drop n s ≡ s
take-drop zero s = refl
take-drop (suc n) [] = refl
take-drop (suc n) (c ∷ s) = ap (λ l. c ∷ l) (take-drop n s)

pub before_lem :
    (n : ℕ) (s : Bytes) (r : Option Output)
    → Sends (drop n s) r
    → Sends s (sent_before (take n s) r)
before_lem n s r (o, e, (h, rest, q)) = (
  record o { sent = take n s ++ o.sent },
  ap (sent_before (take n s)) e,
  (
    λ c. ap (λ t. take n s ++ t) (h c) ∙ take-drop n s,
    rest,
    sym (take-drop n s) ∙ ap (λ t. take n s ++ t) q ∙ sym (append_assoc (take n s) o.sent rest),
  ),
)

pub nothing_sent : (s : Bytes) → Sends s (some (record { sent = []; complete = false }))
nothing_sent s = (record { sent = []; complete = false }, refl, (λ e. absurd (cc), s, refl))

round :
    (w : Wrote) (c : ℕ) (s : Bytes) (next : Bytes → Option Output)
    → (w ≡ interrupted → Sends (c ∷ s) (next (c ∷ s)))
    → ((t : Bytes) → length t ≤ length s → Sends t (next t))
    → Sends (c ∷ s) (after_write w (c ∷ s) next)
unfolding after_write
round interrupted c s next again more = again refl
round write_error c s next again more = nothing_sent (c ∷ s)
round (written zero) c s next again more = nothing_sent (c ∷ s)
round (written (suc n)) c s next again more =
    before_lem (suc n) (c ∷ s) (next (drop n s)) (more (drop n s) (omega (arith, length-drop n s)))

write_all_lem :
    (answer : ℕ → Wrote) (calm fuel call : ℕ) (s : Bytes)
    → ((k : ℕ) → calm ≤ k → answer k ≢ interrupted)
    → calm - call + length s < fuel
    → Sends s (write_all answer fuel call s)
unfolding write_all
write_all_lem answer calm zero call s h f = absurd (omega arith)
write_all_lem answer calm (suc fuel) call [] h f =
    (record { sent = []; complete = true }, refl, (λ e. refl, [], refl))
write_all_lem answer calm (suc fuel) call (c ∷ s) h f =
    round (answer call) c s (write_all answer fuel (call + 1))
      (λ e. write_all_lem answer calm fuel (call + 1) (c ∷ s) h (shorter e))
      (λ t l. write_all_lem answer calm fuel (call + 1) t h (omega (arith, f, l)))
  where
    shorter : answer call ≡ interrupted → calm - (call + 1) + length (c ∷ s) < fuel
    shorter e = elim (Bool-cases (ltb call calm)) [
      | inl early ↦ ground (arith, early, f)
      | inr late ↦ absurd (h call (ground (arith, late)) e)
    ]

-- A block is written in rounds that come to an end if the interruptions do: what is sent is a start of
-- the block, and all of it where `write_all_fd` answers that it is.
pub write_all-IsSent :
    (answer : ℕ → Wrote) (calm : ℕ) (s : Bytes)
    → ((k : ℕ) → calm ≤ k → answer k ≢ interrupted)
    → (o : Output) × (write_all answer (calm + length s + 1) 0 s ≡ some o) × IsSent s o
write_all-IsSent answer calm s h =
    write_all_lem answer calm (calm + length s + 1) 0 s h (omega arith)
