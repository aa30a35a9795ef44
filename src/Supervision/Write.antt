-- ===== src/Supervision/Write.antt =====
-- `write_all_posix`, and the two writes of a command.
use developer_dashboard.Common.{
  ℕ, zero, suc, ◌+◌, ◌-◌, ◌≤◌, ◌<◌, ◌≡◌, ◌≢◌, ◌∙◌, refl, ap, sym, arith, Bool, true, false, [], ◌∷◌,
  ◌++◌, append_assoc, Option, none, some, Bytes, length, length-drop, drop, ltb, Bool-cases, inl,
  inr,
}
use developer_dashboard.Menu.Write.{
  Wrote, written, interrupted, write_error, take, Output, sent_before, IsSent, Sends, before_lem,
  nothing_sent,
}
use developer_dashboard.Supervision.{Sending}

-- A call that writes nothing is tried again, as an interrupted one is.
unfoldable pub after_write : Wrote → Bytes → (Bytes → Option Output) → Option Output
after_write interrupted s next = next s
after_write write_error s next = some (record { sent = []; complete = false })
after_write (written n) s next = sent_before (take n s) (next (drop n s))

-- `answer k` is what the k-th call of `write` answers; no value where the fuel is too little.
unfoldable pub write_all : (ℕ → Wrote) → ℕ → ℕ → Bytes → Option Output
write_all answer zero call s = none
write_all answer (suc fuel) call [] = some (record { sent = []; complete = true })
write_all answer (suc fuel) call (c ∷ s) =
    after_write (answer call) (c ∷ s) (write_all answer fuel (call + 1))

-- `write_all_posix(value) && write_all_posix("\n")`, the second one with answers of its own.
abbrev pub newline_after : Output → Option Output → Option Sending
newline_after o none = none
newline_after o (some p) = some (record { sent = o.sent ++ p.sent; complete = p.complete })

abbrev pub line_with : Bool → Output → Option Output → Option Sending
line_with true o second = newline_after o second
line_with false o second = some (record { sent = o.sent; complete = false })

abbrev pub line_after : Option Output → Option Output → Option Sending
line_after none second = none
line_after (some o) second = line_with o.complete o second

unfoldable pub send_line : (ℕ → Wrote) → ℕ → (ℕ → Wrote) → ℕ → Bytes → Option Sending
send_line answer fuel answer' fuel' value =
    line_after (write_all answer fuel 0 value) (write_all answer' fuel' 0 (10 ∷ []))

round :
    (w : Wrote) (c : ℕ) (s : Bytes) (next : Bytes → Option Output)
    → (w ≡ interrupted → Sends (c ∷ s) (next (c ∷ s)))
    → (w ≡ written 0 → Sends (c ∷ s) (next (c ∷ s)))
    → ((t : Bytes) → length t ≤ length s → Sends t (next t))
    → Sends (c ∷ s) (after_write w (c ∷ s) next)
unfolding after_write
round interrupted c s next again stalled more = again refl
round write_error c s next again stalled more = nothing_sent (c ∷ s)
round (written zero) c s next again stalled more =
    before_lem 0 (c ∷ s) (next (c ∷ s)) (stalled refl)
round (written (suc n)) c s next again stalled more =
    before_lem (suc n) (c ∷ s) (next (drop n s)) (more (drop n s) (omega (arith, length-drop n s)))

-- From the call `calm` on, a call is neither interrupted nor does it write nothing.
abbrev pub IsCalm : (ℕ → Wrote) → ℕ → Type 0
IsCalm answer calm = (k : ℕ) → calm ≤ k → (answer k ≢ interrupted) × (answer k ≢ written 0)

shorter :
    (answer : ℕ → Wrote) (w : Wrote) (calm call n fuel : ℕ)
    → ((k : ℕ) → calm ≤ k → answer k ≢ w)
    → calm - call + n < suc fuel
    → answer call ≡ w
    → calm - (call + 1) + n < fuel
shorter answer w calm call n fuel h f e = elim (Bool-cases (ltb call calm)) [
  | inl early ↦ ground (arith, early, f)
  | inr late ↦ absurd (h call (ground (arith, late)) e)
]

write_all_lem :
    (answer : ℕ → Wrote) (calm fuel call : ℕ) (s : Bytes)
    → IsCalm answer calm
    → calm - call + length s < fuel
    → Sends s (write_all answer fuel call s)
unfolding write_all
write_all_lem answer calm zero call s h f = absurd (omega arith)
write_all_lem answer calm (suc fuel) call [] h f =
    (record { sent = []; complete = true }, refl, (λ e. refl, [], refl))
write_all_lem answer calm (suc fuel) call (c ∷ s) h f =
    round (answer call) c s (write_all answer fuel (call + 1))
      (λ e.
        write_all_lem answer calm fuel (call + 1) (c ∷ s) h
          (shorter answer interrupted calm call (length (c ∷ s)) fuel (λ k l. (h k l).0) f e))
      (λ e.
        write_all_lem answer calm fuel (call + 1) (c ∷ s) h
          (shorter answer (written 0) calm call (length (c ∷ s)) fuel (λ k l. (h k l).1) f e))
      (λ t l. write_all_lem answer calm fuel (call + 1) t h (omega (arith, f, l)))

-- What the two writes of a command come to: all of the line, or a start of it.
abbrev pub IsLine : Bytes → Sending → Type 0
IsLine value s =
    (s.complete ≡ true → s.sent ≡ value ++ (10 ∷ []))
    × (rest : Bytes) × (value ++ (10 ∷ []) ≡ s.sent ++ rest)

line_lem :
    (value : Bytes) (o p : Output) (b : Bool)
    → o.complete ≡ b
    → IsSent value o
    → IsSent (10 ∷ []) p
    → (s : Sending) × (line_with b o (some p) ≡ some s) × IsLine value s
line_lem value o p true e (whole, _, _) (all, rest, q) = (
  record { sent = o.sent ++ p.sent; complete = p.complete },
  refl,
  (
    λ h. ap (λ l. l ++ p.sent) (whole e) ∙ ap (λ l. value ++ l) (all h),
    rest,
    ap (λ l. value ++ l) q
        ∙ sym (append_assoc value p.sent rest)
        ∙ ap (λ l. (l ++ p.sent) ++ rest) (sym (whole e)),
  ),
)
line_lem value o p false e (_, rest, q) b = (
  record { sent = o.sent; complete = false },
  refl,
  (
    λ h. absurd (cc),
    rest ++ (10 ∷ []),
    ap (λ l. l ++ (10 ∷ [])) q ∙ append_assoc o.sent rest (10 ∷ []),
  ),
)

-- If the writes of a command are at some time neither interrupted nor idle, they come to an end: the
-- helper has been sent a start of the line, and all of it where the command is answered with success.
pub send_line-IsLine :
    (answer answer' : ℕ → Wrote) (calm calm' : ℕ) (value : Bytes)
    → IsCalm answer calm
    → IsCalm answer' calm'
    → (s : Sending) × (send_line answer (calm + length value + 1) answer' (calm' + 2) value
        ≡ some s)
      × IsLine value s
unfolding send_line
send_line-IsLine answer answer' calm calm' value h h' =
    let (o, e, a) = write_all_lem answer calm (calm + length value + 1) 0 value h (omega arith) in
    let (p, f, b) = write_all_lem answer' calm' (calm' + 2) 0 (10 ∷ []) h' (omega arith) in
    let (s, g, l) = line_lem value o p o.complete refl a b in (s, rw (e, f) g, l)
