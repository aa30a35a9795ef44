-- ===== src/Channel/Rendezvous/Outcome.antt =====
-- How a send without a buffer goes on and ends.
use developer_dashboard.Common.{
  ℕ, Bool-cases, ◌-◌, ◌^◌, ◌<◌, ◌≡◌, ◌⊎◌, inl, inr, refl, subst, sym, ap, arith, List, [], ◌∷◌,
  none, some, if◌then◌else◌,
}
use developer_dashboard.Channel.{
  Channel, wait_taken, sent, send_closed, send_cancelled, send, withdraw, interrupted_taken,
  await_taken, leave_send, new_with,
}
use developer_dashboard.Channel.Rendezvous.{Watch, Others, Before, Untaken, Taken, Gone}
use developer_dashboard.Channel.Rendezvous.Moves.{
  Others-Untaken, Others-Before, Others-Gone, placed-Untaken,
}

-- A channel that has been made without a buffer, and nobody has used.
abbrev pub unused : (A : Type 0) → Watch A
unused A = record { channel = new_with 0; others = []; taken = [] }

-- The channel behind the end of a send that is interrupted.
abbrev pub interrupted : {A : Type 0} → ℕ → Watch A → Watch A
interrupted seq w = record w { channel = (interrupted_taken seq w.channel).1 }

-- What has been received by `later`, if the channel is closed at `w`.
abbrev pub taken_if_closed : {A : Type 0} → Watch A → Watch A → List A
taken_if_closed w later = if w.channel.closed then later.taken else []

-- How the sender goes on while nobody has taken the message: it waits with the message in the slot or,
-- if the channel is closed or the wait is interrupted, ends with the exception and no message in the
-- slot; and then nobody has taken the message by `later`, or by `withdrawn`.
abbrev pub Waits : {A : Type 0} → A → ℕ → (w later withdrawn : Watch A) → Type 0
Waits m seq w later withdrawn =
    (w.taken ≡ [])
    × (await_taken seq w.channel ≡ (if w.channel.closed then send_closed else wait_taken seq))
    × (w.channel.slot ≡ (if w.channel.closed then none else some m))
    × ((interrupted_taken seq w.channel).0 ≡ send_cancelled)
    × ((interrupted_taken seq w.channel).1.slot ≡ none)
    × (taken_if_closed w later ≡ [])
    × (withdrawn.taken ≡ [])

-- Once the message has been taken, the send has succeeded, closed and interrupted or not, and it is
-- not taken again.
abbrev pub Succeeds : {A : Type 0} → A → ℕ → (w later withdrawn : Watch A) → Type 0
Succeeds m seq w later withdrawn =
    (w.taken ≡ m ∷ [])
    × (await_taken seq w.channel ≡ sent)
    × (interrupted_taken seq w.channel ≡ (sent, w.channel))
    × (later.taken ≡ m ∷ [])
    × (withdrawn.taken ≡ m ∷ [])

module _ {A : Type 0} (m : A) (seq : ℕ) where
  withdrawn-Gone : (w : Watch A) → Untaken m seq w → Gone [] seq (interrupted seq w)
  unfolding interrupted_taken withdraw leave_send
  withdrawn-Gone w t = elim (Bool-cases w.channel.closed) [
    | inl shut ↦ ground (arith, shut)
    | inr unshut ↦ ground (arith, unshut)
  ]

  closed_lem :
      (w later : Watch A) → Untaken m seq w → Others seq w later → taken_if_closed w later ≡ []
  closed_lem w later t moves = elim (Bool-cases w.channel.closed) [
    | inl shut ↦
        let gone : Gone [] seq w = ground (arith, shut) in
        rw shut (Others-Gone [] seq moves gone).kept
    | inr unshut ↦ rw unshut refl
  ]

  Untaken-Waits :
      (w later withdrawn : Watch A)
      → Untaken m seq w
      → Others seq w later
      → Others seq (interrupted seq w) withdrawn
      → Waits m seq w later withdrawn
  unfolding await_taken interrupted_taken withdraw leave_send
  Untaken-Waits w later withdrawn t moves others =
      let no_more = closed_lem w later t moves in
      let nobody = (Others-Gone [] seq others (withdrawn-Gone w t)).kept in
      elim (Bool-cases w.channel.closed) [
        | inl shut ↦ (
          t.nothing,
          ground (arith, shut),
          t.slot,
          ground (arith, shut),
          ground (arith, shut),
          no_more,
          nobody,
        )
        | inr unshut ↦ (
          t.nothing,
          ground (arith, unshut),
          t.slot,
          ground (arith, unshut),
          ground (arith, unshut),
          no_more,
          nobody,
        )
      ]

  Taken-Gone : (w : Watch A) → Taken m seq w → Gone (m ∷ []) seq w
  Taken-Gone w t = record {
    unbuffered = t.unbuffered;
    given = t.given;
    unknown = t.unknown;
    kept = t.once;
    slot = t.slot;
  }

  Taken-Succeeds :
      (w later withdrawn : Watch A)
      → 0 < seq
      → Taken m seq w
      → Others seq w later
      → Others seq (interrupted seq w) withdrawn
      → Succeeds m seq w later withdrawn
  unfolding await_taken interrupted_taken withdraw leave_send
  Taken-Succeeds w later withdrawn p t moves others =
      let same : interrupted_taken seq w.channel ≡ (sent, w.channel) = ground arith in
      let gone = Taken-Gone w t in
      (
        t.once,
        ground arith,
        same,
        (Others-Gone (m ∷ []) seq moves gone).kept,
        (Others-Gone (m ∷ []) seq others (
            subst (λ c. Gone (m ∷ []) seq (record w { channel = c })) (sym (ap (λ r. r.1) same))
              gone)).kept,
      )

-- A rendezvous. Whatever other threads have done to a channel without a buffer before a sender places
-- its message, and whatever they do to it then: either nobody has taken the message, and the sender
-- waits with the message in the slot, or ends with an exception, after which nobody will take it,
-- whatever the others still do, the channel being closed or the message withdrawn; or it has been
-- received, once and for all, and the sender succeeds, though the channel be closed or the sender
-- interrupted by then. Numbers of messages do not come up to 2 ^ 64.
pub send-receive :
    {A : Type 0} (m : A) (seq : ℕ) (c : Channel A) (before after later withdrawn : Watch A)
    → Others seq (unused A) before
    → before.channel.next_seq < 2 ^ 64 - 1
    → send m before.channel ≡ (wait_taken seq, c)
    → Others seq (record before { channel = c }) after
    → Others seq after later
    → Others seq (interrupted seq after) withdrawn
    → Waits m seq after later withdrawn ⊎ Succeeds m seq after later withdrawn
send-receive {A} m seq c before after later withdrawn past b e during moves others =
    let start : Before seq (unused A) = record {
      unbuffered = refl;
      behind = omega arith;
      in_slot = omega arith;
      known = tt;
      early = inl refl;
    } in
    let placing = placed-Untaken m seq before c b e (Others-Before m seq past start) in
    elim (Others-Untaken m seq during placing) [
      | inl t ↦ inl (Untaken-Waits m seq after later withdrawn t moves others)
      | inr t ↦ inr (
          Taken-Succeeds m seq after later withdrawn (omega (arith, placing.behind)) t moves others)
    ]
