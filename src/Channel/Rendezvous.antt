-- ===== src/Channel/Rendezvous.antt =====
-- A channel without a buffer, seen from one sender: what all the others can do to it meanwhile.
pub mod Moves
pub mod Outcome
use developer_dashboard.Common.{
  ℕ, zero, suc, Bool-cases, ◌+◌, ◌-◌, ◌%◌, ◌^◌, ◌<◌, ◌≤◌, ◌≡◌, ◌≢◌, ◌==◌, ◌⊎◌, inl, inr, subst, sym,
  ap, if_both, refl, ◌∙◌, Option-cases, arith, Bool, true, false, List, [], ◌∷◌, ◌++◌, Option, none,
  some, get_elem?, if◌then◌else◌, All,
}
use developer_dashboard.Channel.{
  Channel, SendTurn, wait_room, wait_taken, sent, send_closed, send_cancelled, ReceiveTurn,
  received, send, receive, close, withdraw, interrupted_taken, await_taken, leave_send, new_with,
  place, send_unbuffered, receive_unbuffered, receive_buffered, dequeue, next_seq_of,
  taken_from_slot,
}

-- The channel, the numbers under which others have placed messages, and what has been received under
-- the number of the one sender.
pub record Watch (A : Type 0) : Type 0 where
  pub channel : Channel A
  pub others : List ℕ
  pub taken : List A

abbrev pub placed : SendTurn → List ℕ → List ℕ
placed (wait_taken q) l = q ∷ l
placed _ l = l

pub all_at {ℓ} : (P : ℕ → Type ℓ) (l : List ℕ) (i q : ℕ) → All P l → get_elem? l i ≡ some q → P q
all_at P [] i q h e = absurd (cc)
all_at P (x ∷ l) zero q h e = subst P (cc) h.0
all_at P (x ∷ l) (suc i) q h e = all_at P l i q h.1 e

module _ {A : Type 0} where
  abbrev pub taken_under : ℕ → ℕ → ReceiveTurn A → List A → List A
  taken_under seq slot_seq (received (some m)) l = if slot_seq == seq then l ++ (m ∷ []) else l
  taken_under seq slot_seq _ l = l

  -- A section of another thread. The numbers are given out before they wrap: 2 ^ 64 messages are never
  -- sent.
  pub data Other (seq : ℕ) (w : Watch A) : Watch A → Type 0 where
    sends :
        (m : A)
        → w.channel.next_seq < 2 ^ 64 - 1
        → Other seq w (record w {
          channel = (send m w.channel).1;
          others = placed (send m w.channel).0 w.others;
        })
    is_interrupted :
        (i q : ℕ)
        → get_elem? w.others i ≡ some q
        → Other seq w (record w { channel = (interrupted_taken q w.channel).1 })
    receives : Other seq w (record w {
      channel = (receive w.channel).1;
      taken = taken_under seq w.channel.slot_seq (receive w.channel).0 w.taken;
    })
    closes : Other seq w (record w { channel = (close w.channel).1 })

  pub data Others (seq : ℕ) (w : Watch A) : Watch A → Type 0 where
    here : Others seq w w
    next : {u v : Watch A} → Others seq w u → Other seq u v → Others seq w v

  -- Before the sender has placed its message.
  pub record Before (seq : ℕ) (w : Watch A) : Type 0 where
    pub unbuffered : w.channel.capacity ≡ 0
    pub behind : w.channel.consumed_seq ≤ w.channel.next_seq
    pub in_slot : w.channel.slot_seq ≤ w.channel.next_seq
    pub known : All (λ q. q ≤ w.channel.next_seq) w.others
    pub early : (w.taken ≡ []) ⊎ (seq ≤ w.channel.next_seq)

  -- Behind it, while nobody has taken the message.
  pub record Untaken (m : A) (seq : ℕ) (w : Watch A) : Type 0 where
    pub unbuffered : w.channel.capacity ≡ 0
    pub given : seq ≤ w.channel.next_seq
    pub unknown : All (λ q. q ≢ seq) w.others
    pub behind : w.channel.consumed_seq < seq
    pub nothing : w.taken ≡ []
    pub at_slot : w.channel.slot_seq ≡ seq
    pub slot : w.channel.slot ≡ (if w.channel.closed then none else some m)

  -- And once one has.
  pub record Taken (m : A) (seq : ℕ) (w : Watch A) : Type 0 where
    pub unbuffered : w.channel.capacity ≡ 0
    pub given : seq ≤ w.channel.next_seq
    pub unknown : All (λ q. q ≢ seq) w.others
    pub behind : seq ≤ w.channel.consumed_seq
    pub once : w.taken ≡ m ∷ []
    pub slot : (w.channel.slot ≡ none) ⊎ (seq < w.channel.slot_seq)

  -- When nobody can take the message any more, and `l` has been received under its number.
  pub record Gone (l : List A) (seq : ℕ) (w : Watch A) : Type 0 where
    pub unbuffered : w.channel.capacity ≡ 0
    pub given : seq ≤ w.channel.next_seq
    pub unknown : All (λ q. q ≢ seq) w.others
    pub kept : w.taken ≡ l
    pub slot : (w.channel.slot ≡ none) ⊎ (seq < w.channel.slot_seq)
