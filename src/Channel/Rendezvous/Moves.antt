-- ===== src/Channel/Rendezvous/Moves.antt =====
-- What the moves of the other threads leave.
use developer_dashboard.Common.{
  ℕ, Bool-cases, ◌+◌, ◌-◌, ◌^◌, ◌<◌, ◌≤◌, ◌≡◌, ◌≢◌, ◌⊎◌, inl, inr, subst, sym, ap, if_both, refl,
  ◌∙◌, Option-cases, arith, false, List, [], ◌∷◌, none, some, All,
}
use developer_dashboard.Channel.{
  Channel, SendTurn, wait_room, wait_taken, send_closed, send, receive, close, withdraw,
  interrupted_taken, await_taken, leave_send, place, send_unbuffered, receive_unbuffered,
  receive_buffered, dequeue, next_seq_of,
}
use developer_dashboard.Channel.Rendezvous.{
  Watch, placed, all_at, Other, sends, is_interrupted, receives, closes, Others, here, next, Before,
  Untaken, Taken, Gone,
}

module _ {A : Type 0} (m : A) (seq : ℕ) (positive : 0 < seq) where
  Other-Taken : {w u : Watch A} → Other seq w u → Taken m seq w → Taken m seq u
  unfolding send send_unbuffered place interrupted_taken withdraw receive receive_unbuffered close
      await_taken leave_send
  Other-Taken (sends n b) t = ground (arith, t)
  Other-Taken {w} (is_interrupted i q e) t =
      ground (arith, all_at (λ q. q ≢ seq) w.others i q t.unknown e)
  Other-Taken receives t = ground arith
  Other-Taken closes t = ground arith

  Others-Taken : {w u : Watch A} → Others seq w u → Taken m seq w → Taken m seq u
  Others-Taken here t = t
  Others-Taken (next r o) t = Other-Taken o (Others-Taken r t)

module _ {A : Type 0} (l : List A) (seq : ℕ) where
  Other-Gone : {w u : Watch A} → Other seq w u → Gone l seq w → Gone l seq u
  unfolding send send_unbuffered place interrupted_taken withdraw receive receive_unbuffered close
      await_taken leave_send
  Other-Gone (sends n b) t = ground (arith, t)
  Other-Gone {w} (is_interrupted i q e) t =
      ground (arith, all_at (λ q. q ≢ seq) w.others i q t.unknown e)
  Other-Gone receives t = ground arith
  Other-Gone closes t = ground arith

  pub Others-Gone : {w u : Watch A} → Others seq w u → Gone l seq w → Gone l seq u
  Others-Gone here t = t
  Others-Gone (next r o) t = Other-Gone o (Others-Gone r t)

-- What a send without a buffer comes to.
data Sent : Type 0 where
  no_room is_shut is_placed : Sent

module _ {A : Type 0} where
  abbrev sent_as : A → Channel A → Sent → SendTurn × Channel A
  sent_as n c no_room = (wait_room, c)
  sent_as n c is_shut = (send_closed, c)
  sent_as n c is_placed = (
    wait_taken (c.next_seq + 1),
    record c {
      closed = false;
      slot = some n;
      slot_seq = c.next_seq + 1;
      next_seq = c.next_seq + 1;
    },
  )

  next_seq-receive : (c : Channel A) → (receive c).1.next_seq ≡ c.next_seq
  unfolding receive receive_unbuffered receive_buffered dequeue
  next_seq-receive c = ground arith

  next_seq-close : (c : Channel A) → (close c).1.next_seq ≡ c.next_seq
  unfolding close
  next_seq-close c = ground arith

  send-cases :
      (n : A) (c : Channel A)
      → c.capacity ≡ 0
      → c.consumed_seq ≤ c.next_seq
      → c.next_seq < 2 ^ 64 - 1
      → (k : Sent) × (send n c ≡ sent_as n c k)
  unfolding send send_unbuffered place await_taken leave_send
  send-cases n c z h b =
      let unwrapped : next_seq_of c ≡ c.next_seq + 1 = omega arith in
      elim (Bool-cases c.closed) [
        | inl shut ↦ (is_shut, ground (arith, shut))
        | inr unshut ↦ elim (Option-cases c.slot) [
          | inl empty ↦ (is_placed, ground (arith, empty, unshut, unwrapped))
          | inr (x, e) ↦ (no_room, ground (arith, unshut, e))
        ]
      ]

module _ {A : Type 0} (m : A) (seq : ℕ) where
  Other-Untaken :
      {w u : Watch A} → Other seq w u → Untaken m seq w → Untaken m seq u ⊎ Taken m seq u
  unfolding send send_unbuffered place interrupted_taken withdraw receive receive_unbuffered close
      await_taken leave_send
  Other-Untaken (sends n b) t = inl (ground arith)
  Other-Untaken {w} (is_interrupted i q e) t =
      inl (ground (arith, all_at (λ q. q ≢ seq) w.others i q t.unknown e))
  Other-Untaken {w} receives t = elim (Bool-cases w.channel.closed) [
    | inl shut ↦ inl (ground (arith, shut))
    | inr unshut ↦ inr (ground (arith, unshut))
  ]
  Other-Untaken closes t = inl (ground arith)

  pub Others-Untaken :
      {w u : Watch A} → Others seq w u → Untaken m seq w → Untaken m seq u ⊎ Taken m seq u
  Others-Untaken here t = inl t
  Others-Untaken {w} (next r o) t = elim (Others-Untaken r t) [
    | inl still ↦ Other-Untaken o still
    | inr done ↦ inr (Other-Taken m seq (omega (arith, t.behind)) o done)
  ]

  all_mono : (j k : ℕ) (l : List ℕ) → j ≤ k → All (λ q. q ≤ j) l → All (λ q. q ≤ k) l
  all_mono j k [] h a = tt
  all_mono j k (x ∷ l) h a = (omega arith, all_mono j k l h a.1)

  all_ne : (j k : ℕ) (l : List ℕ) → j < k → All (λ q. q ≤ j) l → All (λ q. q ≢ k) l
  all_ne j k [] h a = tt
  all_ne j k (x ∷ l) h a = (omega arith, all_ne j k l h a.1)

  sent-Before :
      (w : Watch A) (n : A)
      → w.channel.next_seq < 2 ^ 64 - 1
      → Before seq w
      → (k : Sent)
      → Before seq (record w {
        channel = (sent_as n w.channel k).1;
        others = placed (sent_as n w.channel k).0 w.others;
      })
  sent-Before w n b t no_room = t
  sent-Before w n b t is_shut = t
  sent-Before w n b t is_placed = record {
    unbuffered = t.unbuffered;
    behind = omega (arith, t.behind);
    in_slot = omega arith;
    known = (
      omega arith,
      all_mono w.channel.next_seq (w.channel.next_seq + 1) w.others (omega arith) t.known,
    );
    early = ground (arith, t.early);
  }

  Other-Before : {w u : Watch A} → Other seq w u → Before seq w → Before seq u
  unfolding send send_unbuffered place interrupted_taken withdraw receive receive_unbuffered close
      await_taken leave_send
  Other-Before {w} (sends n b) t =
      subst
        (λ (r : SendTurn × Channel A).
          Before seq (record w { channel = r.1; others = placed r.0 w.others }))
        (sym (send-cases n w.channel t.unbuffered t.behind b).1)
        (sent-Before w n b t (send-cases n w.channel t.unbuffered t.behind b).0)
  Other-Before {w} (is_interrupted i q e) t =
      if_both (λ d. Before seq (record w { channel = d })) _ (record w.channel { slot = none })
        w.channel
        (record {
          unbuffered = t.unbuffered;
          behind = t.behind;
          in_slot = t.in_slot;
          known = t.known;
          early = t.early;
        })
        t
  Other-Before {w} receives t = record {
    unbuffered = ground (arith, t.unbuffered);
    behind = ground (arith, t.unbuffered);
    in_slot = ground (arith, t.unbuffered);
    known = rw (next_seq-receive w.channel) t.known;
    early = ground (arith, t.unbuffered);
  }
  Other-Before {w} closes t = record {
    unbuffered = ground (arith, t.unbuffered);
    behind = ground (arith, t.unbuffered);
    in_slot = ground (arith, t.unbuffered);
    known = rw (next_seq-close w.channel) t.known;
    early = rw (next_seq-close w.channel) t.early;
  }

  pub Others-Before : {w u : Watch A} → Others seq w u → Before seq w → Before seq u
  Others-Before here t = t
  Others-Before (next r o) t = Other-Before o (Others-Before r t)

  placing :
      (w : Watch A) (c : Channel A)
      → w.channel.next_seq < 2 ^ 64 - 1
      → Before seq w
      → (k : Sent) → (wait_taken seq, c) ≡ sent_as m w.channel k
      → Untaken m seq (record w { channel = c })
  placing w c b t no_room e = let f : wait_taken seq ≡ wait_room = ap (λ r. r.0) e in absurd (cc)
  placing w c b t is_shut e = let f : wait_taken seq ≡ send_closed = ap (λ r. r.0) e in absurd (cc)
  placing w c b t is_placed e =
      let f : wait_taken seq ≡ wait_taken (w.channel.next_seq + 1) = ap (λ r. r.0) e in
      let g : seq ≡ w.channel.next_seq + 1 = cc in
      subst (λ d. Untaken m seq (record w { channel = d })) (sym (ap (λ r. r.1) e))
        (record {
          unbuffered = t.unbuffered;
          given = omega arith;
          unknown = all_ne w.channel.next_seq seq w.others (omega arith) t.known;
          behind = omega (arith, t.behind);
          nothing = ground (arith, t.early);
          at_slot = omega arith;
          slot = refl;
        })

  pub placed-Untaken :
      (w : Watch A) (c : Channel A)
      → w.channel.next_seq < 2 ^ 64 - 1
      → send m w.channel ≡ (wait_taken seq, c)
      → Before seq w
      → Untaken m seq (record w { channel = c })
  placed-Untaken w c b e t =
      let (k, f) = send-cases m w.channel t.unbuffered t.behind b in placing w c b t k (sym e ∙ f)
