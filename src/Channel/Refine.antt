-- ===== src/Channel/Refine.antt =====
-- A channel with a buffer answers as its queue does.
use developer_dashboard.Common.{
  ℕ, suc, ◌+◌, ◌-◌, ◌%◌, ◌^◌, ◌<◌, ◌≡◌, ◌≢◌, ◌∙◌, ◌==◌, refl, ap, sym, arith, Bool, true, false,
  List, [], ◌∷◌, ◌++◌, map, none, some, length, length-append, length-set, length-replicate, subst,
  Bool-cases, inl, inr,
}
use mathlib.Core.Path.{ap₂}
use mathlib.Core.List.{map-append}
use native.Mathlib.Nat.{mod-lt, mod-add-mod, mod-eq_of_lt}
use native.Mathlib.Numerals.{add-one}
use developer_dashboard.Common.Int.{pos}
use developer_dashboard.Channel.{
  Channel, at_head, enqueue, dequeue, send, send_buffered, receive, receive_buffered, close,
  leave_send, begin_send, interrupted_room, new_with, new_channel, wait_room, sent, send_closed,
  received, wait_message, receive_closed,
}
use developer_dashboard.Channel.Sections.{
  Section, begins_send, sends, send_interrupted, receives, receive_interrupted, closes, Reply,
  perform, performs, to_sender, to_receiver, to_closer,
}
use developer_dashboard.Channel.Queue.{Queue, answer, answers}
use developer_dashboard.Channel.Ring.{window, window-set_tail, window-set_head}
use developer_dashboard.Channel.Represents.{Represents, index_next, tail_next}

module _ {A : Type 0} (cap : ℕ) where
  -- What a section answers, and what it leaves.
  abbrev Answers : Channel A → Queue A → Section A → Type 0
  Answers c q s =
      ((perform s c).0 ≡ (answer cap s q).0) × Represents cap (perform s c).1 (answer cap s q).1

  agree :
      (s : Section A) (c : Channel A) (q : Queue A) (x : Reply A) (d : Channel A) (u : Queue A)
      → perform s c ≡ (x, d)
      → answer cap s q ≡ (x, u)
      → Represents cap d u
      → Answers c q s
  agree s c q x d u e f r = rw (e, f) (refl, r)

  enqueue-Represents :
      (c : Channel A) (q : Queue A) (m : A)
      → Represents cap c q
      → c.count ≢ cap
      → Represents cap (enqueue m c) (record q { items = q.items ++ (m ∷ []) })
  unfolding enqueue
  enqueue-Represents c q m r room = record {
    positive = r.positive;
    small = r.small;
    same = r.same;
    whole = length-set c.buffer c.tail (some m) ∙ r.whole;
    head_in = r.head_in;
    tail_at = tail_next c.head c.count c.tail cap c.capacity r.positive r.small r.same r.tail_at;
    full_at = omega (arith, r.full_at);
    counted = omega (arith, r.counted, length-append q.items (m ∷ []));
    holds =
        rw (r.tail_at, add-one)
          (window-set_tail cap c.buffer c.head c.count (some m) (omega (arith, r.whole)) r.head_in
              (omega (arith, r.full_at))
            ∙ ap (λ w. w ++ (some m ∷ [])) r.holds
            ∙ sym (map-append some q.items (m ∷ [])));
    shut = r.shut;
  }

  dequeue_at :
      (c : Channel A) (m : A) (rest : List A) (shut : Bool)
      → Represents cap c (record { items = m ∷ rest; shut = shut })
      → (n : ℕ) → c.count ≡ suc n
      → (at_head c.buffer c.head ≡ some m)
        × Represents cap (dequeue c) (record { items = rest; shut = shut })
  unfolding dequeue
  dequeue_at c m rest shut r n e =
      let seen : at_head c.buffer c.head ∷ window cap c.buffer ((c.head + 1) % cap) n
          ≡ some m ∷ map some rest =
        rw e at r.holds in
      let next = index_next c.head cap c.capacity r.head_in r.small r.same in
      let left : c.count - 1 ≡ n = omega arith in
      (
        cc,
        record {
          positive = r.positive;
          small = r.small;
          same = r.same;
          whole = length-set c.buffer c.head none ∙ r.whole;
          head_in = rw next (mod-lt (c.head + 1) r.positive);
          tail_at =
              r.tail_at
              ∙ rw (next, left, e, mod-add-mod (c.head + 1) cap n)
                  (ap (λ (t : ℕ). t % cap) (omega arith));
          full_at = omega (arith, r.full_at);
          counted = omega (arith, r.counted);
          holds =
              rw (next, left)
                (window-set_head cap c.buffer c.head n none r.head_in (omega (arith, r.full_at))
                  ∙ (cc));
          shut = r.shut;
        },
      )

  dequeue-Represents :
      (c : Channel A) (m : A) (rest : List A) (shut : Bool)
      → Represents cap c (record { items = m ∷ rest; shut = shut })
      → (at_head c.buffer c.head ≡ some m)
        × Represents cap (dequeue c) (record { items = rest; shut = shut })
  unfolding dequeue
  dequeue-Represents c m rest shut r =
      dequeue_at c m rest shut r (c.count - 1) (omega (arith, r.counted))

  send_lem : (c : Channel A) (q : Queue A) (m : A) → Represents cap c q → Answers c q (sends m)
  unfolding perform answer send send_buffered leave_send enqueue
  send_lem c q m r = elim (Bool-cases q.shut) [
    | inl shut ↦
        agree (sends m) c q (to_sender send_closed) c q
          (ground (arith, shut, r.shut, r.same, r.positive)) (ground (arith, shut)) r
    | inr unshut ↦ elim (Bool-cases (length q.items == cap)) [
      | inl full ↦
          agree (sends m) c q (to_sender wait_room) c q
            (ground (arith, unshut, full, r.shut, r.same, r.counted, r.positive))
            (ground (arith, unshut, full)) r
      | inr room ↦
          agree (sends m) c q (to_sender sent) (enqueue m c) _
            (ground (arith, unshut, room, r.shut, r.same, r.counted, r.positive))
            (ground (arith, unshut, room))
            (enqueue-Represents c q m r (ground (arith, r.counted, room)))
    ]
  ]

  receive_lem :
      (c : Channel A) (items : List A) (shut : Bool)
      → Represents cap c (record { items = items; shut = shut })
      → Answers c (record { items = items; shut = shut }) receives
  unfolding perform answer receive receive_buffered
  receive_lem c [] false r =
      agree receives c (record { items = []; shut = false }) (to_receiver wait_message) c _
        (ground (arith, r.counted, r.shut, r.same, r.positive)) refl r
  receive_lem c [] true r =
      agree receives c (record { items = []; shut = true }) (to_receiver receive_closed) c _
        (ground (arith, r.counted, r.shut, r.same, r.positive)) refl r
  receive_lem c (m ∷ rest) shut r =
      let (e, after) = dequeue-Represents c m rest shut r in
      agree receives c (record { items = m ∷ rest; shut = shut }) (to_receiver (received (some m)))
        (dequeue c) _ (ground (arith, r.counted, r.same, r.positive, e)) refl after

  perform_lem : (s : Section A) (c : Channel A) (q : Queue A) → Represents cap c q → Answers c q s
  unfolding perform answer begin_send interrupted_room leave_send close
  perform_lem begins_send c q r = (ground (arith, r.shut), r)
  perform_lem (sends m) c q r = send_lem c q m r
  perform_lem send_interrupted c q r = (ground arith, r)
  perform_lem receives c q r = receive_lem c q.items q.shut r
  perform_lem receive_interrupted c q r = (refl, r)
  perform_lem closes c q r = elim (Bool-cases q.shut) [
    | inl shut ↦
        agree closes c q (to_closer false) c q (ground (arith, shut, r.shut)) (ground (arith, shut))
          r
    | inr unshut ↦
        agree closes c q (to_closer true) (record c { closed = true }) (record q { shut = true })
          (ground (arith, unshut, r.shut, r.same, r.positive)) (ground (arith, unshut))
          (record {
            positive = r.positive;
            small = r.small;
            same = r.same;
            whole = r.whole;
            head_in = r.head_in;
            tail_at = r.tail_at;
            full_at = r.full_at;
            counted = r.counted;
            holds = r.holds;
            shut = refl;
          })
  ]

  -- In whatever order the sections run.
  pub performs-answers :
      (l : List (Section A)) (c : Channel A) (q : Queue A)
      → Represents cap c q
      → performs l c ≡ answers cap l q
  unfolding performs answers
  performs-answers [] c q r = refl
  performs-answers (s ∷ rest) c q r =
      let (e, after) = perform_lem s c q r in
      ap₂ ◌∷◌ e (performs-answers rest (perform s c).1 (answer cap s q).1 after)

new_channel-eq :
    {A : Type 0} (grant_channel grant_buffer : Bool) (n : ℕ) (c : Channel A)
    → new_channel grant_channel grant_buffer (pos n) ≡ inr c
    → new_with n ≡ c
unfolding new_channel
new_channel-eq grant_channel grant_buffer n c e = ground arith

new_with-Represents :
    {A : Type 0} (n : ℕ)
    → 0 < n
    → n < 2 ^ 63
    → Represents {A = A} n (new_with n) (record { items = []; shut = false })
new_with-Represents n positive small = record {
  positive = positive;
  small = small;
  same = refl;
  whole = length-replicate n none;
  head_in = positive;
  tail_at = rw (mod-eq_of_lt positive);
  full_at = omega arith;
  counted = refl;
  holds = refl;
  shut = refl;
}

-- From its making on, a channel with a buffer answers whatever threads do to it, in whatever order, as
-- a queue of its capacity does: messages are received in the order in which they were sent, each once,
-- a send waits just where the queue is full and a receive where it is empty, and behind `close` the
-- messages that were sent before are still received.
pub performs-new_channel :
    {A : Type 0} (grant_channel grant_buffer : Bool) (n : ℕ) (c : Channel A) (l : List (Section A))
    → 0 < n
    → n < 2 ^ 63
    → new_channel grant_channel grant_buffer (pos n) ≡ inr c
    → performs l c ≡ answers n l (record { items = []; shut = false })
performs-new_channel grant_channel grant_buffer n c l positive small e =
    performs-answers n l c (record { items = []; shut = false })
      (subst (λ d. Represents n d (record { items = []; shut = false }))
        (new_channel-eq grant_channel grant_buffer n c e) (new_with-Represents n positive small))
