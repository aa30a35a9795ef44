-- ===== src/Channel/Queue.antt =====
-- What a channel with a buffer promises: a queue of at most `cap` messages that can be shut.
use developer_dashboard.Common.{
  ℕ, ◌==◌, Bool, true, false, if◌then◌else◌, List, [], ◌∷◌, ◌++◌, some, length,
}
use developer_dashboard.Channel.{
  wait_room, sent, send_closed, send_cancelled, wait_message, received, receive_closed,
  receive_cancelled,
}
use developer_dashboard.Channel.Sections.{
  Section, begins_send, sends, send_interrupted, receives, receive_interrupted, closes, Reply,
  goes_on, to_sender, to_receiver, to_closer,
}

pub record Queue (A : Type 0) : Type 0 where
  pub items : List A
  pub shut : Bool

module _ {A : Type 0} where
  abbrev pub take_first : List A → Bool → Reply A × Queue A
  take_first [] shut = (
    to_receiver (if shut then receive_closed else wait_message),
    record { items = []; shut = shut },
  )
  take_first (m ∷ rest) shut =
      (to_receiver (received (some m)), record { items = rest; shut = shut })

  unfoldable pub answer : ℕ → Section A → Queue A → Reply A × Queue A
  answer cap begins_send q = (if q.shut then to_sender send_closed else goes_on, q)
  answer cap (sends m) q =
      if q.shut
      then (to_sender send_closed, q)
      else if length q.items == cap
      then (to_sender wait_room, q)
      else (to_sender sent, record q { items = q.items ++ (m ∷ []) })
  answer cap send_interrupted q = (to_sender send_cancelled, q)
  answer cap receives q = take_first q.items q.shut
  answer cap receive_interrupted q = (to_receiver receive_cancelled, q)
  answer cap closes q =
      if q.shut then (to_closer false, q) else (to_closer true, record q { shut = true })

  unfoldable pub answers : ℕ → List (Section A) → Queue A → List (Reply A)
  answers cap [] q = []
  answers cap (s ∷ rest) q = (answer cap s q).0 ∷ answers cap rest (answer cap s q).1
