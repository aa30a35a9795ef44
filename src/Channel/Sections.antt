-- ===== src/Channel/Sections.antt =====
-- The sections of the threads that use one channel, in any order.
use developer_dashboard.Common.{Bool, List, [], ◌∷◌, Option, none, some}
use developer_dashboard.Channel.{
  Channel, SendTurn, ReceiveTurn, receive_cancelled, begin_send, send, interrupted_room, receive,
  close,
}

-- A thread that waits comes back to the head of its loop, with `sends` or `receives`, or is
-- interrupted.
pub data Section (A : Type 0) : Type 0 where
  begins_send : Section A
  sends : A → Section A
  send_interrupted : Section A
  receives : Section A
  receive_interrupted : Section A
  closes : Section A

pub data Reply (A : Type 0) : Type 0 where
  goes_on : Reply A
  to_sender : SendTurn → Reply A
  to_receiver : ReceiveTurn A → Reply A
  to_closer : Bool → Reply A

module _ {A : Type 0} where
  abbrev pub begun : Option SendTurn → Reply A
  begun none = goes_on
  begun (some turn) = to_sender turn

  unfoldable pub perform : Section A → Channel A → Reply A × Channel A
  perform begins_send c = (begun (begin_send c), c)
  perform (sends m) c = (to_sender (send m c).0, (send m c).1)
  perform send_interrupted c = (to_sender (interrupted_room c), c)
  perform receives c = (to_receiver (receive c).0, (receive c).1)
  perform receive_interrupted c = (to_receiver receive_cancelled, c)
  perform closes c = (to_closer (close c).0, (close c).1)

  unfoldable pub performs : List (Section A) → Channel A → List (Reply A)
  performs [] c = []
  performs (s ∷ rest) c = (perform s c).0 ∷ performs rest (perform s c).1
