-- ===== src/Tests/Channel.antt =====
-- Channels with a buffer and without one.
use developer_dashboard.Common.{ℕ, ◌≡◌, ◌⊎◌, inr, refl, arith, true, false, List, [], ◌∷◌, some}
use developer_dashboard.Common.Int.{pos}
use developer_dashboard.Channel.{
  Channel, new_with, new_channel, send, send_unbuffered, send_buffered, enqueue, dequeue, place,
  await_taken, leave_send, interrupted_taken, withdraw, receive, receive_unbuffered,
  receive_buffered, close, wait_room, wait_taken, sent, send_closed, received, receive_closed,
}
use developer_dashboard.Channel.Sections.{
  Section, sends, receives, closes, to_sender, to_receiver, to_closer, perform, performs,
}
use developer_dashboard.Channel.Queue.{answers}
use developer_dashboard.Channel.Refine.{performs-new_channel}
use developer_dashboard.Channel.Rendezvous.{Watch, Other, Others, here, next}
use developer_dashboard.Channel.Rendezvous.Outcome.{
  unused, interrupted, Waits, Succeeds, send-receive,
}

-- Two fit; the third waits; behind the close the two are received.
abbrev schedule : List (Section ℕ)
schedule =
    sends 5
    ∷ sends 6
    ∷ sends 7
    ∷ receives
    ∷ sends 7
    ∷ closes
    ∷ receives
    ∷ receives
    ∷ receives
    ∷ sends 8
    ∷ []

buffered :
    performs schedule (new_with 2)
    ≡ to_sender sent
      ∷ to_sender sent
      ∷ to_sender wait_room
      ∷ to_receiver (received (some 5))
      ∷ to_sender sent
      ∷ to_closer true
      ∷ to_receiver (received (some 6))
      ∷ to_receiver (received (some 7))
      ∷ to_receiver receive_closed
      ∷ to_sender send_closed
      ∷ []
unfolding performs perform send send_buffered leave_send enqueue receive receive_buffered dequeue
    close
buffered = refl

makes : new_channel true true (pos 2) ≡ inr (new_with {A = ℕ} 2)
unfolding new_channel
makes = refl

performs-new_channel_example :
    performs schedule (new_with 2) ≡ answers 2 schedule (record { items = []; shut = false })
performs-new_channel_example =
    performs-new_channel true true 2 (new_with 2) schedule (omega arith) (omega arith) makes

abbrev offered : Channel ℕ
offered = record (new_with 0) { slot = some 9; slot_seq = 1; next_seq = 1 }

abbrev taken_and_closed : Watch ℕ
taken_and_closed = record {
  channel = record (new_with 0) { closed = true; slot_seq = 1; consumed_seq = 1; next_seq = 1 };
  others = [];
  taken = 9 ∷ [];
}

-- A receiver takes the message, and the channel is closed behind it.
others_move : Others 1 (record { channel = offered; others = []; taken = [] }) taken_and_closed
unfolding receive receive_unbuffered close
others_move = next (next here Other.receives) Other.closes

offers : send 9 (new_with 0) ≡ (wait_taken 1, offered)
unfolding send send_unbuffered place await_taken leave_send
offers = refl

-- A receiver that comes then gets nothing.
receives_nothing : Others 1 taken_and_closed taken_and_closed
unfolding receive receive_unbuffered
receives_nothing = next here Other.receives

receives_nothing_either : Others 1 (interrupted 1 taken_and_closed) taken_and_closed
unfolding interrupted_taken withdraw receive receive_unbuffered
receives_nothing_either = next here Other.receives

send-receive_example :
    Waits 9 1 taken_and_closed taken_and_closed taken_and_closed
    ⊎ Succeeds 9 1 taken_and_closed taken_and_closed taken_and_closed
send-receive_example =
    send-receive 9 1 offered (unused ℕ) taken_and_closed taken_and_closed taken_and_closed here
      (omega arith) offers others_move receives_nothing receives_nothing_either
