-- ===== src/Channel.antt =====
-- The channels of GoRoutine012Native.h and GoRoutine012.xs: one function for each section that runs
-- under the mutex of a channel, from the lock or the return of a wait to the next wait or the unlock.
pub mod Sections
pub mod Queue
pub mod Ring
pub mod Represents
pub mod Refine
pub mod Rendezvous
use developer_dashboard.Common.{
  ℕ, ◌+◌, ◌-◌, ◌%◌, ◌^◌, ◌==◌, ltb, leb, Bool, true, false, not, ◌&&◌, if◌then◌else◌, List, Option,
  none, some, set, replicate, get_elem?, ◌⊎◌, inl, inr,
}
use developer_dashboard.Common.Int.{ℤ, pos, negsuc}

-- A message is a pointer that is not NULL; `none` is NULL.
pub record Channel (A : Type 0) : Type 0 where
  pub capacity : ℕ
  pub closed : Bool
  -- the rendezvous slot of a channel without a buffer
  pub slot : Option A
  pub slot_seq : ℕ
  pub consumed_seq : ℕ
  pub next_seq : ℕ
  -- the ring of one with a buffer
  pub buffer : List (Option A)
  pub head : ℕ
  pub tail : ℕ
  pub count : ℕ

-- How a section of `_channel_send` ends: in a wait for room, in a wait for its message to be taken, or
-- in the return or one of the two exceptions.
pub data SendTurn : Type 0 where
  wait_room : SendTurn
  wait_taken : ℕ → SendTurn
  sent send_closed send_cancelled : SendTurn

-- How one of `_channel_receive` ends. A message that is NULL is an exception of its own.
pub data ReceiveTurn (A : Type 0) : Type 0 where
  wait_message : ReceiveTurn A
  received : Option A → ReceiveTurn A
  receive_closed receive_cancelled : ReceiveTurn A

pub data NewError : Type 0 where
  negative_capacity no_channel no_buffer : NewError

module _ {A : Type 0} where
  abbrev pub is_some : Option A → Bool
  is_some none = false
  is_some (some a) = true

  abbrev pub new_with : ℕ → Channel A
  new_with capacity = record {
    capacity = capacity;
    closed = false;
    slot = none;
    slot_seq = 0;
    consumed_seq = 0;
    next_seq = 0;
    buffer = replicate capacity none;
    head = 0;
    tail = 0;
    count = 0;
  }

  -- `channel`: the grants say whether there is memory for the channel and for its buffer.
  unfoldable pub new_channel : Bool → Bool → ℤ → NewError ⊎ Channel A
  new_channel grant_channel grant_buffer (negsuc n) = inl negative_capacity
  new_channel grant_channel grant_buffer (pos n) =
      if not grant_channel
      then inl no_channel
      else if ltb 0 n && not grant_buffer
      then inl no_buffer
      else inr (new_with n)

  -- The first section of `_channel_send`: the exception, if the channel is closed.
  unfoldable pub begin_send : Channel A → Option SendTurn
  begin_send c = if c.closed then some send_closed else none

  -- From the lock's last look at `ch->closed` to the end. `seq` is 0 where nothing was placed.
  unfoldable pub leave_send : ℕ → Bool → Channel A → SendTurn
  leave_send seq cancelled c =
      if c.capacity == 0 && not (seq == 0) && leb seq c.consumed_seq
      then sent
      else if cancelled
      then send_cancelled
      else if c.closed
      then send_closed
      else sent

  -- The head of the second loop.
  unfoldable pub await_taken : ℕ → Channel A → SendTurn
  await_taken seq c =
      if ltb c.consumed_seq seq && not c.closed then wait_taken seq else leave_send seq false c

  -- The wait of the second loop has been interrupted: a message that nobody took is withdrawn.
  unfoldable pub withdraw : ℕ → Channel A → Channel A
  withdraw seq c =
      if ltb c.consumed_seq seq && is_some c.slot && c.slot_seq == seq
      then record c { slot = none }
      else c

  unfoldable pub interrupted_taken : ℕ → Channel A → SendTurn × Channel A
  interrupted_taken seq c = (leave_send seq true (withdraw seq c), withdraw seq c)

  abbrev pub next_seq_of : Channel A → ℕ
  next_seq_of c = (c.next_seq + 1) % 2 ^ 64

  unfoldable pub place : A → Channel A → Channel A
  place message c = record c {
    slot = some message;
    slot_seq = next_seq_of c;
    next_seq = next_seq_of c;
  }

  unfoldable pub enqueue : A → Channel A → Channel A
  enqueue message c = record c {
    buffer = set c.buffer c.tail (some message);
    tail = (c.tail + 1) % 2 ^ 64 % c.capacity;
    count = c.count + 1;
  }

  -- The head of the first loop, without a buffer and with one.
  unfoldable pub send_unbuffered : A → Channel A → SendTurn × Channel A
  send_unbuffered message c =
      if is_some c.slot && not c.closed
      then (wait_room, c)
      else if not c.closed
      then (await_taken (next_seq_of c) (place message c), place message c)
      else (leave_send 0 false c, c)

  unfoldable pub send_buffered : A → Channel A → SendTurn × Channel A
  send_buffered message c =
      if c.count == c.capacity && not c.closed
      then (wait_room, c)
      else if not c.closed
      then (leave_send 0 false (enqueue message c), enqueue message c)
      else (leave_send 0 false c, c)

  unfoldable pub send : A → Channel A → SendTurn × Channel A
  send message c = if c.capacity == 0 then send_unbuffered message c else send_buffered message c

  -- The wait of the first loop has been interrupted.
  unfoldable pub interrupted_room : Channel A → SendTurn
  interrupted_room c = leave_send 0 true c

  abbrev pub taken_from_slot : Channel A → Channel A
  taken_from_slot c = record c { slot = none; consumed_seq = c.slot_seq }

  unfoldable pub receive_unbuffered : Channel A → ReceiveTurn A × Channel A
  receive_unbuffered c =
      if not (is_some c.slot) && not c.closed
      then (wait_message, c)
      else if is_some c.slot
      then (received c.slot, taken_from_slot c)
      else (receive_closed, c)

  -- `buffer[head]`; a read out of range is ruled out by the refinement.
  abbrev pub at_head : List (Option A) → ℕ → Option A
  at_head buffer head = elim (get_elem? buffer head) [ none ↦ none | some m ↦ m ]

  unfoldable pub dequeue : Channel A → Channel A
  dequeue c = record c {
    buffer = set c.buffer c.head none;
    head = (c.head + 1) % 2 ^ 64 % c.capacity;
    count = c.count - 1;
  }

  unfoldable pub receive_buffered : Channel A → ReceiveTurn A × Channel A
  receive_buffered c =
      if c.count == 0 && not c.closed
      then (wait_message, c)
      else if ltb 0 c.count
      then (received (at_head c.buffer c.head), dequeue c)
      else (receive_closed, c)

  unfoldable pub receive : Channel A → ReceiveTurn A × Channel A
  receive c = if c.capacity == 0 then receive_unbuffered c else receive_buffered c

  -- False is the exception "close of closed channel".
  unfoldable pub close : Channel A → Bool × Channel A
  close c =
      if c.closed
      then (false, c)
      else (true, record c { closed = true; slot = if c.capacity == 0 then none else c.slot })

  unfoldable pub size : Channel A → ℕ
  size c = if c.capacity == 0 then (if is_some c.slot then 1 else 0) else c.count
