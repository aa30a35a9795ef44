-- ===== src/Channel/Represents.antt =====
-- When a ring holds the messages of a queue, and what the steps of an index come to.
use developer_dashboard.Common.{
  ℕ, ◌+◌, ◌%◌, ◌^◌, ◌<◌, ◌≤◌, ◌≡◌, ◌∙◌, refl, ap, arith, map, some, length,
}
use native.Mathlib.Nat.{mod-lt, mod-add-mod}
use developer_dashboard.Channel.{Channel}
use developer_dashboard.Channel.Queue.{Queue}
use developer_dashboard.Channel.Ring.{window}

-- The ring holds the messages of the queue in their order, and lies in its buffer. The capacity is a
-- positive IV, so that no sum of indices wraps.
pub record Represents {A : Type 0} (cap : ℕ) (c : Channel A) (q : Queue A) : Type 0 where
  pub positive : 0 < cap
  pub small : cap < 2 ^ 63
  pub same : c.capacity ≡ cap
  pub whole : length c.buffer ≡ cap
  pub head_in : c.head < cap
  pub tail_at : c.tail ≡ (c.head + c.count) % cap
  pub full_at : c.count ≤ cap
  pub counted : c.count ≡ length q.items
  pub holds : window cap c.buffer c.head c.count ≡ map some q.items
  pub shut : c.closed ≡ q.shut

pub index_next :
    (i cap capacity : ℕ)
    → i < cap
    → cap < 2 ^ 63
    → capacity ≡ cap
    → (i + 1) % 2 ^ 64 % capacity ≡ (i + 1) % cap
index_next i cap capacity h small same =
    let unwrapped : (i + 1) % 2 ^ 64 ≡ i + 1 = omega arith in rw (unwrapped, same) refl

pub tail_next :
    (head count tail cap capacity : ℕ)
    → 0 < cap
    → cap < 2 ^ 63
    → capacity ≡ cap
    → tail ≡ (head + count) % cap
    → (tail + 1) % 2 ^ 64 % capacity ≡ (head + (count + 1)) % cap
tail_next head count tail cap capacity positive small same e =
    index_next tail cap capacity (rw e (mod-lt (head + count) positive)) small same
    ∙ ap (λ (t : ℕ). (t + 1) % cap) e
    ∙ mod-add-mod (head + count) cap 1
    ∙ ap (λ (t : ℕ). t % cap) (omega arith)
