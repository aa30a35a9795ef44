-- ===== src/Shared/Reserve.antt =====
-- How `dd_shared_hash_reserve` and `dd_shared_array_reserve` choose a capacity.
use native.Mathlib.Nat.{pow-succ', mul_assoc}
use developer_dashboard.Common.{
  ℕ, zero, suc, ◌+◌, ◌-◌, ◌*◌, ◌/◌, ◌^◌, ◌≤◌, ◌<◌, ◌≡◌, ◌⊎◌, inl, inr, refl, ap, arith, Bool-cases,
  Option, none, some, ltb, if◌then◌else◌, ltb→lt,
}

abbrev pub size_max : ℕ
size_max = 2 ^ 64 - 1

-- `while (capacity < need) { if (capacity > SIZE_MAX / 2) return 0; capacity *= 2; }` on fuel: no
-- value when the fuel runs out, and no capacity behind the `return 0`.
pub double_up : ℕ → ℕ → ℕ → Option (Option ℕ)
double_up zero capacity need = none
double_up (suc fuel) capacity need =
    let rest = double_up fuel (capacity * 2) need in
    if ltb capacity need
    then (if ltb (size_max / 2) capacity then some none else rest)
    else some (some capacity)

abbrev fit : ℕ → Option (Option ℕ) → Option (Option ℕ)
fit size none = none
fit size (some none) = some none
fit size (some (some capacity)) =
    if ltb (size_max / size) capacity then some none else some (some capacity)

-- The capacity for `need` elements of `size` bytes where there is `capacity` now. Sixty-one doublings
-- lead from 8 past SIZE_MAX / 2.
unfoldable pub new_capacity : ℕ → ℕ → ℕ → Option (Option ℕ)
new_capacity size capacity need =
    fit size (double_up 64 (if ltb 0 capacity then capacity else 8) need)

-- What a new capacity is good for, and when there is none.
abbrev pub Chosen : ℕ → ℕ → ℕ → Option ℕ → Type 0
Chosen size capacity need (some c) =
    (need ≤ c)
    × (capacity ≤ c)
    × (c * size ≤ size_max)
    × ((c ≤ 8) ⊎ (c ≡ capacity) ⊎ (c < 2 * need))
Chosen size capacity need none = size_max < 2 * need * size

abbrev Doubled : ℕ → ℕ → Option ℕ → Type 0
Doubled capacity need (some c) = (need ≤ c) × (capacity ≤ c) × ((c ≡ capacity) ⊎ (c < 2 * need))
Doubled capacity need none = size_max / 2 < need

abbrev Ends : ℕ → ℕ → ℕ → Type 0
Ends fuel capacity need =
    (r : Option ℕ) × (double_up fuel capacity need ≡ some r) × Doubled capacity need r

Doubled-twice :
    {capacity need : ℕ} (r : Option ℕ)
    → capacity < need
    → Doubled (capacity * 2) need r
    → Doubled capacity need r
Doubled-twice (some c) h d = (d.0, omega arith, inr (ground arith))
Doubled-twice none h d = d

round :
    (fuel capacity need : ℕ)
    → (capacity ≤ size_max / 2 → Ends fuel (capacity * 2) need)
    → Ends (suc fuel) capacity need
unfolding double_up
round fuel capacity need ih = elim (Bool-cases (ltb capacity need)) [
  | inr enough ↦ (some capacity, rw enough, ground arith)
  | inl less ↦ elim (Bool-cases (ltb (size_max / 2) capacity)) [
    | inl over ↦ (none, rw less (rw over), ground arith)
    | inr room ↦
        let (r, e, d) = ih (ground arith) in
        (r, rw less (rw room e), Doubled-twice r (ltb→lt _ _ less) d)
  ]
]

double_up_lem :
    (fuel capacity need : ℕ) → size_max / 2 < capacity * 2 ^ fuel → Ends (suc fuel) capacity need
double_up_lem zero capacity need big = round zero capacity need (λ h. absurd (omega arith))
double_up_lem (suc fuel) capacity need big = round (suc fuel) capacity need (λ h.
    double_up_lem fuel (capacity * 2) need
      (rw (mul_assoc capacity 2 (2 ^ fuel), ← pow-succ' 2 fuel) big))

over-mul : (size c : ℕ) → 0 < size → size_max / size < c → size_max < c * size
over-mul size c pos h = grind arith

within-mul : (size c : ℕ) → 0 < size → c ≤ size_max / size → c * size ≤ size_max
within-mul size c pos h = grind arith

mul_mono : (a b size : ℕ) → a ≤ b → a * size ≤ b * size
mul_mono a b size h = grind arith

fit-Chosen :
    (size capacity start need : ℕ)
    → 0 < size
    → capacity ≤ start
    → (start ≡ capacity) ⊎ (start ≡ 8)
    → start * size ≤ size_max
    → (r : Option ℕ) → Doubled start need r
    → (t : Option ℕ) × (fit size (some r) ≡ some t) × Chosen size capacity need t
fit-Chosen size capacity start need pos le eq small none d =
    (none, refl, omega (arith, mul_mono (size_max / 2 + 1) need size d, pos))
fit-Chosen size capacity start need pos le eq small (some c) d =
    elim (Bool-cases (ltb (size_max / size) c)) [
      | inl over ↦ (none, rw over, none_fits (over-mul size c pos (ltb→lt _ _ over)) d.2)
      | inr room ↦ (
        some c,
        rw room,
        (d.0, omega arith, within-mul size c pos (ground (arith, room)), origin d.2 eq),
      )
    ]
  where
    none_fits : size_max < c * size → (c ≡ start) ⊎ (c < 2 * need) → size_max < 2 * need * size
    none_fits h (inl e) = absurd (omega (arith, ap (λ (t : ℕ). t * size) e))
    none_fits h (inr l) = omega (arith, mul_mono c (2 * need) size (omega arith))

    origin :
        (c ≡ start) ⊎ (c < 2 * need)
        → (start ≡ capacity) ⊎ (start ≡ 8)
        → (c ≤ 8) ⊎ (c ≡ capacity) ⊎ (c < 2 * need)
    origin (inl e) (inl e') = inr (inl (omega arith))
    origin (inl e) (inr e') = inl (omega arith)
    origin (inr l) q = inr (inr l)

-- The loop ends. It gives a capacity for `need` elements that is no smaller than before, whose bytes
-- fit a `size_t`, and that is 8, the capacity so far, or less than twice the need; or it gives up,
-- where twice the need would not fit a `size_t`.
pub new_capacity-Chosen :
    (size capacity need : ℕ)
    → 0 < size
    → size ≤ 24
    → capacity * size ≤ size_max
    → (r : Option ℕ) × (new_capacity size capacity need ≡ some r) × Chosen size capacity need r
unfolding new_capacity
new_capacity-Chosen size capacity need pos le fits = elim (Bool-cases (ltb 0 capacity)) [
  | inl some_room ↦
      let (r, e, d) = double_up_lem 63 capacity need (ground (arith, some_room)) in
      rw some_room
        (rw e (fit-Chosen size capacity capacity need pos (omega arith) (inl refl) fits r d))
  | inr empty ↦
      let (r, e, d) = double_up_lem 63 8 need (omega arith) in
      rw empty (
        rw e (
          fit-Chosen size capacity 8 need pos (ground (arith, empty)) (inr refl) (omega arith) r d))
]
