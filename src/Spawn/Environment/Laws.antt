-- ===== src/Spawn/Environment/Laws.antt =====
-- What a child finds in its environment, and that the copy fits what is allocated for it.
use developer_dashboard.Common.{
  ℕ, ◌+◌, ◌≤◌, ◌≡◌, ◌∙◌, refl, ap, arith, Bool, true, false, Bool-cases, inl, inr, List, [], ◌∷◌,
  Option, none, some, ◌||◌, All, if◌then◌else◌, Bytes, length, equal, equal_iff,
}
use developer_dashboard.Spawn.Environment.{
  Scalar, text, undefined, reference, wide, Environment, inherited, entries, croaked, has_byte,
  assigns, assignment, put_entry, checked_value, checked_key, override, child_environment,
  overrides, environment_capacity, all_granted,
}

-- `getenv`, for a name without `=`.
abbrev value_in : Bytes → Bytes → Bytes
value_in [] [] = []
value_in [] (c ∷ entry) = entry
value_in (k ∷ key) [] = []
value_in (k ∷ key) (c ∷ entry) = value_in key entry

abbrev pub getenv : Bytes → List Bytes → Option Bytes
getenv name [] = none
getenv name (entry ∷ env) =
    if assigns name entry then some (value_in name entry) else getenv name env

-- The last override of the name, or else what there was.
abbrev pub latest : Bytes → List (Scalar × Scalar) → Option Bytes → Option Bytes
latest name [] before = before
latest name ((text key, text value) ∷ rest) before =
    latest name rest (if equal key name then some value else before)
latest name (_ ∷ rest) before = latest name rest before

assigns-assignment :
    (name key value : Bytes)
    → has_byte b'=' name ≡ false
    → has_byte b'=' key ≡ false
    → assigns name (assignment key value) ≡ equal key name
unfolding assigns has_byte equal
assigns-assignment [] [] value h g = refl
assigns-assignment [] (c ∷ key) value h g = ground (arith, g)
assigns-assignment (n ∷ name) [] value h g = ground (arith, h)
assigns-assignment (n ∷ name) (c ∷ key) value h g =
    ground (arith, assigns-assignment name key value, h, g)

value_in-assignment : (key value : Bytes) → value_in key (assignment key value) ≡ value
value_in-assignment [] value = refl
value_in-assignment (c ∷ key) value = value_in-assignment key value

getenv_new :
    (name key value : Bytes) (env : List Bytes)
    → has_byte b'=' name ≡ false
    → has_byte b'=' key ≡ false
    → getenv name (assignment key value ∷ env)
      ≡ (if equal key name then some value else getenv name env)
getenv_new name key value env h g =
    rw (assigns-assignment name key value h g) (elim (Bool-cases (equal key name)) [
      | inr other ↦ rw other refl
      | inl same ↦
          rw same (ap some (rw (← (equal_iff key name).0 same) (value_in-assignment key value)))
    ])

assigns_unique :
    (name key entry : Bytes)
    → has_byte b'=' name ≡ false
    → has_byte b'=' key ≡ false
    → assigns key entry ≡ true
    → assigns name entry ≡ equal key name
unfolding assigns has_byte equal
assigns_unique name [] [] h g e = absurd (ground (arith, e))
assigns_unique [] [] (c ∷ entry) h g e = e
assigns_unique (n ∷ name) [] (c ∷ entry) h g e = ground (arith, h, e)
assigns_unique name (k ∷ key) [] h g e = absurd (ground (arith, e))
assigns_unique [] (k ∷ key) (c ∷ entry) h g e = ground (arith, g, e)
assigns_unique (n ∷ name) (k ∷ key) (c ∷ entry) h g e =
    ground (arith, assigns_unique name key entry, h, g, e)

pub getenv-put_entry :
    (name key value : Bytes) (env : List Bytes)
    → has_byte b'=' name ≡ false
    → has_byte b'=' key ≡ false
    → getenv name (put_entry key value env)
      ≡ (if equal key name then some value else getenv name env)
unfolding put_entry
getenv-put_entry name key value [] h g = getenv_new name key value [] h g
getenv-put_entry name key value (entry ∷ env) h g = elim (Bool-cases (assigns key entry)) [
  | inl e ↦
      rw e (getenv_new name key value env h g ∙ shadowed (assigns_unique name key entry h g e))
  | inr e ↦ rw e (elim (Bool-cases (equal key name)) [
    | inr other ↦ rw other (ground (arith, getenv-put_entry name key value env h g, other))
    | inl same ↦
        let q = ap (λ k. assigns k entry) ((equal_iff key name).0 same) in
        ground (arith, getenv-put_entry name key value env h g, same, q, e)
  ])
]
  where
    shadowed :
        assigns name entry ≡ equal key name
        → (if equal key name then some value else getenv name env)
          ≡ (if equal key name then some value else getenv name (entry ∷ env))
    shadowed q = ground (arith, q)

length-put_entry :
    (key value : Bytes) (env : List Bytes) → length (put_entry key value env) ≤ length env + 1
unfolding put_entry
length-put_entry key value [] = omega arith
length-put_entry key value (entry ∷ env) = ground (arith, length-put_entry key value env)

-- What an answer of `override` says, from the environment that it starts with.
abbrev pub Overridden : List Bytes → List (Scalar × Scalar) → Environment → Type 0
Overridden env list inherited = ⊥
Overridden env list (croaked e) = Unit
Overridden env list (entries result) =
    ((name : Bytes)
      → has_byte b'=' name ≡ false
      → getenv name result ≡ latest name list (getenv name env))
    × (length result ≤ length env + length list)

after_key :
    (env : List Bytes) (list : List (Scalar × Scalar)) (key : Scalar) (next : Bytes → Environment)
    → ((k : Bytes) → key ≡ text k → has_byte b'=' k ≡ false → Overridden env list (next k))
    → Overridden env list (checked_key key next)
unfolding checked_key
after_key env list undefined next h = tt
after_key env list reference next h = tt
after_key env list wide next h = tt
after_key env list (text []) next h = tt
after_key env list (text (c ∷ key)) next h =
    elim (Bool-cases (has_byte b'=' (c ∷ key) || has_byte 0 (c ∷ key))) [
      | inl bad ↦ rw bad tt
      | inr good ↦ rw good (h (c ∷ key) refl (ground (arith, good)))
    ]

after_value :
    (env before : List Bytes) (list : List (Scalar × Scalar)) (granted : Bool) (key : Bytes)
    → (value : Scalar) (next : List Bytes → Environment)
    → ((v : Bytes) → value ≡ text v → Overridden env list (next (put_entry key v before)))
    → Overridden env list (checked_value granted key value next before)
unfolding checked_value
after_value env before list granted key undefined next h = tt
after_value env before list granted key reference next h = tt
after_value env before list granted key wide next h = tt
after_value env before list granted key (text v) next h = elim (Bool-cases (has_byte 0 v)) [
  | inl bad ↦ rw bad tt
  | inr good ↦
      rw good (elim (Bool-cases granted) [
        | inl given ↦ rw given (h v refl)
        | inr refused ↦ rw refused tt
      ])
]

extend :
    (env : List Bytes) (list : List (Scalar × Scalar)) (key value : Bytes) (r : Environment)
    → has_byte b'=' key ≡ false
    → Overridden (put_entry key value env) list r
    → Overridden env ((text key, text value) ∷ list) r
extend env list key value inherited g h = h
extend env list key value (croaked e) g h = tt
extend env list key value (entries result) g h = (
  λ name n. h.0 name n ∙ ap (latest name list) (getenv-put_entry name key value env n g),
  omega (arith, h.1, length-put_entry key value env),
)

override_lem :
    (grant : ℕ → Bool) (list : List (Scalar × Scalar)) (n : ℕ) (env : List Bytes)
    → Overridden env list (override grant n list env)
unfolding override
override_lem grant [] n env = (λ name h. refl, omega arith)
override_lem grant ((key, value) ∷ list) n env =
    after_key env ((key, value) ∷ list) key
      (λ k. checked_value (grant n) k value (override grant (n + 1) list) env)
      (λ k p g.
        after_value env env ((key, value) ∷ list) (grant n) k value (override grant (n + 1) list)
          (λ v q.
            rw (p, q)
              (extend env list k v (override grant (n + 1) list (put_entry k v env)) g
                (override_lem grant list (n + 1) (put_entry k v env)))))

-- What the options may say: names that are not empty and hold neither `=` nor NUL, values without NUL.
abbrev pub IsName : Bytes → Type 0
IsName [] = ⊥
IsName (c ∷ key) = (has_byte b'=' (c ∷ key) ≡ false) × (has_byte 0 (c ∷ key) ≡ false)

abbrev pub IsOverride : Scalar × Scalar → Type 0
IsOverride (text key, text value) = IsName key × (has_byte 0 value ≡ false)
IsOverride _ = ⊥

override_total :
    (grant : ℕ → Bool) (list : List (Scalar × Scalar)) (n : ℕ) (env : List Bytes)
    → ((k : ℕ) → grant k ≡ true)
    → All IsOverride list
    → (result : List Bytes) × (override grant n list env ≡ entries result)
unfolding override checked_key checked_value
override_total grant [] n env g v = (env, refl)
override_total grant ((text (c ∷ key), text value) ∷ list) n env g v =
    let (r, e) = override_total grant list (n + 1) (put_entry (c ∷ key) value env) g v.1 in
    (r, rw (v.0.0.0, v.0.0.1, v.0.1, g n) e)
override_total grant ((text [], text value) ∷ list) n env g v = absurd v.0.0
override_total grant ((text [], undefined) ∷ list) n env g v = absurd v.0
override_total grant ((text [], reference) ∷ list) n env g v = absurd v.0
override_total grant ((text [], wide) ∷ list) n env g v = absurd v.0
override_total grant ((text (c ∷ key), undefined) ∷ list) n env g v = absurd v.0
override_total grant ((text (c ∷ key), reference) ∷ list) n env g v = absurd v.0
override_total grant ((text (c ∷ key), wide) ∷ list) n env g v = absurd v.0
override_total grant ((undefined, _) ∷ list) n env g v = absurd v.0
override_total grant ((reference, _) ∷ list) n env g v = absurd v.0
override_total grant ((wide, _) ∷ list) n env g v = absurd v.0

all_granted_lem :
    (grant : ℕ → Bool) (env : List Bytes) (n : ℕ)
    → ((k : ℕ) → grant k ≡ true)
    → all_granted grant n env ≡ true
unfolding all_granted
all_granted_lem grant [] n g = refl
all_granted_lem grant (entry ∷ env) n g = rw (g n) (all_granted_lem grant env (n + 1) g)

-- Where memory can be had, valid overrides give an environment in which every name has the value of its
-- last override, or else the value that it has here; with the NULL at its end it is no longer than
-- what is allocated.
pub child_environment_lem :
    (grant : ℕ → Bool) (list : List (Scalar × Scalar)) (env : List Bytes)
    → ((k : ℕ) → grant k ≡ true)
    → All IsOverride list
    → (result : List Bytes) × (child_environment grant (overrides list) env ≡ entries result)
      × ((name : Bytes)
          → has_byte b'=' name ≡ false
          → getenv name result ≡ latest name list (getenv name env))
      × (length result + 1 ≤ environment_capacity env list)
unfolding child_environment
child_environment_lem grant list env g v =
    let (r, e) = override_total grant list (1 + length env) env g v in
    let h = override_lem grant list (1 + length env) env in
    let (values, bound) = (rw e at h) in
    (r, rw (g 0) (rw (all_granted_lem grant env 1 g) e), values, omega (arith, bound))
