-- ===== src/Shared/Graph/Missing.antt =====
-- How many of the referents of a list have no node yet: the bound on how deep `dd_shared_import_value` goes.
use developer_dashboard.Common.{
  ℕ, suc, ◌≤◌, ◌<◌, ◌≡◌, ◌≢◌, ◌⊎◌, inl, inr, arith, List, [], ◌∷◌, ◌==◌, if◌then◌else◌, length,
}
use developer_dashboard.Shared.Import.{ImportMap, import_find}

abbrev pub missing : List ℕ → ImportMap → ℕ
missing [] m = 0
missing (s ∷ l) m = if import_find m s == 0 then suc (missing l m) else missing l m

abbrev pub Listed : ℕ → List ℕ → Type 0
Listed s [] = ⊥
Listed s (r ∷ l) = (s ≡ r) ⊎ Listed s l

abbrev pub Extends : ImportMap → ImportMap → Type 0
Extends m after = (s : ℕ) → import_find m s ≢ 0 → import_find after s ≢ 0

pub missing_mono :
    (l : List ℕ) (m after : ImportMap) → Extends m after → missing l after ≤ missing l m
missing_mono [] m after e = omega arith
missing_mono (s ∷ l) m after e = ground (arith, missing_mono l m after e, e s)

pub missing_less :
    (l : List ℕ) (m after : ImportMap) (s : ℕ)
    → Extends m after
    → Listed s l
    → import_find m s ≡ 0
    → import_find after s ≢ 0
    → missing l after < missing l m
missing_less [] m after s e i a b = elim i [ ]
missing_less (r ∷ l) m after s e (inl i) a b = ground (arith, i, a, b, missing_mono l m after e)
missing_less (r ∷ l) m after s e (inr i) a b = ground (arith, e r, missing_less l m after s e i a b)

pub missing-length : (l : List ℕ) (m : ImportMap) → missing l m ≤ length l
missing-length [] m = omega arith
missing-length (s ∷ l) m = ground (arith, missing-length l m)
