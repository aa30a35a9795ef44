-- ===== src/Menu/Icons.antt =====
-- The image files of an indicator in `update_status_icon`: a new file for each icon, and a sweep of those
-- that are older than a minute.
use mathlib.Core.List.{Perm}
use mathlib.Core.List.Perm
use developer_dashboard.Common.{
  ℕ, zero, suc, ◌+◌, ◌%◌, ◌^◌, ◌≤◌, ◌≡◌, refl, arith, Bool, true, false, List, [], ◌∷◌, ◌++◌,
  Option, none, some, ltb, append-nil, append_assoc, if◌then◌else◌, length, ap, subst, ◌||◌,
}

-- A file "dd-icon-N.png", by its number and by the second when it was written.
pub record IconFile : Type 0 where
  pub number : ℕ
  pub written : ℕ

-- `now - item->icon_file_times[i] > 60`
abbrev pub is_stale : ℕ → IconFile → Bool
is_stale now f = ltb (f.written + 60) now

abbrev last_of : IconFile → List IconFile → IconFile
last_of f [] = f
last_of f (g ∷ rest) = last_of g rest

abbrev all_but_last : IconFile → List IconFile → List IconFile
all_but_last f [] = []
all_but_last f (g ∷ rest) = f ∷ all_but_last g rest

-- The last file takes the place of the one in front of the list, which is dropped.
abbrev pub last_first : List IconFile → List IconFile
last_first [] = []
last_first (f ∷ rest) = last_of f rest ∷ all_but_last f rest

-- The files before the index and those from it on. Each round takes one off the latter.
unfoldable pub sweep : ℕ → ℕ → List IconFile → List IconFile → List IconFile
sweep now zero done todo = done ++ todo
sweep now (suc fuel) done [] = done
sweep now (suc fuel) done (f ∷ todo) =
    let stale = sweep now fuel done (last_first todo) in
    let fresh = sweep now fuel (done ++ (f ∷ [])) todo in if is_stale now f then stale else fresh

abbrev pub put_unless : Bool → IconFile → List IconFile → List IconFile
put_unless true f l = l
put_unless false f l = f ∷ l

abbrev pub fresh_files : ℕ → List IconFile → List IconFile
fresh_files now [] = []
fresh_files now (f ∷ rest) = put_unless (is_stale now f) f (fresh_files now rest)

swap_lem :
    (b c : Bool) (f g : IconFile) (l : List IconFile)
    → Perm (put_unless b f (put_unless c g l)) (put_unless c g (put_unless b f l))
swap_lem true c f g l = Perm.refl _
swap_lem false true f g l = Perm.refl _
swap_lem false false f g l = Perm.swap g f l

put_lem :
    (b : Bool) (f : IconFile) {l m : List IconFile}
    → Perm l m
    → Perm (put_unless b f l) (put_unless b f m)
put_lem true f h = h
put_lem false f h = Perm.cons f h

last_lem :
    (now : ℕ) (f : IconFile) (l : List IconFile)
    → Perm (fresh_files now (last_of f l ∷ all_but_last f l)) (fresh_files now (f ∷ l))
last_lem now f [] = Perm.refl _
last_lem now f (g ∷ l) =
    Perm.trans
      (swap_lem (is_stale now (last_of g l)) (is_stale now f) (last_of g l) f
        (fresh_files now (all_but_last g l)))
      (put_lem (is_stale now f) f (last_lem now g l))

last_first_lem :
    (now : ℕ) (l : List IconFile) → Perm (fresh_files now (last_first l)) (fresh_files now l)
last_first_lem now [] = Perm.refl _
last_first_lem now (f ∷ l) = last_lem now f l

length-all_but_last : (f : IconFile) (l : List IconFile) → length (all_but_last f l) ≡ length l
length-all_but_last f [] = refl
length-all_but_last f (g ∷ l) = ap suc (length-all_but_last g l)

length-last_first : (l : List IconFile) → length (last_first l) ≡ length l
length-last_first [] = refl
length-last_first (f ∷ l) = ap suc (length-all_but_last f l)

sweep_lem :
    (now fuel : ℕ) (done todo : List IconFile)
    → length todo ≤ fuel
    → Perm (sweep now fuel done todo) (done ++ fresh_files now todo)
unfolding sweep
sweep_lem now zero done [] h = Perm.refl _
sweep_lem now zero done (f ∷ todo) h = absurd (omega arith)
sweep_lem now (suc fuel) done [] h = rw (append-nil done) (Perm.refl _)
sweep_lem now (suc fuel) done (f ∷ todo) h =
    branches (is_stale now f)
      (Perm.trans
        (sweep_lem now fuel done (last_first todo) (omega (arith, h, length-last_first todo)))
        (Perm.append_left done (last_first_lem now todo)))
      (subst (λ l. Perm (sweep now fuel (done ++ (f ∷ [])) todo) l)
        (append_assoc done (f ∷ []) (fresh_files now todo))
        (sweep_lem now fuel (done ++ (f ∷ [])) todo (omega (arith, h))))
  where
    branches :
        {l m : List IconFile} (b : Bool)
        → Perm l (done ++ fresh_files now todo)
        → Perm m (done ++ (f ∷ fresh_files now todo))
        → Perm (if b then l else m) (done ++ put_unless b f (fresh_files now todo))
    branches true p q = p
    branches false p q = q

-- What one indicator keeps of its icons. `made` says whether it has its directory.
pub record Icons : Type 0 where
  pub made : Bool
  pub files : List IconFile
  pub sequence : ℕ
  pub global_sequence : ℕ
  pub published : Option ℕ

abbrev pub swept : ℕ → Icons → Icons
swept now icons = record icons {
  made = true;
  files = sweep now (length icons.files) [] icons.files;
}

abbrev pub next_number : Icons → ℕ
next_number icons = (icons.global_sequence + 1) % 2 ^ 64

abbrev pub published_anew : ℕ → Icons → Icons
published_anew now icons = record (swept now icons) {
  files = (swept now icons).files ++ (record { number = next_number icons; written = now } ∷ []);
  sequence = (icons.sequence + 1) % 2 ^ 64;
  global_sequence = next_number icons;
  published = some (next_number icons);
}

-- No value where the program ends: the directory cannot be made, or the image cannot be saved.
unfoldable pub update_status_icon : Bool → Bool → Bool → ℕ → Icons → Option Icons
update_status_icon can_make rendered saved now icons =
    if icons.made || can_make
    then (if rendered
        then (if saved then some (published_anew now icons) else none)
        else some (swept now icons))
    else none

or_true : (b : Bool) → (b || true) ≡ true
or_true true = refl
or_true false = refl

-- The sweep ends, and what it leaves of the files is, in some order, those that are not older than a
-- minute; with the new file behind them where an icon is published.
pub update_status_icon-Perm :
    (rendered : Bool) (now : ℕ) (icons : Icons)
    → (after : Icons) × (update_status_icon true rendered true now icons ≡ some after)
      × Perm after.files (
          fresh_files now icons.files
          ++ (if rendered then record { number = next_number icons; written = now } ∷ [] else []))
unfolding update_status_icon
update_status_icon-Perm true now icons = (
  published_anew now icons,
  rw (or_true icons.made) refl,
  Perm.append_right _ (sweep_lem now (length icons.files) [] icons.files (omega arith)),
)
update_status_icon-Perm false now icons = (
  swept now icons,
  rw (or_true icons.made) refl,
  rw (append-nil (fresh_files now icons.files))
      (sweep_lem now (length icons.files) [] icons.files (omega arith)),
)
