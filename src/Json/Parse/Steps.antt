-- ===== src/Json/Parse/Steps.antt =====
-- The loops of the parser, one round at a time.
use developer_dashboard.Common.{ℕ, suc, ◌≡◌, arith, ◌∷◌, Option, some, Bytes}
use developer_dashboard.Json.{JParser, j_skip}
use developer_dashboard.Json.Text.{j_string}
use developer_dashboard.Json.Parse.{◌>>=◌, j_value, array_loop, array_item, object_loop, pair_colon}

pub bind_some {ℓ κ} :
    {A : Type ℓ} {B : Type κ} (f : A → Option B) {m : Option A} {a : A} {b : Option B}
    → m ≡ some a
    → f a ≡ b
    → (m >>= f) ≡ b
bind_some f e h = rw e h

pub array_loop_cons :
    (f : ℕ) (ps : JParser) {c : ℕ} {more : Bytes}
    → ps.rest ≡ c ∷ more
    → array_loop (suc f) ps ≡ (j_value f ps >>= array_item (array_loop f))
unfolding array_loop
array_loop_cons f ps e = ground (arith)

pub object_loop_cons :
    (f : ℕ) (ps : JParser) {c : ℕ} {more : Bytes}
    → ps.rest ≡ c ∷ more
    → object_loop (suc f) ps ≡ (j_string (j_skip ps) >>= pair_colon (j_value f) (object_loop f))
unfolding object_loop
object_loop_cons f ps e = ground (arith)
