-- ===== src/Crypto.antt =====
-- `dd_load_crypto` of Native.h on Linux: libcrypto is opened when it is first needed, and two of its
-- functions are looked up. `dlopen` and `dlsym` are parameters: what they answer for a name, and for a
-- handle and a symbol.
pub mod Laws
use developer_dashboard.Common.{
  ℕ, zero, suc, ◌+◌, ◌-◌, Bool, true, false, ◌&&◌, List, [], ◌∷◌, ◌++◌, Option, none, some, Bytes,
  codes, if◌then◌else◌,
}

-- The three static variables, and how many handles are open.
pub record Crypto : Type 0 where
  pub handle : Option ℕ
  pub evp_sha256 : Option ℕ
  pub pkcs5_pbkdf2_hmac : Option ℕ
  pub open_handles : ℕ

abbrev pub path_max : ℕ
path_max = 4096

abbrev pub library_names : List Bytes
library_names = codes "libcrypto.so.3" ∷ codes "libcrypto.so.1.1" ∷ codes "libcrypto.so" ∷ []

-- What `snprintf` leaves of a text that is too long.
abbrev pub cut : ℕ → Bytes → Bytes
cut zero s = []
cut (suc n) [] = []
cut (suc n) (c ∷ s) = c ∷ cut n s

-- The path below `OPENSSL_PREFIX`, where that is set and not empty, and then the names.
abbrev pub candidates : Option Bytes → List Bytes
candidates none = library_names
candidates (some []) = library_names
candidates (some (c ∷ prefix)) =
    cut (path_max - 1) ((c ∷ prefix) ++ codes "/lib/libcrypto.so") ∷ library_names

abbrev pub both_set : Option ℕ → Option ℕ → Bool
both_set (some f) (some g) = true
both_set _ _ = false

-- The first name that can be opened.
unfoldable pub open_first : (Bytes → Option ℕ) → List Bytes → Option ℕ
open_first dlopen [] = none
open_first dlopen (name ∷ names) = elim (dlopen name) [
  | some h ↦ some h
  | none ↦ open_first dlopen names
]

-- `dlclose`, and the variables are NULL again.
abbrev pub closed : Crypto → Crypto
closed c = record {
  handle = none;
  evp_sha256 = none;
  pkcs5_pbkdf2_hmac = none;
  open_handles = c.open_handles - 1;
}

abbrev pub resolved : (ℕ → Bytes → Option ℕ) → ℕ → Crypto → Crypto
resolved dlsym h c = record {
  handle = some h;
  evp_sha256 = dlsym h (codes "EVP_sha256");
  pkcs5_pbkdf2_hmac = dlsym h (codes "PKCS5_PBKDF2_HMAC");
  open_handles = c.open_handles + 1;
}

-- Behind the search for a library.
unfoldable pub resolve : (ℕ → Bytes → Option ℕ) → Option ℕ → Crypto → Bool × Crypto
resolve dlsym none c = (false, record c { handle = none })
resolve dlsym (some h) c =
    let found = resolved dlsym h c in
    if both_set found.evp_sha256 found.pkcs5_pbkdf2_hmac
    then (true, found)
    else (false, closed found)

module _ (dlopen : Bytes → Option ℕ) (dlsym : ℕ → Bytes → Option ℕ) where
  unfoldable pub load_crypto : Option Bytes → Crypto → Bool × Crypto
  load_crypto prefix c =
      if both_set c.evp_sha256 c.pkcs5_pbkdf2_hmac
      then (true, c)
      else resolve dlsym (open_first dlopen (candidates prefix)) c
