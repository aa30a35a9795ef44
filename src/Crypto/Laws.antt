-- ===== src/Crypto/Laws.antt =====
-- The two functions are set together, with the one library that they stand in.
use developer_dashboard.Common.{
  ℕ, ◌≡◌, ◌⊎◌, inl, inr, refl, ap, sym, subst, ◌∙◌, arith, Bool, true, false, Option, none, some,
  Bytes, codes, if◌then◌else◌,
}
use developer_dashboard.Crypto.{
  Crypto, both_set, open_first, candidates, closed, resolved, resolve, load_crypto,
}

-- Nothing is loaded, and no handle is open.
abbrev pub IsUnloaded : Crypto → Type 0
IsUnloaded c =
    (c.handle ≡ none) × (c.evp_sha256 ≡ none) × (c.pkcs5_pbkdf2_hmac ≡ none) × (c.open_handles ≡ 0)

-- One library is open, and both functions are set.
abbrev pub IsLoaded : Crypto → Type 0
IsLoaded c =
    (h : ℕ) × (c.handle ≡ some h)
    × (both_set c.evp_sha256 c.pkcs5_pbkdf2_hmac ≡ true)
    × (c.open_handles ≡ 1)

-- What an answer of `load_crypto` stands for.
abbrev pub Answers : Crypto → Bool × Crypto → Type 0
Answers c (true, after) = IsLoaded after
Answers c (false, after) = IsUnloaded c × (after ≡ c)

unloaded_lem : (c d : Crypto) → IsUnloaded c → IsUnloaded d → d ≡ c
unloaded_lem c d u v = ground (arith, u, v)

module _ (dlsym : ℕ → Bytes → Option ℕ) where
  resolve_lem : (o : Option ℕ) (c : Crypto) → IsUnloaded c → Answers c (resolve dlsym o c)
  unfolding resolve
  resolve_lem none c u = (u, unloaded_lem c _ u (refl, u.1, u.2, u.3))
  resolve_lem (some h) c u =
      branches (both_set (dlsym h (codes "EVP_sha256")) (dlsym h (codes "PKCS5_PBKDF2_HMAC"))) refl
    where
      branches :
          (b : Bool)
          → both_set (dlsym h (codes "EVP_sha256")) (dlsym h (codes "PKCS5_PBKDF2_HMAC")) ≡ b
          → Answers c
              (if b then (true, resolved dlsym h c) else (false, closed (resolved dlsym h c)))
      branches true e = (h, refl, e, omega (arith, u.3))
      branches false e = (u, unloaded_lem c _ u (refl, refl, refl, omega (arith, u.3)))

-- Loading libcrypto ends with both functions set and one library open, or it fails and leaves
-- everything as it was, with no library open; and once it is loaded, a call changes nothing.
pub load_crypto-Answers :
    (dlopen : Bytes → Option ℕ) (dlsym : ℕ → Bytes → Option ℕ) (prefix : Option Bytes) (c : Crypto)
    → IsUnloaded c ⊎ IsLoaded c
    → Answers c (load_crypto dlopen dlsym prefix c)
      × (IsLoaded c → load_crypto dlopen dlsym prefix c ≡ (true, c))
unfolding load_crypto
load_crypto-Answers dlopen dlsym prefix c s = (answers s, λ l. branch true l.2 refl)
  where
    searched : Bool × Crypto
    searched = resolve dlsym (open_first dlopen (candidates prefix)) c

    branch :
        (b : Bool) {r : Bool × Crypto}
        → both_set c.evp_sha256 c.pkcs5_pbkdf2_hmac ≡ b
        → (if b then (true, c) else searched) ≡ r
        → (if both_set c.evp_sha256 c.pkcs5_pbkdf2_hmac then (true, c) else searched) ≡ r
    branch b e q = ap (λ t. if t then (true, c) else searched) e ∙ q

    answers :
        IsUnloaded c ⊎ IsLoaded c
        → Answers c (if both_set c.evp_sha256 c.pkcs5_pbkdf2_hmac then (true, c) else searched)
    answers (inl u) =
        subst (Answers c) (sym (branch false (ap (λ f. both_set f c.pkcs5_pbkdf2_hmac) u.1) refl))
          (resolve_lem dlsym (open_first dlopen (candidates prefix)) c u)
    answers (inr l) = subst (Answers c) (sym (branch true l.2 refl)) l
