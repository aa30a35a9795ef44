-- ===== src/Tests/Crypto.antt =====
-- A machine with libcrypto.so.1.1 only.
use developer_dashboard.Common.{
  ℕ, ◌+◌, ◌≡◌, inl, refl, true, Option, none, some, Bytes, codes, equal, if◌then◌else◌,
}
use developer_dashboard.Crypto.{Crypto, open_first, resolve, load_crypto}
use developer_dashboard.Crypto.Laws.{IsLoaded, Answers, load_crypto-Answers}

abbrev nothing_loaded : Crypto
nothing_loaded = record {
  handle = none;
  evp_sha256 = none;
  pkcs5_pbkdf2_hmac = none;
  open_handles = 0;
}

opens : Bytes → Option ℕ
unfolding equal
opens name = if equal name (codes "libcrypto.so.1.1") then some 7 else none

abbrev has_all : ℕ → Bytes → Option ℕ
has_all h name = some (h + 100)

loads : load_crypto opens has_all none nothing_loaded ≡ (
  true,
  record { handle = some 7; evp_sha256 = some 107; pkcs5_pbkdf2_hmac = some 107; open_handles = 1 },
)
unfolding load_crypto open_first resolve opens
loads = refl

load_crypto-Answers_example :
    Answers nothing_loaded (load_crypto opens has_all (some (codes "/opt")) nothing_loaded)
    × (IsLoaded nothing_loaded
        → load_crypto opens has_all (some (codes "/opt")) nothing_loaded ≡ (true, nothing_loaded))
load_crypto-Answers_example =
    load_crypto-Answers opens has_all (some (codes "/opt")) nothing_loaded
      (inl (refl, refl, refl, refl))
