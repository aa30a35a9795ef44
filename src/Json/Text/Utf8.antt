-- ===== src/Json/Text/Utf8.antt =====
-- `append_utf8` against a strict reader of UTF-8 (RFC 3629): no overlong form, no surrogate.
use Prim.Native.Nat.{bit_or}
use developer_dashboard.Common.{
  ℕ, ◌+◌, ◌-◌, ◌*◌, ◌/◌, ◌%◌, ◌≤◌, ◌<◌, ◌≡◌, refl, arith, true, Bool, ◌&&◌, not, [], ◌∷◌, ◌++◌, ◌⊎◌,
  Option, none, some, ltb, leb, ◌==◌, if◌then◌else◌, ==_iff, Bytes, holds_under, holds_under_lem,
}
use developer_dashboard.Json.Text.{within, utf8}

abbrev continuation : ℕ → Bool
continuation = within 0x80 0xbf

-- Unicode scalar values of at least `least`, the smallest that takes so many bytes.
abbrev scalar : ℕ → ℕ → Bytes → Option (ℕ × Bytes)
scalar least cp rest =
    if leb least cp && leb cp 0x10ffff && not (within 0xd800 0xdfff cp)
    then some (cp, rest)
    else none

two : ℕ → Bytes → Option (ℕ × Bytes)
two high (a ∷ rest) = if continuation a then scalar 0x80 (high * 64 + (a - 0x80)) rest else none
two high _ = none

three : ℕ → Bytes → Option (ℕ × Bytes)
three high (a ∷ b ∷ rest) =
    if continuation a && continuation b
    then scalar 0x800 (high * 4096 + (a - 0x80) * 64 + (b - 0x80)) rest
    else none
three high _ = none

four : ℕ → Bytes → Option (ℕ × Bytes)
four high (a ∷ b ∷ c ∷ rest) =
    if continuation a && continuation b && continuation c
    then scalar 0x10000 (high * 262144 + (a - 0x80) * 4096 + (b - 0x80) * 64 + (c - 0x80)) rest
    else none
four high _ = none

pub read_scalar : Bytes → Option (ℕ × Bytes)
unfolding two three four
read_scalar [] = none
read_scalar (b ∷ rest) =
    if ltb b 0x80
    then some (b, rest)
    else if within 0xc0 0xdf b
    then two (b - 0xc0) rest
    else if within 0xe0 0xef b
    then three (b - 0xe0) rest
    else if within 0xf0 0xf7 b
    then four (b - 0xf0) rest
    else none

-- On the bits that each form leaves free `|` is `+`.
module _ (base n : ℕ) (table : holds_under (λ x. bit_or base x == base + x) n ≡ true) where
  or_add : (x : ℕ) → x < n → bit_or base x ≡ base + x
  or_add x h = (==_iff _ _).0 (holds_under_lem _ n x h table)

or_tail : (x : ℕ) → x < 64 → bit_or 0x80 x ≡ 0x80 + x
unfolding holds_under
or_tail = or_add 0x80 64 refl

or_two : (x : ℕ) → x < 32 → bit_or 0xc0 x ≡ 0xc0 + x
unfolding holds_under
or_two = or_add 0xc0 32 refl

or_three : (x : ℕ) → x < 16 → bit_or 0xe0 x ≡ 0xe0 + x
unfolding holds_under
or_three = or_add 0xe0 16 refl

or_four : (x : ℕ) → x < 8 → bit_or 0xf0 x ≡ 0xf0 + x
unfolding holds_under
or_four = or_add 0xf0 8 refl

-- A strict reader takes back every Unicode scalar value that `append_utf8` writes, and stops right
-- behind it.
pub read_scalar-utf8 :
    (cp : ℕ) (rest : Bytes)
    → cp ≤ 0x10ffff
    → (cp < 0xd800) ⊎ (0xdfff < cp)
    → read_scalar (utf8 cp ++ rest) ≡ some (cp, rest)
unfolding read_scalar utf8
read_scalar-utf8 cp rest top h = ground (
  arith,
  or_tail (cp % 64),
  or_tail (cp / 64 % 64),
  or_tail (cp / 4096 % 64),
  or_two (cp / 64),
  or_three (cp / 4096),
  or_four (cp / 262144),
)
