-- ===== src/Contracts/Identity.antt =====
-- sdk/go/contracts/identity.go: the portable identities. A Go string is a `String` here, so it is
-- valid UTF-8, and `utf8.ValidString` is true of it. Each regular expression is read as the scan
-- over code points that it describes.
use Prim.Native.Char.{code}
use Prim.Native.String.{String, len}
use xgc2_orchestration_core.Base.{
  ℕ, zero, suc, List, [], ◌∷◌, Bool, true, false, ◌&&◌, ◌||◌, not, leb, ◌==◌, ◌is◌,
}

-- The code points of a text.
abbrev pub codes : String → List ℕ
codes String.[] = []
codes (String.◌∷◌ c s) = code c ∷ codes s

in_range : ℕ → ℕ → ℕ → Bool
in_range low high c = leb low c && leb c high

is_letter : ℕ → Bool
unfolding in_range
is_letter c = in_range b'a' b'z' c || in_range b'A' b'Z' c

is_digit : ℕ → Bool
unfolding in_range
is_digit c = in_range b'0' b'9' c

-- [A-Za-z0-9._-]
is_identifier_code : ℕ → Bool
unfolding is_letter is_digit
is_identifier_code c = is_letter c || is_digit c || c == b'.' || c == b'_' || c == b'-'

-- [A-Za-z0-9._+-]
is_version_code : ℕ → Bool
unfolding is_identifier_code
is_version_code c = is_identifier_code c || c == b'+'

-- [0-9a-f]
is_hex_code : ℕ → Bool
unfolding is_digit in_range
is_hex_code c = is_digit c || in_range b'a' b'f' c

all_codes : (ℕ → Bool) → List ℕ → Bool
all_codes p [] = true
all_codes p (c ∷ cs) = p c && all_codes p cs

identifier_pattern : List ℕ → Bool
unfolding all_codes is_letter is_identifier_code
identifier_pattern [] = false
identifier_pattern (c ∷ cs) = is_letter c && all_codes is_identifier_code cs

version_pattern : List ℕ → Bool
unfolding all_codes is_letter is_digit is_version_code
version_pattern [] = false
version_pattern (c ∷ cs) = (is_letter c || is_digit c) && all_codes is_version_code cs

-- v[1-9][0-9]*
version_suffix : List ℕ → Bool
unfolding all_codes is_digit in_range
version_suffix (v ∷ c ∷ cs) = v == b'v' && in_range b'1' b'9' c && all_codes is_digit cs
version_suffix _ = false

-- [A-Za-z0-9._-]*/v[1-9][0-9]*, where the first class has no slash.
type_ref_rest : List ℕ → Bool
unfolding is_identifier_code version_suffix
type_ref_rest [] = false
type_ref_rest (c ∷ cs) =
    (c == b'/' && version_suffix cs) || (is_identifier_code c && type_ref_rest cs)

type_ref_pattern : List ℕ → Bool
unfolding is_letter type_ref_rest
type_ref_pattern [] = false
type_ref_pattern (c ∷ cs) = is_letter c && type_ref_rest cs

-- Exactly n lowercase hexadecimal digits.
hex_digits : ℕ → List ℕ → Bool
unfolding is_hex_code
hex_digits zero [] = true
hex_digits zero (c ∷ cs) = false
hex_digits (suc n) [] = false
hex_digits (suc n) (c ∷ cs) = is_hex_code c && hex_digits n cs

-- A prefix, and then what the rest must match.
after_prefix : List ℕ → (List ℕ → Bool) → List ℕ → Bool
after_prefix [] rest cs = rest cs
after_prefix (p ∷ ps) rest [] = false
after_prefix (p ∷ ps) rest (c ∷ cs) = c == p && after_prefix ps rest cs

digest_pattern : List ℕ → Bool
unfolding after_prefix hex_digits
digest_pattern = after_prefix (codes "sha256:") (hex_digits 64)

-- `unicode.IsSpace`.
is_space : ℕ → Bool
unfolding in_range
is_space c =
    in_range 9 13 c
    || c == 32
    || c == 0x85
    || c == 0xA0
    || c == 0x1680
    || in_range 0x2000 0x200a c
    || c == 0x2028
    || c == 0x2029
    || c == 0x202f
    || c == 0x205f
    || c == 0x3000

ends_in_space : List ℕ → Bool
unfolding is_space
ends_in_space [] = false
ends_in_space (c ∷ []) = is_space c
ends_in_space (c ∷ d ∷ cs) = ends_in_space (d ∷ cs)

starts_with_space : List ℕ → Bool
unfolding is_space
starts_with_space [] = false
starts_with_space (c ∷ cs) = is_space c

-- `strings.TrimSpace(value) == value`.
unfoldable pub is_trimmed : String → Bool
unfolding ends_in_space starts_with_space
is_trimmed s = not (starts_with_space (codes s)) && not (ends_in_space (codes s))

unfoldable pub valid_identifier : String → Bool
unfolding identifier_pattern is_trimmed
valid_identifier s =
    not (s is "") && leb (len s) 128 && is_trimmed s && identifier_pattern (codes s)

unfoldable pub valid_version : String → Bool
unfolding version_pattern is_trimmed
valid_version s = not (s is "") && leb (len s) 128 && is_trimmed s && version_pattern (codes s)

unfoldable pub valid_type_ref : String → Bool
unfolding type_ref_pattern
valid_type_ref s = not (s is "") && leb (len s) 160 && type_ref_pattern (codes s)

unfoldable pub valid_digest : String → Bool
unfolding digest_pattern
valid_digest s = digest_pattern (codes s)

unfoldable pub valid_optional_digest : String → Bool
unfolding valid_digest
valid_optional_digest s = s is "" || valid_digest s
