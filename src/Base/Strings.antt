-- ===== src/Base/Strings.antt =====
-- The functions of Go's `strings` and `encoding/hex` packages that the program calls.
use Prim.Native.Nat.{ℕ, ◌+◌, ◌-◌, ◌/◌, ◌%◌, ◌≤◌, ◌<◌}
use mathlib.Core.Path.{◌≡◌, refl}
use mathlib.Core.Logic.{◌⊎◌}
use mathlib.Core.Bool.{Bool, true, false, ◌&&◌, ◌||◌}
use mathlib.Core.List.{List, [], ◌∷◌}
use native.Mathlib.Omega.{arith}
use mx_chain_notifier_go.Base.Tests.{◌==◌, ltb, if◌then◌else◌}
use mx_chain_notifier_go.Base.Lists.{All}
use mx_chain_notifier_go.Base.Text.{GoString, Bytes}

unfoldable pub has_prefix : GoString → GoString → Bool
has_prefix s [] = true
has_prefix [] (b ∷ t) = false
has_prefix (a ∷ s) (b ∷ t) = a == b && has_prefix s t

-- strings.Contains(s, t)
unfoldable pub contains : GoString → GoString → Bool
unfolding has_prefix
contains [] t = has_prefix [] t
contains (a ∷ s) t = has_prefix (a ∷ s) t || contains s t

-- strings.Split(s, sep) for a separator of one byte: the first part, and the others.
unfoldable pub split : ℕ → GoString → GoString × List GoString
split sep [] = ([], [])
split sep (c ∷ s) =
    let (part, parts) = split sep s in if c == sep then ([], part ∷ parts) else (c ∷ part, parts)

-- The last of the parts.
abbrev pub last_part : GoString → List GoString → GoString
last_part part [] = part
last_part part (next ∷ parts) = last_part next parts

hex_digit : ℕ → ℕ
hex_digit d = if ltb d 10 then d + b'0' else d - 10 + b'a'

-- hex.EncodeToString
unfoldable pub encode_to_string : Bytes → GoString
unfolding hex_digit
encode_to_string [] = []
encode_to_string (b ∷ bs) = hex_digit (b / 16) ∷ hex_digit (b % 16) ∷ encode_to_string bs

abbrev pub IsByte : ℕ → Type 0
IsByte b = b < 256

-- A lower-case hexadecimal digit.
abbrev pub IsHexDigit : ℕ → Type 0
IsHexDigit c = ((b'0' ≤ c) × (c ≤ b'9')) ⊎ ((b'a' ≤ c) × (c ≤ b'f'))

hex_digit-injective : (d d' : ℕ) → d < 16 → d' < 16 → hex_digit d ≡ hex_digit d' → d ≡ d'
unfolding hex_digit
hex_digit-injective d d' h h' e = ground arith

hex_digit-IsHexDigit : (d : ℕ) → d < 16 → IsHexDigit (hex_digit d)
unfolding hex_digit
hex_digit-IsHexDigit d h = ground arith

byte_of_digits : (b c : ℕ) → IsByte b → IsByte c → b / 16 ≡ c / 16 → b % 16 ≡ c % 16 → b ≡ c
byte_of_digits b c h h' p q = omega arith

-- Different byte slices have different encodings.
pub encode_to_string-injective :
    (bs cs : Bytes)
    → All IsByte bs
    → All IsByte cs
    → encode_to_string bs ≡ encode_to_string cs
    → bs ≡ cs
unfolding encode_to_string
encode_to_string-injective [] [] h k e = refl
encode_to_string-injective [] (c ∷ cs) h k e = cc
encode_to_string-injective (b ∷ bs) [] h k e = cc
encode_to_string-injective (b ∷ bs) (c ∷ cs) h k e = ground (
  arith,
  hex_digit-injective (b / 16) (c / 16) (omega arith) (omega arith),
  hex_digit-injective (b % 16) (c % 16) (omega arith) (omega arith),
  byte_of_digits b c h.0 k.0,
  encode_to_string-injective bs cs h.1 k.1,
)

pub encode_to_string-IsHexDigit :
    (bs : Bytes) → All IsByte bs → All IsHexDigit (encode_to_string bs)
unfolding encode_to_string
encode_to_string-IsHexDigit [] h = tt
encode_to_string-IsHexDigit (b ∷ bs) h =
    let rest = encode_to_string-IsHexDigit bs h.1 in
    (
      hex_digit-IsHexDigit (b / 16) (omega arith),
      (hex_digit-IsHexDigit (b % 16) (omega arith), rest),
    )
