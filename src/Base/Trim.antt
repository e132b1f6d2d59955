-- ===== src/Base/Trim.antt =====
-- bytes.Replace for single bytes, and bytes.TrimSpace.
use Prim.Native.Nat.{ℕ, zero, suc}
use mathlib.Core.List.{List, [], ◌∷◌, map, reverse}
use mathlib.Core.Option.{Option, none, some}
use mx_chain_notifier_go.Base.Tests.{◌==◌, if◌then◌else◌}
use mx_chain_notifier_go.Base.Lists.{length}
use mx_chain_notifier_go.Base.Text.{Bytes}

unfoldable pub replace_byte : ℕ → ℕ → Bytes → Bytes
replace_byte old new [] = []
replace_byte old new (b ∷ bs) = (if b == old then new else b) ∷ replace_byte old new bs

-- The UTF-8 encodings of the white space of Unicode.
abbrev spaces : List Bytes
spaces =
    (9 ∷ [])
    ∷ (10 ∷ [])
    ∷ (11 ∷ [])
    ∷ (12 ∷ [])
    ∷ (13 ∷ [])
    ∷ (32 ∷ [])
    ∷ (194 ∷ 133 ∷ [])
    ∷ (194 ∷ 160 ∷ [])
    ∷ (225 ∷ 154 ∷ 128 ∷ [])
    ∷ (226 ∷ 128 ∷ 128 ∷ [])
    ∷ (226 ∷ 128 ∷ 129 ∷ [])
    ∷ (226 ∷ 128 ∷ 130 ∷ [])
    ∷ (226 ∷ 128 ∷ 131 ∷ [])
    ∷ (226 ∷ 128 ∷ 132 ∷ [])
    ∷ (226 ∷ 128 ∷ 133 ∷ [])
    ∷ (226 ∷ 128 ∷ 134 ∷ [])
    ∷ (226 ∷ 128 ∷ 135 ∷ [])
    ∷ (226 ∷ 128 ∷ 136 ∷ [])
    ∷ (226 ∷ 128 ∷ 137 ∷ [])
    ∷ (226 ∷ 128 ∷ 138 ∷ [])
    ∷ (226 ∷ 128 ∷ 168 ∷ [])
    ∷ (226 ∷ 128 ∷ 169 ∷ [])
    ∷ (226 ∷ 128 ∷ 175 ∷ [])
    ∷ (226 ∷ 129 ∷ 159 ∷ [])
    ∷ (227 ∷ 128 ∷ 128 ∷ [])
    ∷ []

-- What is behind a prefix.
unfoldable pub after_prefix : Bytes → Bytes → Option Bytes
after_prefix [] bs = some bs
after_prefix (p ∷ ps) [] = none
after_prefix (p ∷ ps) (b ∷ bs) = let rest = after_prefix ps bs in if p == b then rest else none

-- What is behind the first of some prefixes that fits.
unfoldable pub after_any : List Bytes → Bytes → Option Bytes
unfolding after_prefix
after_any [] bs = none
after_any (p ∷ ps) bs =
    let rest = after_any ps bs in elim (after_prefix p bs) [ none ↦ rest | some found ↦ some found ]

-- Every prefix that fits is dropped; each has a byte, so the number of bytes is enough fuel.
unfoldable pub trim_prefixes : ℕ → List Bytes → Bytes → Bytes
unfolding after_any
trim_prefixes zero ps bs = bs
trim_prefixes (suc fuel) ps bs = elim (after_any ps bs) [
  | none ↦ bs
  | some rest ↦ trim_prefixes fuel ps rest
]

-- bytes.TrimSpace: a rune of white space is trimmed from the end where its bytes stand there.
unfoldable pub trim_space : Bytes → Bytes
unfolding trim_prefixes
trim_space bs =
    let left = trim_prefixes (length bs) spaces bs in
    reverse (trim_prefixes (length left) (map reverse spaces) (reverse left))
