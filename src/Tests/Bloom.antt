-- ===== src/Tests/Bloom.antt =====
-- A Bloom filter of ten bits and seven hashes.
use mx_chain_notifier_go.Base.{ℕ, ◌≡◌, refl, [], ◌∷◌, Bytes, codes, true, All, arith}
use mx_chain_notifier_go.Errors.{ok}
use mx_chain_notifier_go.Filters.Bloom.{
  Bloom, fnv_64a, fnv_from, fnv_byte, xor_bits, new_bloom, set_many, is_in_set,
}
use mx_chain_notifier_go.Filters.Bloom.NoFalseNegatives.{IsValid, set_many-is_in_set}

fnv_of_a : fnv_64a (codes "a") ≡ 12638187200555641996
unfolding fnv_64a fnv_from fnv_byte xor_bits
fnv_of_a = refl

abbrev murmur : Bytes → ℕ
murmur bytes = 18446744073709551000

abbrev ten_bits : Bloom
ten_bits = new_bloom (λ n. (10, 7)) 0

ten_bits-IsValid : IsValid ten_bits
unfolding new_bloom
ten_bits-IsValid = record { not_empty = omega arith; sized = refl }

set_many-is_in_set_example :
    (bloom : Bloom) × (set_many murmur (codes "ab" ∷ codes "cd" ∷ []) ten_bits ≡ ok bloom)
    × IsValid bloom
    × All (λ item. is_in_set murmur item bloom ≡ ok true) (codes "ab" ∷ codes "cd" ∷ [])
    × ((item : Bytes)
        → is_in_set murmur item ten_bits ≡ ok true
        → is_in_set murmur item bloom ≡ ok true)
set_many-is_in_set_example =
    set_many-is_in_set murmur (codes "ab" ∷ codes "cd" ∷ []) ten_bits ten_bits-IsValid
