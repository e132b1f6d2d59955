-- ===== src/Filters/Bloom.antt =====
-- filters/bloom.go: a Bloom filter with double hashing.
--
-- The FNV-1a hash is written out; the murmur3 hash of a third-party package is a parameter. A write to a
-- hash never returns an error. `math.Pow(float64(i), 2)` is exact for the i below the number of hashes.
pub mod Bits
pub mod NoFalseNegatives
use mx_chain_notifier_go.Base.{
  ℕ, zero, suc, ◌+◌, ◌-◌, ◌*◌, ◌/◌, ◌%◌, List, [], ◌∷◌, Bool, true, false, Option, none, some,
  Bytes, ◌==◌, if◌then◌else◌, replicate,
}
use mx_chain_notifier_go.Errors.{Result, ok, err, panicked, ◌>>=◌}

-- Exclusive or of the lowest bits of two numbers.
unfoldable pub xor_bits : ℕ → ℕ → ℕ → ℕ
xor_bits zero a b = 0
xor_bits (suc bits) a b = (a + b) % 2 + 2 * xor_bits bits (a / 2) (b / 2)

-- One byte of FNV-1a: the byte changes the lowest 8 bits, before the multiplication by the prime.
unfoldable pub fnv_byte : ℕ → ℕ → ℕ
unfolding xor_bits
fnv_byte h b = (((h - h % 256) + xor_bits 8 (h % 256) b) * 1099511628211) % 18446744073709551616

unfoldable pub fnv_from : ℕ → Bytes → ℕ
unfolding fnv_byte
fnv_from h [] = h
fnv_from h (b ∷ bs) = fnv_from (fnv_byte h b) bs

-- `fnv.New64a`, written to and summed.
unfoldable pub fnv_64a : Bytes → ℕ
unfolding fnv_from
fnv_64a = fnv_from 14695981039346656037

pub record Bloom : Type 0 where
  pub m : ℕ
  pub n : ℕ
  pub k : ℕ
  pub bitset : List Bool

-- `NewBloom`, with `estimateParams`, which computes on floating point numbers, for a parameter.
unfoldable pub new_bloom : (ℕ → ℕ × ℕ) → ℕ → Bloom
new_bloom estimate_params n =
    let n' = if n == 0 then 1 else n in
    let (m, k) = estimate_params n' in record { m = m; n = n'; k = k; bitset = replicate m false }

-- `bitset[pos]` and `bitset[pos] = true`; out of range they panic.
unfoldable pub bit_at : ℕ → List Bool → Result Bool
bit_at pos [] = panicked
bit_at zero (b ∷ bs) = ok b
bit_at (suc pos) (b ∷ bs) = bit_at pos bs

unfoldable pub set_bit : ℕ → List Bool → Result (List Bool)
set_bit pos [] = panicked
set_bit zero (b ∷ bs) = ok (true ∷ bs)
set_bit (suc pos) (b ∷ bs) = set_bit pos bs >>= λ rest. ok (b ∷ rest)

module _ (murmur_64 : Bytes → ℕ) where
  -- `doubleHash`, modulo 2^64 in each operation; a division by zero panics.
  unfoldable pub double_hash : Bloom → Bytes → ℕ → Result ℕ
  unfolding fnv_64a
  double_hash bloom bytes i =
      let h_sum = (fnv_64a bytes + i * murmur_64 bytes) % 18446744073709551616 in
      let g = (h_sum + i * i) % 18446744073709551616 in
      if bloom.m == 0 then panicked else ok (g % bloom.m)

  -- The loop of `Set`, with how many rounds are left and the number of the next one.
  unfoldable pub set_rounds : ℕ → ℕ → Bytes → Bloom → Result Bloom
  unfolding double_hash set_bit
  set_rounds zero i bytes bloom = ok bloom
  set_rounds (suc left) i bytes bloom = do
    pos ← double_hash bloom bytes i
    bitset ← set_bit pos bloom.bitset
    set_rounds left (suc i) bytes (record bloom { bitset = bitset })

  -- `Set`
  unfoldable pub set_item : Bytes → Bloom → Result Bloom
  unfolding set_rounds
  set_item bytes bloom = set_rounds bloom.k 0 bytes bloom

  -- `SetMany`
  unfoldable pub set_many : List Bytes → Bloom → Result Bloom
  unfolding set_item
  set_many [] bloom = ok bloom
  set_many (item ∷ items) bloom = do bloom' ← set_item item bloom; set_many items bloom'

  -- The loop of `IsInSet`.
  unfoldable pub in_rounds : ℕ → ℕ → Bytes → Bloom → Result Bool
  unfolding double_hash bit_at
  in_rounds zero i bytes bloom = ok true
  in_rounds (suc left) i bytes bloom = do
    pos ← double_hash bloom bytes i
    is_set ← bit_at pos bloom.bitset
    let rest = in_rounds left (suc i) bytes bloom in if is_set then rest else ok false

  -- `IsInSet`
  unfoldable pub is_in_set : Bytes → Bloom → Result Bool
  unfolding in_rounds
  is_in_set bytes bloom = in_rounds bloom.k 0 bytes bloom
