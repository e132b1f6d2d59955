-- ===== src/Filters/Bloom/NoFalseNegatives.antt =====
-- filters/bloom.go: no access is out of range, and what was set is found.
use mx_chain_notifier_go.Base.{
  ℕ, zero, suc, ◌+◌, ◌*◌, ◌%◌, ◌<◌, ◌≤◌, ◌≡◌, refl, sym, ◌∙◌, subst, List, [], ◌∷◌, true, false,
  Bytes, ◌==◌, length, All, arith, Bool-cases, ==_iff, inl, inr,
}
use mx_chain_notifier_go.Errors.{ok, bind_ok}
use mx_chain_notifier_go.Filters.Bloom.{
  Bloom, bit_at, double_hash, set_rounds, set_item, set_many, in_rounds, is_in_set, fnv_64a,
}
use mx_chain_notifier_go.Filters.Bloom.Bits.{
  ok_injective, Grows, Grows-refl, Grows-trans, set_bit-Grows,
}

-- The bitset has the length that the positions are taken by, and is not empty.
pub record IsValid (bloom : Bloom) : Type 0 where
  pub not_empty : 0 < bloom.m
  pub sized : length bloom.bitset ≡ bloom.m

module _ (murmur_64 : Bytes → ℕ) where
  position : ℕ → Bytes → ℕ → ℕ
  position m bytes i =
      ((((fnv_64a bytes + i * murmur_64 bytes) % 18446744073709551616) + i * i)
        % 18446744073709551616)
      % m

  double_hash-position :
      (bloom : Bloom) (bytes : Bytes) (i : ℕ)
      → 0 < bloom.m
      → (double_hash murmur_64 bloom bytes i ≡ ok (position bloom.m bytes i))
        × (position bloom.m bytes i < bloom.m)
  unfolding double_hash position
  double_hash-position bloom bytes i h =
      let some_bits : (bloom.m == 0) ≡ false = ground arith in (rw some_bits refl, omega (arith, h))

  -- All bits of an item are set, in the rounds from one number on.
  abbrev IsMarked : ℕ → ℕ → Bytes → Bloom → Type 0
  IsMarked left i bytes bloom =
      (j : ℕ) → i ≤ j → j < i + left → bit_at (position bloom.m bytes j) bloom.bitset ≡ ok true

  record Marked (left i : ℕ) (bytes : Bytes) (bloom bloom' : Bloom) : Type 0 where
    same_m : bloom'.m ≡ bloom.m
    same_k : bloom'.k ≡ bloom.k
    grows : Grows bloom.bitset bloom'.bitset
    marked : IsMarked left i bytes bloom'

  set_rounds-Marked :
      (left i : ℕ) (bytes : Bytes) (bloom : Bloom)
      → IsValid bloom
      → (bloom' : Bloom) × (set_rounds murmur_64 left i bytes bloom ≡ ok bloom')
        × Marked left i bytes bloom bloom'
  unfolding set_rounds
  set_rounds-Marked zero i bytes bloom v = (
    bloom,
    refl,
    record {
      same_m = refl;
      same_k = refl;
      grows = Grows-refl bloom.bitset;
      marked = λ j low high. absurd (omega (arith, low, high));
    },
  )
  set_rounds-Marked (suc left) i bytes bloom v =
      let (hashed, below) = double_hash-position bloom bytes i v.not_empty in
      let pos = position bloom.m bytes i in
      let (bs, set, grows, here) = set_bit-Grows pos bloom.bitset (omega (arith, below, v.sized)) in
      let next : Bloom = record bloom { bitset = bs } in
      let (bloom', found, rest) =
        set_rounds-Marked left (suc i) bytes next
          (record { not_empty = v.not_empty; sized = grows.same_length ∙ v.sized }) in
      let first : bit_at (position bloom'.m bytes i) bloom'.bitset ≡ ok true =
        subst (λ m. bit_at (position m bytes i) bloom'.bitset ≡ ok true) (sym rest.same_m)
          (rest.grows.kept pos here) in
      (
        bloom',
        rw (hashed, set) found,
        record {
          same_m = rest.same_m;
          same_k = rest.same_k;
          grows = Grows-trans grows rest.grows;
          marked = λ j low high. elim (Bool-cases (i == j)) [
            | inl same ↦
                subst (λ l. bit_at (position bloom'.m bytes l) bloom'.bitset ≡ ok true)
                  ((==_iff i j).0 same) first
            | inr later ↦ rest.marked j (ground (arith, low, later)) (omega (arith, high))
          ];
        },
      )

  in_rounds-IsMarked :
      (left i : ℕ) (bytes : Bytes) (bloom : Bloom)
      → 0 < bloom.m
      → IsMarked left i bytes bloom
      → in_rounds murmur_64 left i bytes bloom ≡ ok true
  unfolding in_rounds
  in_rounds-IsMarked zero i bytes bloom h marked = refl
  in_rounds-IsMarked (suc left) i bytes bloom h marked =
      rw ((double_hash-position bloom bytes i h).0, marked i (omega arith) (omega arith))
        (in_rounds-IsMarked left (suc i) bytes bloom h
          (λ j low high. marked j (omega (arith, low)) (omega (arith, high))))

  -- What a filter that has the item answers, the other way round.
  in_rounds_sound :
      (left i : ℕ) (bytes : Bytes) (bloom : Bloom)
      → 0 < bloom.m
      → in_rounds murmur_64 left i bytes bloom ≡ ok true
      → IsMarked left i bytes bloom
  unfolding in_rounds
  in_rounds_sound zero i bytes bloom h found j low high = absurd (omega (arith, low, high))
  in_rounds_sound (suc left) i bytes bloom h found j low high =
      let (hashed, below) = double_hash-position bloom bytes i h in
      let (pos, is_pos, found') = bind_ok (double_hash murmur_64 bloom bytes i) _ found in
      let (bit, is_bit, found'') = bind_ok (bit_at pos bloom.bitset) _ found' in
      let here : position bloom.m bytes i ≡ pos = ok_injective (sym hashed ∙ is_pos) in
      elim (Bool-cases bit) [
        | inr clear ↦ absurd (ground (arith, clear, found''))
        | inl marked ↦
            let first : bit_at (position bloom.m bytes i) bloom.bitset ≡ ok true =
              rw (here, is_bit, marked) refl in
            elim (Bool-cases (i == j)) [
              | inl same ↦
                  subst (λ l. bit_at (position bloom.m bytes l) bloom.bitset ≡ ok true)
                    ((==_iff i j).0 same) first
              | inr later ↦
                  in_rounds_sound left (suc i) bytes bloom h (ground (arith, marked, found'')) j
                    (ground (arith, low, later)) (omega (arith, high))
            ]
      ]

  is_in_set-kept :
      (item : Bytes) (bloom bloom' : Bloom)
      → 0 < bloom.m
      → bloom'.m ≡ bloom.m
      → bloom'.k ≡ bloom.k
      → Grows bloom.bitset bloom'.bitset
      → is_in_set murmur_64 item bloom ≡ ok true
      → is_in_set murmur_64 item bloom' ≡ ok true
  unfolding is_in_set
  is_in_set-kept item bloom bloom' h same_m same_k grows found =
      let marked = in_rounds_sound bloom.k 0 item bloom h found in
      in_rounds-IsMarked bloom'.k 0 item bloom' (subst (λ m. 0 < m) (sym same_m) h) (λ j low high.
        subst (λ m. bit_at (position m item j) bloom'.bitset ≡ ok true) (sym same_m)
          (grows.kept (position bloom.m item j) (marked j low (omega (arith, high, same_k)))))

  -- Setting any items in a filter with at least one bit, and as many as it takes positions modulo,
  -- never panics and leaves such a filter; each of the items is in the set from then on, and so is
  -- every item that was in it before.
  pub set_many-is_in_set :
      (items : List Bytes) (bloom : Bloom)
      → IsValid bloom
      → (bloom' : Bloom) × (set_many murmur_64 items bloom ≡ ok bloom')
        × IsValid bloom'
        × All (λ item. is_in_set murmur_64 item bloom' ≡ ok true) items
        × ((item : Bytes)
            → is_in_set murmur_64 item bloom ≡ ok true
            → is_in_set murmur_64 item bloom' ≡ ok true)
  unfolding set_many set_item
  set_many-is_in_set [] bloom v = (bloom, refl, v, tt, λ item h. h)
  set_many-is_in_set (item ∷ items) bloom v =
      let (bloom1, found, m1) = set_rounds-Marked bloom.k 0 item bloom v in
      let v1 : IsValid bloom1 = record {
        not_empty = subst (λ m. 0 < m) (sym m1.same_m) v.not_empty;
        sized = m1.grows.same_length ∙ v.sized ∙ sym m1.same_m;
      } in
      let (bloom', found', v', all, kept) = set_many-is_in_set items bloom1 v1 in
      let first : is_in_set murmur_64 item bloom1 ≡ ok true =
        unfold is_in_set in
        in_rounds-IsMarked bloom1.k 0 item bloom1 v1.not_empty
          (λ j low high. m1.marked j low (omega (arith, high, m1.same_k))) in
      (
        bloom',
        rw found found',
        v',
        (kept item first, all),
        λ other h.
            kept other
              (is_in_set-kept other bloom bloom1 v.not_empty m1.same_m m1.same_k m1.grows h),
      )
