-- ===== src/Filters/Bloom/Bits.antt =====
-- filters/bloom.go: the bitset, which only grows.
use mx_chain_notifier_go.Base.{
  ℕ, zero, suc, ◌<◌, ◌≡◌, refl, ◌∙◌, List, [], ◌∷◌, Bool, true, length, arith,
}
use mx_chain_notifier_go.Errors.{ok}
use mx_chain_notifier_go.Filters.Bloom.{bit_at, set_bit}

pub ok_injective : {A : Type 0} {a b : A} → ok a ≡ ok b → a ≡ b
ok_injective h = cc

-- The bits that are set in one bitset are set in another of the same length.
pub record Grows (bs bs' : List Bool) : Type 0 where
  pub same_length : length bs' ≡ length bs
  pub kept : (pos : ℕ) → bit_at pos bs ≡ ok true → bit_at pos bs' ≡ ok true

pub Grows-refl : (bs : List Bool) → Grows bs bs
Grows-refl bs = record { same_length = refl; kept = λ pos h. h }

pub Grows-trans : {bs bs' bs'' : List Bool} → Grows bs bs' → Grows bs' bs'' → Grows bs bs''
Grows-trans g g' = record {
  same_length = g'.same_length ∙ g.same_length;
  kept = λ pos h. g'.kept pos (g.kept pos h);
}

pub set_bit-Grows :
    (pos : ℕ) (bs : List Bool)
    → pos < length bs
    → (bs' : List Bool) × (set_bit pos bs ≡ ok bs') × Grows bs bs' × (bit_at pos bs' ≡ ok true)
unfolding set_bit bit_at
set_bit-Grows pos [] h = absurd (omega arith)
set_bit-Grows zero (b ∷ bs) h = (true ∷ bs, refl, record { same_length = refl; kept = kept }, refl)
  where
    kept : (pos : ℕ) → bit_at pos (b ∷ bs) ≡ ok true → bit_at pos (true ∷ bs) ≡ ok true
    kept zero k = unfold bit_at in refl
    kept (suc pos) k = unfold bit_at in k
set_bit-Grows (suc pos) (b ∷ bs) h =
    let (bs', found, grows, here) = set_bit-Grows pos bs (omega arith) in
    (
      b ∷ bs',
      rw found refl,
      record { same_length = omega (arith, grows.same_length); kept = kept bs' grows.kept },
      here,
    )
  where
    kept :
        (bs' : List Bool)
        → ((i : ℕ) → bit_at i bs ≡ ok true → bit_at i bs' ≡ ok true)
        → (i : ℕ) → bit_at i (b ∷ bs) ≡ ok true
        → bit_at i (b ∷ bs') ≡ ok true
    kept bs' rest zero k = unfold bit_at in k
    kept bs' rest (suc i) k = unfold bit_at in rest i k
