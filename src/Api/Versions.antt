-- ===== src/Api/Versions.antt =====
-- api/groups/eventsGroup.go and integrationTests/testWebServer.go: the version header, printed by a
-- client and parsed by `getPayloadVersion`.
use mx_chain_notifier_go.Base.{
  ℕ, zero, suc, ◌+◌, ◌-◌, ◌*◌, ◌/◌, ◌%◌, ◌<◌, ◌≡◌, ◌≢◌, refl, ◌∙◌, [], ◌∷◌, ◌++◌, true, false,
  Option, none, some, GoString, ltb, ◌==◌, if◌then◌else◌, All, All-append, arith, Bool-cases, inl,
  inr,
}
use mx_chain_notifier_go.Api.{is_digit, digits_value, magnitude, atoi, get_payload_version}

-- The decimal digits of a number, with as much fuel as it has digits.
unfoldable pub digits_of : ℕ → ℕ → GoString
digits_of zero n = []
digits_of (suc fuel) n =
    let rest = digits_of fuel (n / 10) in
    if ltb n 10 then (48 + n) ∷ [] else rest ++ (48 + n % 10) ∷ []

-- `fmt.Sprint` of a uint32, which has at most ten digits.
unfoldable pub sprint_version : ℕ → GoString
unfolding digits_of
sprint_version version = digits_of 10 version

-- One more digit behind those that were read.
abbrev then_digit : Option ℕ → ℕ → Option ℕ
then_digit none c = none
then_digit (some n) c = if is_digit c then some (10 * n + (c - 48)) else none

digits_value-append :
    (n : ℕ) (s : GoString) (c : ℕ) → digits_value n (s ++ c ∷ []) ≡ then_digit (digits_value n s) c
unfolding digits_value
digits_value-append n [] c = refl
digits_value-append n (d ∷ s) c = ground (arith, digits_value-append (10 * n + (d - 48)) s c)

abbrev ten_to : ℕ → ℕ
ten_to zero = 1
ten_to (suc fuel) = 10 * ten_to fuel

digits_of-value :
    (fuel n : ℕ) → n < ten_to fuel → 0 < fuel → digits_value 0 (digits_of fuel n) ≡ some n
unfolding digits_of digits_value
digits_of-value zero n h k = absurd (omega arith)
digits_of-value (suc zero) n h k = ground (arith, h)
digits_of-value (suc (suc fuel)) n h k = elim (Bool-cases (ltb n 10)) [
  | inl small ↦ ground (arith, small)
  | inr large ↦
      let rest : digits_value 0 (digits_of (suc fuel) (n / 10)) ≡ some (n / 10) =
        digits_of-value (suc fuel) (n / 10) (omega arith) (omega arith) in
      rw large (
        digits_value-append 0 (digits_of (suc fuel) (n / 10)) (48 + n % 10)
        ∙ rw rest (ground arith))
]

digits_of-digits : (fuel n : ℕ) → All (λ c. is_digit c ≡ true) (digits_of fuel n)
unfolding digits_of
digits_of-digits zero n = tt
digits_of-digits (suc fuel) n = elim (Bool-cases (ltb n 10)) [
  | inl small ↦ rw small (ground (arith, small), tt)
  | inr large ↦ rw large (
      All-append (λ c. is_digit c ≡ true) (digits_of fuel (n / 10)) ((48 + n % 10) ∷ [])
        (digits_of-digits fuel (n / 10)) (ground arith, tt))
]

digits_of-some : (fuel n : ℕ) → 0 < fuel → digits_of fuel n ≢ []
unfolding digits_of
digits_of-some zero n k = absurd (omega arith)
digits_of-some (suc fuel) n k = elim (Bool-cases (ltb n 10)) [
  | inl small ↦ rw small (λ e. cc)
  | inr large ↦ rw large (append-some (digits_of fuel (n / 10)) (48 + n % 10))
]
  where
    append-some : (s : GoString) (c : ℕ) → s ++ c ∷ [] ≢ []
    append-some [] c e = cc
    append-some (d ∷ s) c e = cc

-- A run of digits has no sign, so Atoi gives its value, if that is below 2^63.
atoi-digits :
    (s : GoString) {n : ℕ}
    → All (λ c. is_digit c ≡ true) s
    → s ≢ []
    → digits_value 0 s ≡ some n
    → n < 9223372036854775808
    → atoi s ≡ some n
unfolding atoi magnitude
atoi-digits [] h some_digits value l = absurd (some_digits refl)
atoi-digits (c ∷ s) {n} h some_digits value l =
    let minus : (c == 45) ≡ false = ground (arith, h.0) in
    let plus : (c == 43) ≡ false = ground (arith, h.0) in
    let fits : ltb n 9223372036854775808 ≡ true = ground (arith, l) in
    rw (minus, plus, magnitude, value, fits) refl

atoi-version : (s : GoString) {n : ℕ} → atoi s ≡ some n → n < 4294967296 → get_payload_version s ≡ n
unfolding get_payload_version
atoi-version s h l = rw (get_payload_version, h) (omega (arith, l))

-- The version that a client prints into its header is the one that the endpoints read, for every
-- uint32.
pub get_payload_version-sprint_version :
    (version : ℕ) → version < 4294967296 → get_payload_version (sprint_version version) ≡ version
unfolding sprint_version
get_payload_version-sprint_version version h =
    atoi-version (digits_of 10 version)
      (atoi-digits (digits_of 10 version) (digits_of-digits 10 version)
        (digits_of-some 10 version (omega arith))
        (digits_of-value 10 version (omega (arith, h)) (omega arith)) (omega (arith, h)))
      h
