-- ===== src/Notifier/Setup.antt =====
-- A chain of calls that work on a state and return at the first error, and what holds after it.
use mx_chain_notifier_go.Errors.{Result, ok, err, panicked}

abbrev pub Action : Type 0 → Type 0 → Type 0
Action S X = S → Result X × S

abbrev pub continue_with : {S X Y : Type 0} → Result X × S → (X → Action S Y) → Result Y × S
continue_with (ok x, s) next = next x s
continue_with (err e, s) next = (err e, s)
continue_with (panicked, s) next = (panicked, s)

infixl 5 ◌>>=◌
unfoldable pub ◌>>=◌ : {S X Y : Type 0} → Action S X → (X → Action S Y) → Action S Y
(first >>= next) s = continue_with (first s) next

-- A call that does not touch the state.
unfoldable pub lift : {S X : Type 0} → Result X → Action S X
lift r s = (r, s)

-- What holds of the value and the state after a success, and of the state after an error or a panic.
unfoldable pub After : {S X : Type 0} → (X → S → Type 0) → (S → Type 0) → Result X × S → Type 0
After good bad (ok x, s) = good x s
After good bad (err e, s) = bad s
After good bad (panicked, s) = bad s

module _ {S X : Type 0} (bad : S → Type 0) (good : X → S → Type 0) where
  continue_with-After :
      {Y : Type 0} (good' : Y → S → Type 0) (r : Result X × S) (next : X → Action S Y)
      → After good bad r
      → ((x : X) (s : S) → good x s → After good' bad (next x s))
      → After good' bad (continue_with r next)
  unfolding After
  continue_with-After good' (ok x, s) next h k = k x s h
  continue_with-After good' (err e, s) next h k = h
  continue_with-After good' (panicked, s) next h k = h

  -- A chain, by what holds between its two parts.
  pub bind-After :
      {Y : Type 0} (good' : Y → S → Type 0) (first : Action S X) (next : X → Action S Y) (s : S)
      → After good bad (first s)
      → ((x : X) (s' : S) → good x s' → After good' bad (next x s'))
      → After good' bad ((first >>= next) s)
  unfolding ◌>>=◌
  bind-After good' first next s h k = continue_with-After good' (first s) next h k

-- What holds of a state holds of it after any result.
pub same_state :
    {S X : Type 0} (p : S → Type 0) (x : Result X) (s : S) → p s → After (λ y. p) p (x, s)
unfolding After
same_state p (ok y) s h = h
same_state p (err e) s h = h
same_state p panicked s h = h
