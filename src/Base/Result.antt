-- ===== src/Base/Result.antt =====
-- A function's `(value, error)` pair: one or the other.
use mathlib.Core.Path.{◌≡◌, refl}
use mathlib.Core.Logic.{◌⊎◌, inl, inr}

-- `err failure` stands for a returned error, `ok value` for `value, nil`.
pub data Result {e a} (Failure : Type e) (Value : Type a) : Type (e ⊔ a) where
  err : Failure → Result Failure Value
  ok : Value → Result Failure Value

module _ {e a} {Failure : Type e} {Value : Type a} where
  pub Result-cases :
      (m : Result Failure Value)
      → ((failure : Failure) × (m ≡ err failure)) ⊎ ((value : Value) × (m ≡ ok value))
  Result-cases (err failure) = inl (failure, refl)
  Result-cases (ok value) = inr (value, refl)

  -- `fmt.Errorf("…: %w", err)`
  abbrev pub map_err {f} :
      {Wrapped : Type f} → (Failure → Wrapped) → Result Failure Value → Result Wrapped Value
  map_err wrap (err failure) = err (wrap failure)
  map_err wrap (ok value) = ok value

-- `if err != nil { return …, err }` between a call and what follows it.
infixl 5 ◌>>=◌
abbrev pub ◌>>=◌ {e a b} :
    {Failure : Type e} {Value : Type a} {Next : Type b}
    → Result Failure Value
    → (Value → Result Failure Next)
    → Result Failure Next
err failure >>= next = err failure
ok value >>= next = next value

-- The same behind a call that only returns an error.
infixl 5 ◌>>◌
abbrev pub ◌>>◌ {e b} :
    {Failure : Type e} {Next : Type b}
    → Result Failure (Unit {0})
    → Result Failure Next
    → Result Failure Next
check >> later = check >>= λ _. later

module _ {e a b} {Failure : Type e} {Value : Type a} {Next : Type b} where
  -- When a chain of calls succeeds, its first call does.
  pub >>=-eq-ok :
      (m : Result Failure Value) (next : Value → Result Failure Next) {result : Next}
      → (m >>= next) ≡ ok result
      → (value : Value) × (m ≡ ok value) × (next value ≡ ok result)
  >>=-eq-ok (err failure) next h = cc
  >>=-eq-ok (ok value) next h = (value, refl, h)
