-- ===== src/Base/Seq.antt =====
-- Lists that are read and written by position, and their sums.
use Prim.Native.Nat.{ℕ, zero, suc, ◌+◌, ◌<◌, ◌≤◌}
use mathlib.Core.Path.{◌≡◌, refl, subst, ap}
use mathlib.Core.Logic.{◌≢◌, inl, inr}
use mathlib.Core.Bool.{Bool, true, false}
use mathlib.Core.Option.{Option, none, some}
use mathlib.Core.List.{List, [], ◌∷◌}
use native.Mathlib.Omega.{arith}
use ocis_cli.Base.Tests.{if◌then◌else◌, Bool-cases}
use ocis_cli.Base.Lists.{length, count_if, All}

module _ {ℓ} {A : Type ℓ} where
  unfoldable pub get_elem? : List A → ℕ → Option A
  get_elem? [] i = none
  get_elem? (x ∷ xs) zero = some x
  get_elem? (x ∷ xs) (suc i) = get_elem? xs i

  unfoldable pub set : List A → ℕ → A → List A
  set [] i y = []
  set (x ∷ xs) zero y = y ∷ xs
  set (x ∷ xs) (suc i) y = x ∷ set xs i y

  -- A list of the same value.
  unfoldable pub replicate : ℕ → A → List A
  replicate zero x = []
  replicate (suc n) x = x ∷ replicate n x

  pub length-set : (xs : List A) (i : ℕ) (y : A) → length (set xs i y) ≡ length xs
  unfolding set
  length-set [] i y = refl
  length-set (x ∷ xs) zero y = refl
  length-set (x ∷ xs) (suc i) y = omega (arith, length-set xs i y)

  pub length-replicate : (n : ℕ) (x : A) → length (replicate n x) ≡ n
  unfolding replicate
  length-replicate zero x = refl
  length-replicate (suc n) x = omega (arith, length-replicate n x)

  pub get_elem?-lt : (xs : List A) (i : ℕ) {x : A} → get_elem? xs i ≡ some x → i < length xs
  unfolding get_elem?
  get_elem?-lt [] i e = absurd (ground arith)
  get_elem?-lt (x ∷ xs) zero e = omega arith
  get_elem?-lt (x ∷ xs) (suc i) e = omega (arith, get_elem?-lt xs i e)

  pub get_elem?-some : (xs : List A) (i : ℕ) → i < length xs → (x : A) × (get_elem? xs i ≡ some x)
  unfolding get_elem?
  get_elem?-some [] i l = absurd (omega arith)
  get_elem?-some (x ∷ xs) zero l = (x, refl)
  get_elem?-some (x ∷ xs) (suc i) l = get_elem?-some xs i (omega arith)

  pub get_elem?-set :
      (xs : List A) (i : ℕ) {x y : A} → get_elem? xs i ≡ some x → get_elem? (set xs i y) i ≡ some y
  unfolding get_elem? set
  get_elem?-set [] i e = absurd (ground arith)
  get_elem?-set (x ∷ xs) zero e = refl
  get_elem?-set (x ∷ xs) (suc i) e = get_elem?-set xs i e

  pub get_elem?-set_other :
      (xs : List A) (i j : ℕ) (y : A) → i ≢ j → get_elem? (set xs i y) j ≡ get_elem? xs j
  unfolding get_elem? set
  get_elem?-set_other [] i j y d = refl
  get_elem?-set_other (x ∷ xs) zero zero y d = absurd (d refl)
  get_elem?-set_other (x ∷ xs) zero (suc j) y d = refl
  get_elem?-set_other (x ∷ xs) (suc i) zero y d = refl
  get_elem?-set_other (x ∷ xs) (suc i) (suc j) y d =
      get_elem?-set_other xs i j y (λ e. d (omega arith))

  pub count_if-set :
      (p : A → Bool) (xs : List A) (i : ℕ) {x : A} (y : A)
      → get_elem? xs i ≡ some x
      → count_if p (set xs i y) + (if p x then 1 else 0) ≡ count_if p xs + (if p y then 1 else 0)
  unfolding get_elem? set
  count_if-set p [] i y e = absurd (ground arith)
  count_if-set p (x ∷ xs) zero y e = ground arith
  count_if-set p (x ∷ xs) (suc i) y e = omega (arith, count_if-set p xs i y e)

  -- An element that passes the test is counted.
  pub count_if-get :
      (p : A → Bool) (xs : List A) (i : ℕ) {x : A}
      → get_elem? xs i ≡ some x
      → p x ≡ true
      → 1 ≤ count_if p xs
  unfolding get_elem?
  count_if-get p [] i e t = absurd (ground arith)
  count_if-get p (x ∷ xs) zero e t = ground arith
  count_if-get p (x ∷ xs) (suc i) e t = omega (arith, count_if-get p xs i e t)

  pub count_if-replicate :
      (p : A → Bool) (n : ℕ) (x : A) → p x ≡ false → count_if p (replicate n x) ≡ 0
  unfolding replicate
  count_if-replicate p zero x e = refl
  count_if-replicate p (suc n) x e = ground (arith, count_if-replicate p n x e)

  -- An element that passes the test is found, where there is one.
  pub get_elem?-counted :
      (p : A → Bool) (xs : List A)
      → 1 ≤ count_if p xs
      → (i : ℕ) × (x : A) × (get_elem? xs i ≡ some x) × (p x ≡ true)
  unfolding get_elem?
  get_elem?-counted p [] h = absurd (omega arith)
  get_elem?-counted p (x ∷ xs) h = elim (Bool-cases (p x)) [
    | inl t ↦ (0, x, refl, t)
    | inr f ↦ let (i, y, e, t) = get_elem?-counted p xs (ground arith) in (suc i, y, e, t)
  ]

some-inj {ℓ} : {A : Type ℓ} {x y : A} → some x ≡ some y → x ≡ y
some-inj {x = x} e = ap (λ o. elim o [ none ↦ x | some y ↦ y ]) e

module _ {ℓ κ} {A : Type ℓ} (P : A → Type κ) where
  pub All-set : (xs : List A) (i : ℕ) (y : A) → P y → All P xs → All P (set xs i y)
  unfolding set
  All-set [] i y q h = tt
  All-set (x ∷ xs) zero y q h = (q, h.1)
  All-set (x ∷ xs) (suc i) y q h = (h.0, All-set xs i y q h.1)

  pub All-get : (xs : List A) (i : ℕ) {x : A} → get_elem? xs i ≡ some x → All P xs → P x
  unfolding get_elem?
  All-get [] i e h = absurd (ground arith)
  All-get (x ∷ xs) zero {x = y} e h = subst P (some-inj e) h.0
  All-get (x ∷ xs) (suc i) e h = All-get xs i e h.1

  pub All-replicate : (n : ℕ) (x : A) → P x → All P (replicate n x)
  unfolding replicate
  All-replicate zero x q = tt
  All-replicate (suc n) x q = (q, All-replicate n x q)

abbrev pub sum : List ℕ → ℕ
sum [] = 0
sum (x ∷ xs) = x + sum xs

pub sum-set :
    (xs : List ℕ) (i : ℕ) {x : ℕ} (y : ℕ)
    → get_elem? xs i ≡ some x
    → sum (set xs i y) + x ≡ sum xs + y
unfolding get_elem? set
sum-set [] i y e = absurd (ground arith)
sum-set (x ∷ xs) zero y e = ground arith
sum-set (x ∷ xs) (suc i) y e = omega (arith, sum-set xs i y e)

pub sum-replicate : (n : ℕ) → sum (replicate n 0) ≡ 0
unfolding replicate
sum-replicate zero = refl
sum-replicate (suc n) = omega (arith, sum-replicate n)
