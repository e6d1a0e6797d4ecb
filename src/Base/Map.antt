-- ===== src/Base/Map.antt =====
-- Go's `map[string]V` as an association list, and the tests by which a set of strings is read.
use mathlib.Core.Path.{◌≡◌, refl, sym, ◌∙◌}
use mathlib.Core.Logic.{inl, inr}
use mathlib.Core.Bool.{Bool, true, ◌||◌, ◌&&◌}
use mathlib.Core.Option.{Option, none, some}
use mathlib.Core.List.{List, [], ◌∷◌, ◌++◌, map}
use Prim.Native.String.{String}
use native.Mathlib.Omega.{arith}
use ocis_cli.Base.Tests.{if◌then◌else◌, is_some, Bool-cases, Bool-eq}
use ocis_cli.Base.Lists.{any, keep, any-append, All}
use ocis_cli.Base.Text.{str_eq, str_eq_iff, str_eq_refl}

abbrev pub Map {ℓ} : Type ℓ → Type ℓ
Map V = List (String × V)

-- Whether a string is in a list.
abbrev pub contains : String → List String → Bool
contains k xs = any (str_eq k) xs

module _ {ℓ} {V : Type ℓ} where
  abbrev pub lookup : String → Map V → Option V
  lookup k [] = none
  lookup k ((j, v) ∷ m) = if str_eq k j then some v else lookup k m

  -- `_, exists := m[k]`
  abbrev pub has : String → Map V → Bool
  has k m = is_some (lookup k m)

  abbrev pub keys : Map V → List String
  keys m = map (λ (k, _). k) m

  -- The entries whose key passes the test.
  abbrev pub keep_keys : (String → Bool) → Map V → Map V
  keep_keys p m = keep (λ (k, _). p k) m

  -- Two maps that no lookup tells apart: they differ at most in the order of iteration.
  abbrev pub SameMap : Map V → Map V → Type ℓ
  SameMap m n = (k : String) → lookup k m ≡ lookup k n

module _ {ℓ} {V : Type ℓ} where
  pub lookup-keep_keys :
      (p : String → Bool) (k : String) (m : Map V)
      → lookup k (keep_keys p m) ≡ (if p k then lookup k m else none)
  lookup-keep_keys p k [] = ground arith
  lookup-keep_keys p k ((j, v) ∷ m) = elim (Bool-cases (str_eq k j)) [
    | inl e ↦ let same = (str_eq_iff k j).0 e in ground (arith, lookup-keep_keys p k m)
    | inr e ↦ ground (arith, lookup-keep_keys p k m)
  ]

  pub contains-keys : (k : String) (m : Map V) → contains k (keys m) ≡ has k m
  contains-keys k [] = refl
  contains-keys k ((j, v) ∷ m) = ground (arith, contains-keys k m)

-- A search finds something exactly when a member passes.
pub any-of_contains :
    (p : String → Bool) (k : String) (xs : List String)
    → contains k xs ≡ true
    → p k ≡ true
    → any p xs ≡ true
any-of_contains p k [] h e = cc
any-of_contains p k (x ∷ xs) h e = elim (Bool-cases (str_eq k x)) [
  | inl s ↦ let same = (str_eq_iff k x).0 s in ground arith
  | inr s ↦ ground (arith, any-of_contains p k xs)
]

pub any_found :
    (p : String → Bool) (xs : List String)
    → any p xs ≡ true
    → (k : String) × (contains k xs ≡ true) × (p k ≡ true)
any_found p [] h = absurd (ground arith)
any_found p (x ∷ xs) h = elim (Bool-cases (p x)) [
  | inl e ↦ (x, ground (arith, str_eq_refl x), e)
  | inr e ↦ let r = any_found p xs (ground arith) in (r.0, ground (arith, r.1), r.2)
]

-- A search depends on the members only.
pub any_same :
    (p : String → Bool) (xs ys : List String)
    → ((k : String) → contains k xs ≡ contains k ys)
    → any p xs ≡ any p ys
any_same p xs ys same =
    Bool-eq (any p xs) (any p ys)
      (λ h. let r = any_found p xs h in any-of_contains p r.0 ys (sym (same r.0) ∙ r.1) r.2)
      (λ h. let r = any_found p ys h in any-of_contains p r.0 xs (same r.0 ∙ r.1) r.2)

pub contains-append :
    (k : String) (xs ys : List String) → contains k (xs ++ ys) ≡ (contains k xs || contains k ys)
contains-append k xs ys = any-append (str_eq k) xs ys

pub contains-keep :
    (k : String) (p : String → Bool) (xs : List String)
    → contains k (keep p xs) ≡ (contains k xs && p k)
contains-keep k p [] = refl
contains-keep k p (x ∷ xs) = elim (Bool-cases (str_eq k x)) [
  | inl e ↦ let same = (str_eq_iff k x).0 e in ground (arith, contains-keep k p xs)
  | inr e ↦ ground (arith, contains-keep k p xs)
]

-- What holds of the members holds of the list.
pub All-of_contains {κ} :
    (Q : String → Type κ) (xs : List String)
    → ((k : String) → contains k xs ≡ true → Q k)
    → All Q xs
All-of_contains Q [] f = tt
All-of_contains Q (x ∷ xs) f =
    (f x (ground (arith, str_eq_refl x)), All-of_contains Q xs (λ k h. f k (ground arith)))
