-- ===== src/Base/Sort.antt =====
-- A stable sort by a Boolean `less`, as Go's `sort.SliceStable` and, on strings, `sort.Strings`:
-- the result of a stable sort is determined by the order, so insertion sort stands for it.
use mathlib.Core.Path.{◌≡◌, refl}
use mathlib.Core.Logic.{inl, inr}
use mathlib.Core.Bool.{Bool, true, false}
use mathlib.Core.List.{List, [], ◌∷◌}
use native.Mathlib.Omega.{arith}
use ocis_cli.Base.Tests.{if◌then◌else◌, Bool-cases}
use ocis_cli.Base.Lists.{count_if, All, All-mono}

module _ {ℓ} {A : Type ℓ} (less : A → A → Bool) where
  -- An element goes before the later ones that are not less than it.
  pub insert_stable : A → List A → List A
  insert_stable x [] = x ∷ []
  insert_stable x (y ∷ ys) = if less y x then y ∷ insert_stable x ys else x ∷ y ∷ ys

  unfoldable pub sort_stable : List A → List A
  unfolding insert_stable
  sort_stable [] = []
  sort_stable (x ∷ xs) = insert_stable x (sort_stable xs)

  -- No element is less than one before it.
  abbrev pub IsSorted : List A → Type 0
  IsSorted [] = Unit
  IsSorted (x ∷ xs) = All (λ y. less y x ≡ false) xs × IsSorted xs

  insert_stable-count_if :
      (p : A → Bool) (x : A) (xs : List A) → count_if p (insert_stable x xs) ≡ count_if p (x ∷ xs)
  unfolding insert_stable
  insert_stable-count_if p x [] = refl
  insert_stable-count_if p x (y ∷ ys) = ground (arith, insert_stable-count_if p x ys)

  -- Sorting keeps the number of elements that pass any test.
  pub sort_stable-count_if :
      (p : A → Bool) (xs : List A) → count_if p (sort_stable xs) ≡ count_if p xs
  unfolding sort_stable
  sort_stable-count_if p [] = refl
  sort_stable-count_if p (x ∷ xs) =
      ground (arith, insert_stable-count_if p x (sort_stable xs), sort_stable-count_if p xs)

  insert_stable-All {κ} :
      (P : A → Type κ) (x : A) (xs : List A) → P x → All P xs → All P (insert_stable x xs)
  unfolding insert_stable
  insert_stable-All P x [] h k = (h, tt)
  insert_stable-All P x (y ∷ ys) h k = elim (Bool-cases (less y x)) [
    | inl e ↦ rw e (k.0, insert_stable-All P x ys h k.1)
    | inr e ↦ rw e (h, k)
  ]

  pub sort_stable-All {κ} : (P : A → Type κ) (xs : List A) → All P xs → All P (sort_stable xs)
  unfolding sort_stable
  sort_stable-All P [] h = tt
  sort_stable-All P (x ∷ xs) h =
      insert_stable-All P x (sort_stable xs) h.0 (sort_stable-All P xs h.1)

  module _ (asymm : (a b : A) → less a b ≡ true → less b a ≡ false)
      (weak : (a b c : A) → less b a ≡ false → less c b ≡ false → less c a ≡ false) where
    insert_stable-IsSorted : (x : A) (xs : List A) → IsSorted xs → IsSorted (insert_stable x xs)
    unfolding insert_stable
    insert_stable-IsSorted x [] s = (tt, tt)
    insert_stable-IsSorted x (y ∷ ys) s = elim (Bool-cases (less y x)) [
      | inl e ↦ rw e (
        insert_stable-All (λ z. less z y ≡ false) x ys (asymm y x e) s.0,
        insert_stable-IsSorted x ys s.1,
      )
      | inr e ↦ rw e (
        (e, All-mono (λ z. less z y ≡ false) (λ z. less z x ≡ false) ys (λ z. weak x y z e) s.0),
        s,
      )
    ]

    pub sort_stable-IsSorted : (xs : List A) → IsSorted (sort_stable xs)
    unfolding sort_stable
    sort_stable-IsSorted [] = tt
    sort_stable-IsSorted (x ∷ xs) =
        insert_stable-IsSorted x (sort_stable xs) (sort_stable-IsSorted xs)
