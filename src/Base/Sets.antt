-- ===== src/Base/Sets.antt =====
-- Sets of strings: the keys of a `map[string]struct{}`, and `sort.Strings` on them.
use mathlib.Core.Path.{◌≡◌, refl, sym, ap₂, ◌∙◌}
use mathlib.Core.Logic.{inl, inr}
use mathlib.Core.Bool.{Bool, true, false}
use mathlib.Core.List.{List, [], ◌∷◌}
use Prim.Native.Nat.{◌≤◌}
use Prim.Native.String.{String}
use native.Mathlib.Omega.{arith}
use ocis_cli.Base.Tests.{if◌then◌else◌, Bool-cases, ltb}
use ocis_cli.Base.Lists.{All, count_if}
use ocis_cli.Base.Text.{str_eq, str_eq_iff, str_eq_refl, str_lt, str_lt_trans, str_lt_total}
use ocis_cli.Base.Text.{str_lt_irrefl, str_lt_asymm}
use ocis_cli.Base.Map.{contains}
use ocis_cli.Base.Sort.{sort_stable, sort_stable-IsSorted, IsSorted, sort_stable-count_if}

-- `sort.Strings`
unfoldable pub sort_strings : List String → List String
sort_strings = sort_stable str_lt

-- The distinct members: what inserting each one into a set leaves.
unfoldable pub set_of : List String → List String
set_of [] = []
set_of (x ∷ xs) = let rest = set_of xs in if contains x rest then rest else x ∷ rest

-- The keys of a set, sorted.
unfoldable pub sorted_set : List String → List String
sorted_set xs = sort_strings (set_of xs)

-- Strictly ascending, so with no duplicates.
abbrev pub IsAscending : List String → Type 0
IsAscending [] = Unit
IsAscending (x ∷ xs) = All (λ y. str_lt x y ≡ true) xs × IsAscending xs

pub above_contains :
    (x k : String) (xs : List String)
    → All (λ y. str_lt x y ≡ true) xs
    → contains k xs ≡ true
    → str_lt x k ≡ true
above_contains x k [] h m = cc
above_contains x k (y ∷ ys) h m = elim (Bool-cases (str_eq k y)) [
  | inl e ↦ let same = (str_eq_iff k y).0 e in rw same h.0
  | inr e ↦ above_contains x k ys h.1 (ground arith)
]

pub IsAscending-head :
    (x : String) (xs : List String) → IsAscending (x ∷ xs) → contains x xs ≡ false
IsAscending-head x xs h = elim (Bool-cases (contains x xs)) [
  | inl m ↦ cc (above_contains x x xs h.0 m, str_lt_irrefl x)
  | inr m ↦ m
]

heads_eq :
    (x y : String) (xs ys : List String)
    → IsAscending (x ∷ xs)
    → IsAscending (y ∷ ys)
    → contains x (y ∷ ys) ≡ true
    → contains y (x ∷ xs) ≡ true
    → x ≡ y
heads_eq x y xs ys s t m n = elim (Bool-cases (str_eq x y)) [
  | inl e ↦ (str_eq_iff x y).0 e
  | inr e ↦
      let below : str_lt y x ≡ true = above_contains y x ys t.0 (ground arith) in
      let above : str_lt x y ≡ true =
        above_contains x y xs s.0 (ground (arith, str_eq_iff x y, str_eq_iff y x)) in
      absurd (ground (arith, str_lt_asymm x y above))
]

-- An ascending list is determined by its members.
pub IsAscending-eq :
    (xs ys : List String)
    → IsAscending xs
    → IsAscending ys
    → ((k : String) → contains k xs ≡ contains k ys)
    → xs ≡ ys
IsAscending-eq [] [] s t same = refl
IsAscending-eq [] (y ∷ ys) s t same = absurd (ground (arith, same y, str_eq_refl y))
IsAscending-eq (x ∷ xs) [] s t same = absurd (ground (arith, same x, str_eq_refl x))
IsAscending-eq (x ∷ xs) (y ∷ ys) s t same = ap₂ ◌∷◌ e (IsAscending-eq xs ys s.1 t.1 tails)
  where
    e : x ≡ y
    e =
        heads_eq x y xs ys s t (ground (arith, same x, str_eq_refl x))
          (ground (arith, same y, str_eq_refl y))

    tails : (k : String) → contains k xs ≡ contains k ys
    tails k = elim (Bool-cases (str_eq k x)) [
      | inl h ↦
          let kx : k ≡ x = (str_eq_iff k x).0 h in
          let left : contains k xs ≡ false = rw kx (IsAscending-head x xs s) in
          let right : contains k ys ≡ false = rw (kx ∙ e) (IsAscending-head y ys t) in
          left ∙ sym right
      | inr h ↦ let h' : str_eq k y ≡ false = rw (← e) h in ground (arith, same k)
    ]

any-count_if : (k : String) (xs : List String) → contains k xs ≡ ltb 0 (count_if (str_eq k) xs)
any-count_if k [] = refl
any-count_if k (x ∷ xs) = ground (arith, any-count_if k xs)

pub contains-sort_stable :
    (less : String → String → Bool) (k : String) (xs : List String)
    → contains k (sort_stable less xs) ≡ contains k xs
contains-sort_stable less k xs = ground (
  arith,
  any-count_if k (sort_stable less xs),
  any-count_if k xs,
  sort_stable-count_if less (str_eq k) xs,
)

pub contains-sort_strings :
    (k : String) (xs : List String) → contains k (sort_strings xs) ≡ contains k xs
unfolding sort_strings
contains-sort_strings k xs = contains-sort_stable str_lt k xs

pub contains-set_of : (k : String) (xs : List String) → contains k (set_of xs) ≡ contains k xs
unfolding set_of
contains-set_of k [] = refl
contains-set_of k (x ∷ xs) = elim (Bool-cases (str_eq k x)) [
  | inl e ↦
      let same = (str_eq_iff k x).0 e in ground (arith, contains-set_of x xs, contains-set_of k xs)
  | inr e ↦ ground (arith, contains-set_of k xs)
]

pub contains-sorted_set :
    (k : String) (xs : List String) → contains k (sorted_set xs) ≡ contains k xs
unfolding sorted_set
contains-sorted_set k xs = contains-sort_strings k (set_of xs) ∙ contains-set_of k xs

abbrev IsDistinct : List String → Type 0
IsDistinct xs = (k : String) → count_if (str_eq k) xs ≤ 1

set_of-IsDistinct : (xs : List String) → IsDistinct (set_of xs)
unfolding set_of
set_of-IsDistinct [] k = omega arith
set_of-IsDistinct (x ∷ xs) k = elim (Bool-cases (str_eq k x)) [
  | inl e ↦
      let same = (str_eq_iff k x).0 e in
      ground (arith, set_of-IsDistinct xs k, any-count_if x (set_of xs))
  | inr e ↦ ground (arith, set_of-IsDistinct xs k)
]

above_of_sorted :
    (x : String) (xs : List String)
    → All (λ y. str_lt y x ≡ false) xs
    → contains x xs ≡ false
    → All (λ y. str_lt x y ≡ true) xs
above_of_sorted x [] h m = tt
above_of_sorted x (y ∷ ys) h m = (
  elim (Bool-cases (str_lt x y)) [
    | inl e ↦ e
    | inr e ↦ let same = str_lt_total x y e h.0 in absurd (ground (arith, str_eq_iff x y))
  ],
  above_of_sorted x ys h.1 (ground arith),
)

IsAscending-of_sorted : (xs : List String) → IsSorted str_lt xs → IsDistinct xs → IsAscending xs
IsAscending-of_sorted [] s d = tt
IsAscending-of_sorted (x ∷ xs) s d = (
  above_of_sorted x xs s.0 (ground (arith, d x, str_eq_refl x, any-count_if x xs)),
  IsAscending-of_sorted xs s.1 (λ k. omega (arith, d k)),
)

pub not_above : (s t u : String) → str_lt t s ≡ false → str_lt u t ≡ false → str_lt u s ≡ false
not_above s t u h k = elim (Bool-cases (str_lt u s)) [
  | inl e ↦ elim (Bool-cases (str_lt s t)) [
    | inl f ↦ cc (str_lt_trans u s t e f)
    | inr f ↦ rw (← str_lt_total s t f h) at k
  ]
  | inr e ↦ e
]

pub sort_strings-IsSorted : (xs : List String) → IsSorted str_lt (sort_strings xs)
unfolding sort_strings
sort_strings-IsSorted xs = sort_stable-IsSorted str_lt str_lt_asymm not_above xs

pub sorted_set-IsAscending : (xs : List String) → IsAscending (sorted_set xs)
unfolding sorted_set sort_strings
sorted_set-IsAscending xs =
    IsAscending-of_sorted (sorted_set xs) (sort_strings-IsSorted (set_of xs))
      λ k. omega (arith, sort_stable-count_if str_lt (str_eq k) (set_of xs), set_of-IsDistinct xs k)

-- A set's sorted keys depend on the members only, not on the order of iteration.
pub sorted_set-eq :
    (xs ys : List String)
    → ((k : String) → contains k xs ≡ contains k ys)
    → sorted_set xs ≡ sorted_set ys
sorted_set-eq xs ys same =
    IsAscending-eq (sorted_set xs) (sorted_set ys) (sorted_set-IsAscending xs)
      (sorted_set-IsAscending ys)
      λ k. contains-sorted_set k xs ∙ same k ∙ sym (contains-sorted_set k ys)

-- Each member stands in the sorted keys once.
pub count_if-sorted_set :
    (k : String) (xs : List String)
    → count_if (str_eq k) (sorted_set xs) ≡ (if contains k xs then 1 else 0)
unfolding sorted_set sort_strings
count_if-sorted_set k xs = ground (
  arith,
  sort_stable-count_if str_lt (str_eq k) (set_of xs),
  set_of-IsDistinct xs k,
  any-count_if k (set_of xs),
  contains-set_of k xs,
)
