-- ===== src/Sync/Pattern/Normal.antt =====
-- internal/sync/model.go: normalizing the patterns keeps what they mean.
use ocis_cli.Base.{String, Bool, true, false, ◌&&◌, ◌||◌, List, [], ◌∷◌, str_lt, str_eq, str_eq_iff}
use ocis_cli.Base.{
  if◌then◌else◌, any, ◌≡◌, refl, arith, ◌∙◌, sym, str_lt_trans, str_lt_total, Bool-cases, inl, inr,
}
use ocis_cli.Base.{ap, keep-congr, All-mono, not, is_some, ◌↔◌, any-congr}
use ocis_cli.Base.Map.{keys, contains, any_same, keep_keys}
use ocis_cli.Base.Sort.{IsSorted}
use ocis_cli.Base.Sets.{
  IsAscending, sort_strings, sort_strings-IsSorted, contains-sort_strings, IsAscending-eq,
}
use ocis_cli.Base.Result.{ok}
use ocis_cli.GoPath.{ancestors}
use ocis_cli.Sync.Platform.{Platform}
use ocis_cli.Sync.Entry.{Snapshot}
use ocis_cli.Sync.Pattern.{
  matches_any, matches, excluded, selected, gather, keeps, filter_snapshot, validate_patterns,
  is_blank, compact_after, compact, sorted_unique, normalize_patterns,
}

contains-compact_after :
    (k last : String) (xs : List String)
    → (str_eq k last || contains k (compact_after last xs)) ≡ (str_eq k last || contains k xs)
unfolding compact_after
contains-compact_after k last [] = refl
contains-compact_after k last (x ∷ xs) =
    ground
      (arith, contains-compact_after k x xs, str_eq_iff last x, str_eq_iff k last, str_eq_iff k x)

pub contains-sorted_unique :
    (k : String) (xs : List String) → contains k (sorted_unique xs) ≡ contains k xs
unfolding sorted_unique
contains-sorted_unique k xs = contains-compact k (sort_strings xs) ∙ contains-sort_strings k xs
  where
    contains-compact : (k : String) (ys : List String) → contains k (compact ys) ≡ contains k ys
    contains-compact k [] = refl
    contains-compact k (y ∷ ys) = contains-compact_after k y ys

strictly_below : (s t : String) → str_lt t s ≡ false → str_eq s t ≡ false → str_lt s t ≡ true
strictly_below s t h e = elim (Bool-cases (str_lt s t)) [
  | inl b ↦ b
  | inr b ↦ let same = str_lt_total s t b h in absurd (ground (arith, str_eq_iff s t))
]

-- The values written after `last` lie strictly above it.
compact_after-IsAscending :
    (last : String) (xs : List String)
    → IsSorted str_lt (last ∷ xs)
    → IsAscending (last ∷ compact_after last xs)
unfolding compact_after
compact_after-IsAscending last [] s = (tt, tt)
compact_after-IsAscending last (x ∷ xs) s = elim (Bool-cases (str_eq last x)) [
  | inl e ↦ rw e (rw ((str_eq_iff last x).0 e) (compact_after-IsAscending x xs s.1))
  | inr e ↦
      let ih = compact_after-IsAscending x xs s.1 in
      let below : str_lt last x ≡ true = strictly_below last x s.0.0 e in
      rw e (
        (
          below,
          All-mono (λ y. str_lt x y ≡ true) (λ y. str_lt last y ≡ true) (compact_after x xs)
              (λ y. str_lt_trans last x y below) ih.0,
        ),
        ih,
      )
]

pub sorted_unique-IsAscending : (xs : List String) → IsAscending (sorted_unique xs)
unfolding sorted_unique
sorted_unique-IsAscending xs = compact-IsAscending (sort_strings xs) (sort_strings-IsSorted xs)
  where
    compact-IsAscending : (ys : List String) → IsSorted str_lt ys → IsAscending (compact ys)
    compact-IsAscending [] s = tt
    compact-IsAscending (y ∷ ys) s = compact_after-IsAscending y ys s

-- The order and the duplicates of the patterns play no part in the result.
pub sorted_unique-eq :
    (xs ys : List String)
    → ((k : String) → contains k xs ≡ contains k ys)
    → sorted_unique xs ≡ sorted_unique ys
sorted_unique-eq xs ys same =
    IsAscending-eq (sorted_unique xs) (sorted_unique ys) (sorted_unique-IsAscending xs)
      (sorted_unique-IsAscending ys)
      λ k. contains-sorted_unique k xs ∙ same k ∙ sym (contains-sorted_unique k ys)

module _ (P : Platform) where
  matches_any-normal :
      (k : String) (ps : List String) → matches_any P k (sorted_unique ps) ≡ matches_any P k ps
  unfolding matches_any
  matches_any-normal k ps =
      any_same (matches P k) (sorted_unique ps) ps (λ x. contains-sorted_unique x ps)

  -- A pattern that passes the checks of `validatePatterns`.
  is_valid : String → Bool
  is_valid p = not (is_blank p) && is_some (P.path_match p "value")

  valid_iff :
      (ps : List String)
      → (validate_patterns P ps ≡ ok tt) ↔ (any (λ p. not (is_valid p)) ps ≡ false)
  unfolding validate_patterns is_valid
  valid_iff [] = (λ _. refl, λ _. refl)
  valid_iff (p ∷ ps) = ground (arith, valid_iff ps)

  valid-normal :
      (ps : List String)
      → validate_patterns P ps ≡ ok tt
      → validate_patterns P (sorted_unique ps) ≡ ok tt
  valid-normal ps h = (valid_iff (sorted_unique ps)).1 (
      any_same (λ p. not (is_valid p)) (sorted_unique ps) ps (λ x. contains-sorted_unique x ps)
      ∙ (valid_iff ps).0 h)

  gather-normal :
      (s : Snapshot) (ps rest : List String)
      → gather P s (sorted_unique ps) rest ≡ gather P s ps rest
  unfolding gather
  gather-normal s ps [] = refl
  gather-normal s ps (r ∷ rest) = rw (matches_any-normal r ps, gather-normal s ps rest)

  selected-gather :
      (s : Snapshot) (ps : List String)
      → selected P s ps ≡ (if any (λ _. true) ps then gather P s ps (keys s) else keys s)
  unfolding selected
  selected-gather s [] = refl
  selected-gather s (p ∷ ps) = refl

  selected-normal :
      (s : Snapshot) (ps : List String) → selected P s (sorted_unique ps) ≡ selected P s ps
  selected-normal s ps = ground (
    arith,
    selected-gather s (sorted_unique ps),
    selected-gather s ps,
    gather-normal s ps (keys s),
    any_same (λ _. true) (sorted_unique ps) ps (λ x. contains-sorted_unique x ps),
  )

  excluded-normal :
      (k : String) (ps : List String) → excluded P k (sorted_unique ps) ≡ excluded P k ps
  unfolding excluded
  excluded-normal k ps =
      any-congr (λ c. matches_any P c (sorted_unique ps)) (λ c. matches_any P c ps) (ancestors k)
        (λ c. matches_any-normal c ps)

  normalize_patterns-parts :
      (includes excludes : List String) {i e : List String}
      → normalize_patterns P includes excludes ≡ ok (i, e)
      → (validate_patterns P includes ≡ ok tt)
        × (validate_patterns P excludes ≡ ok tt)
        × (i ≡ sorted_unique includes)
        × (e ≡ sorted_unique excludes)
  unfolding normalize_patterns
  normalize_patterns-parts includes excludes h = ground arith

  filter_valid :
      (s : Snapshot) (includes excludes : List String)
      → validate_patterns P includes ≡ ok tt
      → validate_patterns P excludes ≡ ok tt
      → filter_snapshot P s includes excludes ≡ ok (keep_keys (keeps P s includes excludes) s)
  unfolding filter_snapshot
  filter_valid s includes excludes h k = rw (h, k)

  keeps-normal :
      (s : Snapshot) (includes excludes : List String) (k : String)
      → keeps P s (sorted_unique includes) (sorted_unique excludes) k
        ≡ keeps P s includes excludes k
  unfolding keeps
  keeps-normal s includes excludes k = rw (selected-normal s includes, excluded-normal k excludes)

  -- Filtering by the normalized patterns is filtering by the patterns that were given.
  pub filter-normalized :
      (s : Snapshot) (includes excludes : List String) {i e : List String}
      → normalize_patterns P includes excludes ≡ ok (i, e)
      → filter_snapshot P s i e ≡ filter_snapshot P s includes excludes
  filter-normalized s includes excludes h =
      let (valid_i, valid_e, pi, pe) = normalize_patterns-parts includes excludes h in
      rw (pi, pe)
        (filter_valid s (sorted_unique includes) (sorted_unique excludes)
            (valid-normal includes valid_i) (valid-normal excludes valid_e)
          ∙ ap ok (
              keep-congr (λ (k, _). keeps P s (sorted_unique includes) (sorted_unique excludes) k)
                (λ (k, _). keeps P s includes excludes k) s
                (λ (k, _). keeps-normal s includes excludes k))
          ∙ sym (filter_valid s includes excludes valid_i valid_e))
