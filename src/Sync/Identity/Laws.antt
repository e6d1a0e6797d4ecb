-- ===== src/Sync/Identity/Laws.antt =====
-- internal/sync/path_identity.go: which trees `ValidatePathIdentity` accepts.
use ocis_cli.Base.{String, true, ◌&&◌, List, [], ◌∷◌, ◌++◌, ◌≡◌, ◌≢◌, refl, ◌∙◌, sym, ap}
use ocis_cli.Base.{
  arith, inl, inr, ◌⊎◌, Bool-cases, str_eq, str_eq_iff, str_eq_refl, keep, map, str_lt_irrefl,
}
use ocis_cli.Base.Map.{keys, contains, contains-keep}
use ocis_cli.Base.Sets.{sorted_set, contains-sorted_set, sorted_set-IsAscending, IsAscending}
use ocis_cli.Base.Result.{ok, err}
use ocis_cli.Sync.Platform.{Platform}
use ocis_cli.Sync.Errors.{unsafe_path_identity}
use ocis_cli.Sync.Entry.{Snapshot}
use ocis_cli.Sync.Identity.{spellings, check_identities, validate_path_identity}

module _ (P : Platform) where
  contains-spellings :
      (paths : List String) (i k : String)
      → contains k (spellings P paths i) ≡ (contains k paths && str_eq (P.identity_form k) i)
  unfolding spellings
  contains-spellings paths i k =
      contains-sorted_set k (keep (λ p. str_eq (P.identity_form p) i) paths)
      ∙ contains-keep k (λ p. str_eq (P.identity_form p) i) paths

  spellings-IsAscending : (paths : List String) (i : String) → IsAscending (spellings P paths i)
  unfolding spellings
  spellings-IsAscending paths i =
      sorted_set-IsAscending (keep (λ p. str_eq (P.identity_form p) i) paths)

  contains-map :
      (k : String) (paths : List String)
      → contains k paths ≡ true
      → contains (P.identity_form k) (map P.identity_form paths) ≡ true
  contains-map k [] h = cc
  contains-map k (x ∷ xs) h = elim (Bool-cases (str_eq k x)) [
    | inl e ↦ let same = (str_eq_iff k x).0 e in ground (arith, str_eq_refl (P.identity_form x))
    | inr e ↦ ground (arith, contains-map k xs)
  ]

  -- Two paths of the trees are confused: they are distinct, and have one identity.
  abbrev pub AreConfused : List String → String → String → Type 0
  AreConfused paths p q =
      (contains p paths ≡ true)
      × (contains q paths ≡ true)
      × (P.identity_form p ≡ P.identity_form q)
      × (p ≢ q)

  two_spellings :
      (paths : List String) (i first second : String) (more : List String)
      → spellings P paths i ≡ first ∷ second ∷ more
      → AreConfused paths first second
  two_spellings paths i first second more e =
      let in_first : contains first (spellings P paths i) ≡ true =
        rw e (ground (arith, str_eq_refl first)) in
      let in_second : contains second (spellings P paths i) ≡ true =
        rw e (ground (arith, str_eq_refl second)) in
      let ascending : IsAscending (first ∷ second ∷ more) =
        rw e at (spellings-IsAscending paths i) in
      (
        ground (arith, contains-spellings paths i first),
        ground (arith, contains-spellings paths i second),
        (str_eq_iff _ i).0 (ground (arith, contains-spellings paths i first))
            ∙ sym ((str_eq_iff _ i).0 (ground (arith, contains-spellings paths i second))),
        λ same. cc (rw same at ascending.0.0, str_lt_irrefl second),
      )

  one_spelling :
      (paths : List String) (i p only : String)
      → spellings P paths i ≡ only ∷ []
      → contains p paths ≡ true
      → P.identity_form p ≡ i
      → p ≡ only
  one_spelling paths i p only e h f =
      let found : contains p (spellings P paths i) ≡ true =
        ground (arith, contains-spellings paths i p, str_eq_iff (P.identity_form p) i) in
      (str_eq_iff p only).0 (ground (arith, rw e at found))

  -- One identity of the loop.
  check-cons :
      (paths : List String) (i : String) (ids : List String)
      → ((check_identities P paths (i ∷ ids) ≡ check_identities P paths ids)
          × ((p q : String)
              → contains p paths ≡ true
              → contains q paths ≡ true
              → P.identity_form p ≡ i
              → P.identity_form q ≡ i
              → p ≡ q))
        ⊎ ((first : String) × (second : String) × (check_identities P paths (i ∷ ids)
              ≡ err (unsafe_path_identity first second))
            × AreConfused paths first second)
  unfolding check_identities
  check-cons paths i ids = go (spellings P paths i) refl
    where
      go :
          (found : List String)
          → spellings P paths i ≡ found
          → ((check_identities P paths (i ∷ ids) ≡ check_identities P paths ids)
              × ((p q : String)
                  → contains p paths ≡ true
                  → contains q paths ≡ true
                  → P.identity_form p ≡ i
                  → P.identity_form q ≡ i
                  → p ≡ q))
            ⊎ ((first : String) × (second : String) × (check_identities P paths (i ∷ ids)
                  ≡ err (unsafe_path_identity first second))
                × AreConfused paths first second)
      go [] e = inl (
        rw (e, check_identities) refl,
        λ p q hp hq fp fq. absurd (
            ground (
              arith,
              contains-spellings paths i p,
              str_eq_iff (P.identity_form p) i,
              ap (contains p) e,
            )),
      )
      go (only ∷ []) e = inl (
        rw (e, check_identities) refl,
        λ p q hp hq fp fq.
            one_spelling paths i p only e hp fp ∙ sym (one_spelling paths i q only e hq fq),
      )
      go (first ∷ second ∷ more) e =
          inr (
            first,
            second,
            rw (e, check_identities) refl,
            two_spellings paths i first second more e,
          )

  check-ok :
      (paths ids : List String) (p q : String)
      → check_identities P paths ids ≡ ok tt
      → contains (P.identity_form p) ids ≡ true
      → contains p paths ≡ true
      → contains q paths ≡ true
      → P.identity_form p ≡ P.identity_form q
      → p ≡ q
  check-ok paths [] p q h m hp hq f = absurd (ground arith)
  check-ok paths (i ∷ ids) p q h m hp hq f = elim (check-cons paths i ids) [
    | inr (first, second, e, c) ↦ absurd (cc)
    | inl (e, one) ↦ elim (Bool-cases (str_eq (P.identity_form p) i)) [
      | inl s ↦ let fp = (str_eq_iff (P.identity_form p) i).0 s in one p q hp hq fp (sym f ∙ fp)
      | inr s ↦ check-ok paths ids p q (sym e ∙ h) (ground arith) hp hq f
    ]
  ]

  check-cases :
      (paths ids : List String)
      → (check_identities P paths ids ≡ ok tt)
        ⊎ ((first : String) × (second : String) × (check_identities P paths ids
              ≡ err (unsafe_path_identity first second))
            × AreConfused paths first second)
  check-cases paths [] = inl (unfold check_identities in refl)
  check-cases paths (i ∷ ids) = elim (check-cons paths i ids) [
    | inr bad ↦ inr bad
    | inl (e, one) ↦ elim (check-cases paths ids) [
      | inl h ↦ inl (e ∙ h)
      | inr (first, second, h, c) ↦ inr (first, second, e ∙ h, c)
    ]
  ]

  -- `ValidatePathIdentity` accepts two trees exactly when no two distinct paths of theirs have one
  -- folded and normalized form, and otherwise its error names two such paths.
  pub validate_path_identity_lem :
      (l r : Snapshot)
      → ((validate_path_identity P l r ≡ ok tt)
          × ((p q : String)
              → contains p (keys l ++ keys r) ≡ true
              → contains q (keys l ++ keys r) ≡ true
              → P.identity_form p ≡ P.identity_form q
              → p ≡ q))
        ⊎ ((first : String) × (second : String) × (validate_path_identity P l r
              ≡ err (unsafe_path_identity first second))
            × AreConfused (keys l ++ keys r) first second)
  unfolding validate_path_identity
  validate_path_identity_lem l r =
      let paths = keys l ++ keys r in
      let ids = sorted_set (map P.identity_form paths) in
      elim (check-cases paths ids) [
        | inr bad ↦ inr bad
        | inl h ↦ inl (
          h,
          λ p q hp hq f.
              check-ok paths ids p q h
                (contains-sorted_set (P.identity_form p) (map P.identity_form paths)
                  ∙ contains-map p paths hp)
                hp hq f,
        )
      ]
