-- ===== src/Sync/Pattern/Laws.antt =====
-- internal/sync/model.go: which paths `Filter` keeps, and that the order of a map plays no part.
use ocis_cli.Base.{String, Bool, true, false, ◌&&◌, ◌||◌, List, [], ◌∷◌}
use ocis_cli.Base.{none, if◌then◌else◌, str_eq, str_eq_iff, any, keep, ◌≡◌}
use ocis_cli.Base.{refl, ◌⊎◌, inl, inr, ◌↔◌, arith, ◌∙◌, sym}
use ocis_cli.Base.Map.{contains, has, lookup, keys, keep_keys, lookup-keep_keys, contains-keys}
use ocis_cli.Base.Map.{contains-append, contains-keep, any_found, any-of_contains}
use ocis_cli.Base.Result.{ok}
use ocis_cli.GoPath.{ancestors}
use ocis_cli.Sync.Platform.{Platform}
use ocis_cli.Sync.Entry.{Snapshot}
use ocis_cli.Sync.Pattern.{
  matches_any, excluded, selected_by, gather, selected, keeps, filter_snapshot,
}

module _ (P : Platform) where
  pub gather-any :
      (s : Snapshot) (includes rest : List String) (k : String)
      → contains k (gather P s includes rest)
        ≡ any (λ r. matches_any P r includes && contains k (selected_by P s r)) rest
  unfolding gather
  gather-any s includes [] k = refl
  gather-any s includes (r ∷ rest) k =
      contains-append k (if matches_any P r includes then selected_by P s r else [])
        (gather P s includes rest)
      ∙ ground (arith, gather-any s includes rest k)

  -- A path is selected with no include pattern, or because it is the root or a parent of a path
  -- that an include pattern matches, or that path itself.
  abbrev pub IsSelected : Snapshot → List String → String → Type 0
  IsSelected s includes k =
      (includes ≡ [])
      ⊎ ((r : String) × (has r s ≡ true)
          × (matches_any P r includes ≡ true)
          × ((k ≡ "") ⊎ (contains k (ancestors r) ≡ true)))

  contains-selected_by :
      (s : Snapshot) (r k : String)
      → contains k (selected_by P s r)
        ≡ ((has "" s && str_eq k "") || (contains k (ancestors r) && has k s))
  unfolding selected_by
  contains-selected_by s r k =
      contains-append k (if has "" s then "" ∷ [] else []) (keep (λ c. has c s) (ancestors r))
      ∙ ground (arith, contains-keep k (λ c. has c s) (ancestors r))

  selected_iff :
      (s : Snapshot) (includes : List String) (k : String)
      → has k s ≡ true
      → (contains k (selected P s includes) ≡ true) ↔ IsSelected s includes k
  unfolding selected
  selected_iff s [] k h = (λ _. inl refl, λ _. contains-keys k s ∙ h)
  selected_iff s (i ∷ is) k h = (forth, back)
    where
      test : String → Bool
      test r = matches_any P r (i ∷ is) && contains k (selected_by P s r)

      forth : contains k (gather P s (i ∷ is) (keys s)) ≡ true → IsSelected s (i ∷ is) k
      forth e =
          let found = any_found test (keys s) (sym (gather-any s (i ∷ is) (keys s) k) ∙ e) in
          let r = found.0 in
          inr (
            r,
            sym (contains-keys r s) ∙ found.1,
            ground (arith, found.2),
            ground (arith, found.2, contains-selected_by s r k, str_eq_iff k ""),
          )

      back : IsSelected s (i ∷ is) k → contains k (gather P s (i ∷ is) (keys s)) ≡ true
      back (inl e) = absurd (cc)
      back (inr (r, present, matched, reason)) =
          gather-any s (i ∷ is) (keys s) k
          ∙ any-of_contains test r (keys s) (contains-keys r s ∙ present)
              (ground (arith, contains-selected_by s r k, str_eq_iff k ""))

  filter-eq-ok :
      (s : Snapshot) (includes excludes : List String) {m : Snapshot}
      → filter_snapshot P s includes excludes ≡ ok m
      → m ≡ keep_keys (keeps P s includes excludes) s
  unfolding filter_snapshot
  filter-eq-ok s includes excludes h = ground arith

  -- What a filtered snapshot holds under a path.
  pub lookup-filter :
      (s : Snapshot) (includes excludes : List String) (k : String) {m : Snapshot}
      → filter_snapshot P s includes excludes ≡ ok m
      → lookup k m ≡ (if keeps P s includes excludes k then lookup k s else none)
  lookup-filter s includes excludes k h =
      rw (filter-eq-ok s includes excludes h) (lookup-keep_keys (keeps P s includes excludes) k s)

  -- `Filter` keeps exactly the paths of the snapshot that are selected and of which neither they
  -- nor a parent matches an exclude pattern.
  pub filter_iff :
      (s : Snapshot) (includes excludes : List String) (k : String) {m : Snapshot}
      → filter_snapshot P s includes excludes ≡ ok m
      → (has k m ≡ true) ↔ (
          (has k s ≡ true)
          × IsSelected s includes k
          × (any (λ a. matches_any P a excludes) (ancestors k) ≡ false))
  unfolding keeps excluded
  filter_iff s includes excludes k h =
      let e = lookup-filter s includes excludes k h in
      (
        λ p.
            let present : has k s ≡ true = ground (arith, e) in
            (present, (selected_iff s includes k present).0 (ground (arith, e)), ground (arith, e)),
        λ (present, chosen, free).
            let c = (selected_iff s includes k present).1 chosen in ground (arith, e),
      )
