-- ===== src/Sync/Pattern/Order.antt =====
-- internal/sync/model.go: `Filter` does not depend on the order in which a map is iterated.
use ocis_cli.Base.{String, Bool, ◌&&◌, List, [], ◌∷◌}
use ocis_cli.Base.{keep-congr, any-congr, ◌≡◌, arith, ◌∙◌, sym}
use ocis_cli.Base.Map.{contains, has, keys, SameMap, contains-keys, any_same}
use ocis_cli.Base.Result.{ok}
use ocis_cli.GoPath.{ancestors}
use ocis_cli.Sync.Platform.{Platform}
use ocis_cli.Sync.Entry.{Snapshot}
use ocis_cli.Sync.Pattern.{matches_any, selected_by, selected, keeps, filter_snapshot}
use ocis_cli.Sync.Pattern.Laws.{gather-any, lookup-filter}

pub keys-same :
    (s t : Snapshot) → SameMap s t → (k : String) → contains k (keys s) ≡ contains k (keys t)
keys-same s t same k = ground (arith, contains-keys k s, contains-keys k t, same k)

module _ (P : Platform) (s t : Snapshot) (same : SameMap s t) where
  selected_by-same : (r : String) → selected_by P s r ≡ selected_by P t r
  unfolding selected_by
  selected_by-same r = ground (
    arith,
    same "",
    keep-congr (λ c. has c s) (λ c. has c t) (ancestors r) (λ c. ground (arith, same c)),
  )

  selected-same :
      (includes : List String) (k : String)
      → contains k (selected P s includes) ≡ contains k (selected P t includes)
  unfolding selected
  selected-same [] k = keys-same s t same k
  selected-same (i ∷ is) k =
      let test : String → Bool = λ r. matches_any P r (i ∷ is) && contains k (selected_by P s r) in
      let test' : String → Bool = λ r. matches_any P r (i ∷ is) && contains k (selected_by P t r) in
      gather-any P s (i ∷ is) (keys s) k
      ∙ any_same test (keys s) (keys t) (keys-same s t same)
      ∙ any-congr test test' (keys t) (λ r. rw (selected_by-same r))
      ∙ sym (gather-any P t (i ∷ is) (keys t) k)

  pub keeps-same :
      (includes excludes : List String) (k : String)
      → keeps P s includes excludes k ≡ keeps P t includes excludes k
  unfolding keeps
  keeps-same includes excludes k = ground (arith, selected-same includes k)

  -- Maps that no lookup tells apart filter into maps that no lookup tells apart.
  pub filter-same :
      (includes excludes : List String) {m n : Snapshot}
      → filter_snapshot P s includes excludes ≡ ok m
      → filter_snapshot P t includes excludes ≡ ok n
      → SameMap m n
  filter-same includes excludes h k x = ground (
    arith,
    lookup-filter P s includes excludes x h,
    lookup-filter P t includes excludes x k,
    keeps-same includes excludes x,
    same x,
  )
