-- ===== src/Sync/OneWay/Determinism.antt =====
-- internal/sync/model.go: `Build` is deterministic, whatever order Go iterates its maps in.
use ocis_cli.Base.{String, List, [], ◌∷◌, Option, ◌≡◌, refl, arith, ◌⊎◌, inl, inr}
use ocis_cli.Base.Map.{Map, SameMap, keep_keys}
use ocis_cli.Base.Result.{ok, err, Result-cases}
use ocis_cli.Sync.Platform.{Platform}
use ocis_cli.Sync.Errors.{Direction, PlanError, include_pattern, exclude_pattern}
use ocis_cli.Sync.Entry.{Snapshot, Record}
use ocis_cli.Sync.Pattern.{filter_snapshot, validate_patterns, keeps}
use ocis_cli.Sync.Pattern.Order.{filter-same}
use ocis_cli.Sync.State.{State, union_paths, saved_entries}
use ocis_cli.Sync.State.Laws.{union_paths-same}
use ocis_cli.Sync.Action.{Options}
use ocis_cli.Sync.OneWay.{build, build_checked, plan_paths}

module _ (P : Platform) where
  -- Whether the filter fails depends on the patterns alone.
  pub filter_same_error :
      (s t : Snapshot) (includes excludes : List String)
      → ((e : PlanError) × (filter_snapshot P s includes excludes ≡ err e)
          × (filter_snapshot P t includes excludes ≡ err e))
        ⊎ ((m : Snapshot) × (n : Snapshot) × (filter_snapshot P s includes excludes ≡ ok m)
            × (filter_snapshot P t includes excludes ≡ ok n))
  unfolding filter_snapshot
  filter_same_error s t includes excludes = elim (Result-cases (validate_patterns P includes)) [
    | inl (e, p) ↦ inl (include_pattern e, rw (p, filter_snapshot), rw (p, filter_snapshot))
    | inr (u, p) ↦ elim (Result-cases (validate_patterns P excludes)) [
      | inl (e, q) ↦ inl (exclude_pattern e, ground (arith, p, q), ground (arith, p, q))
      | inr (v, q) ↦ inr (
        keep_keys (keeps P s includes excludes) s,
        keep_keys (keeps P t includes excludes) t,
        ground (arith, p, q),
        ground (arith, p, q),
      )
    ]
  ]

  plan_paths-same :
      (s s' d d' : Snapshot) (b b' : Map Record) (o : Options) (ks : List String)
      → SameMap s s'
      → SameMap d d'
      → SameMap b b'
      → plan_paths P s d b o ks ≡ plan_paths P s' d' b' o ks
  unfolding plan_paths
  plan_paths-same s s' d d' b b' o [] p q r = refl
  plan_paths-same s s' d d' b b' o (k ∷ ks) p q r =
      rw (p k, q k, r k, plan_paths) (ground (arith, plan_paths-same s s' d d' b b' o ks p q r))

  -- Trees and states that no lookup tells apart give the same plan or the same error: the plan
  -- does not depend on the order in which the maps are iterated.
  pub build_deterministic :
      (direction : Direction) (s s' d d' : Snapshot) (previous previous' : Option State)
      (o : Options)
      → SameMap s s'
      → SameMap d d'
      → SameMap (saved_entries previous) (saved_entries previous')
      → build P direction s d previous o ≡ build P direction s' d' previous' o
  unfolding build build_checked
  build_deterministic direction s s' d d' previous previous' o p q r =
      elim (filter_same_error s s' o.includes o.excludes) [
        | inl (e, h, h') ↦ ground arith
        | inr (m, m', h, h') ↦ elim (filter_same_error d d' o.includes o.excludes) [
          | inl (e, k, k') ↦ ground arith
          | inr (n, n', k, k') ↦
              let same_m = filter-same P s s' p o.includes o.excludes h h' in
              let same_n = filter-same P d d' q o.includes o.excludes k k' in
              ground (
                arith,
                union_paths-same m m' n n' same_m same_n,
                plan_paths-same m m' n n' (saved_entries previous) (saved_entries previous') o
                    (union_paths m' n') same_m same_n r,
              )
        ]
      ]
