-- ===== src/Run/Difference.antt =====
-- internal/app/sync/bidirectional.go: `firstSyncSnapshotDifference`, the check after a run.
use ocis_cli.Base.{
  String, Bool, true, false, not, List, [], ◌∷◌, ◌++◌, Option, none, some, ◌≡◌, refl, ◌∙◌,
}
use ocis_cli.Base.{◌⊎◌, ◌↔◌, inl, inr, arith, Bool-cases, str_eq, str_lt, str_eq_iff, is_some, ◌||◌}
use ocis_cli.Base.Map.{lookup, keys, contains}
use ocis_cli.Base.Sets.{IsAscending, above_contains, sorted_set-IsAscending}
use ocis_cli.Sync.Platform.{Platform}
use ocis_cli.Sync.Entry.{Entry, Snapshot, converged}
use ocis_cli.Sync.State.{union_paths}
use ocis_cli.Sync.State.Laws.{contains-union_paths}
use ocis_cli.Sync.TwoWay.Subtrees.{find_first}

module _ (P : Platform) where
  -- The test of the loop, on the entries under one path.
  unfoldable pub entries_differ : Option Entry → Option Entry → Bool
  entries_differ none none = false
  entries_differ (some l) (some r) = not (converged P l r)
  entries_differ _ _ = true

  unfoldable pub differs_at : Snapshot → Snapshot → String → Bool
  unfolding entries_differ
  differs_at local remote k = entries_differ (lookup k local) (lookup k remote)

  -- The empty text stands for no difference.
  unfoldable pub first_sync_snapshot_difference : Snapshot → Snapshot → String
  unfolding differs_at
  first_sync_snapshot_difference local remote =
      elim (find_first (differs_at local remote) (union_paths local remote)) [
        | none ↦ ""
        | some relative ↦ relative
      ]

find_first-cases :
    (test : String → Bool) (xs : List String)
    → ((find_first test xs ≡ none) × ((k : String) → contains k xs ≡ true → test k ≡ false))
      ⊎ ((r : String) × (find_first test xs ≡ some r) × (test r ≡ true))
unfolding find_first
find_first-cases test [] = inl (refl, λ k m. absurd (ground arith))
find_first-cases test (x ∷ xs) = elim (Bool-cases (test x)) [
  | inl e ↦ inr (x, rw e refl, e)
  | inr e ↦ elim (find_first-cases test xs) [
    | inl (n, all) ↦ inl (
      rw e n,
      λ k m. elim (Bool-cases (str_eq k x)) [
        | inl s ↦ rw ((str_eq_iff k x).0 s) e
        | inr s ↦ all k (ground arith)
      ],
    )
    | inr (r, f, t) ↦ inr (r, rw e f, t)
  ]
]

nothing_below : (s : String) → str_lt s "" ≡ false
unfolding str_lt
nothing_below String.[] = refl
nothing_below (String.◌∷◌ c s) = refl

-- The empty path is the first of the paths.
find_first-root :
    (test : String → Bool) (xs : List String)
    → IsAscending xs
    → contains "" xs ≡ true
    → test "" ≡ true
    → find_first test xs ≡ some ""
unfolding find_first
find_first-root test [] a m t = absurd (ground arith)
find_first-root test (x ∷ xs) a m t = elim (Bool-cases (str_eq "" x)) [
  | inl e ↦ rw (← (str_eq_iff "" x).0 e, t) refl
  | inr e ↦
      let below = above_contains x "" xs a.0 (ground arith) in absurd (cc (below, nothing_below x))
]

module _ (P : Platform) (local remote : Snapshot) where
  -- A path at which the trees differ is a path of one of them.
  differs-contains :
      (k : String)
      → differs_at P local remote k ≡ true
      → contains k (union_paths local remote) ≡ true
  unfolding differs_at
  differs-contains k d =
      contains-union_paths local remote k ∙ present (lookup k local) (lookup k remote) d
    where
      present : (l r : Option Entry) → entries_differ P l r ≡ true → (is_some l || is_some r) ≡ true
      present none none h = absurd (unfold entries_differ in ground (arith, h))
      present (some l) r h = refl
      present none (some r) h = refl

  paths-IsAscending : IsAscending (union_paths local remote)
  unfolding union_paths
  paths-IsAscending = sorted_set-IsAscending (keys local ++ keys remote)

  -- The check after a run finds no difference exactly when the two trees converged at every path,
  -- or when they differ at the root, whose path is the empty text that stands for no difference.
  pub first_sync_snapshot_difference_iff : (first_sync_snapshot_difference P local remote ≡ "") ↔ (
      (differs_at P local remote "" ≡ true) ⊎ ((k : String) → differs_at P local remote k ≡ false))
  unfolding first_sync_snapshot_difference
  first_sync_snapshot_difference_iff = (forth, back)
    where
      paths : List String
      paths = union_paths local remote

      forth :
          first_sync_snapshot_difference P local remote ≡ ""
          → (differs_at P local remote "" ≡ true)
            ⊎ ((k : String) → differs_at P local remote k ≡ false)
      forth h = elim (find_first-cases (differs_at P local remote) paths) [
        | inl (n, all) ↦ inr λ k. elim (Bool-cases (differs_at P local remote k)) [
          | inl d ↦ absurd (cc (all k (differs-contains k d), d))
          | inr d ↦ d
        ]
        | inr (r, f, t) ↦ inl (rw (rw (f, first_sync_snapshot_difference) at h) at t)
      ]

      back :
          (differs_at P local remote "" ≡ true)
            ⊎ ((k : String) → differs_at P local remote k ≡ false)
          → first_sync_snapshot_difference P local remote ≡ ""
      back (inl d) =
          rw
            (
              find_first-root (differs_at P local remote) paths paths-IsAscending
                  (differs-contains "" d) d,
              first_sync_snapshot_difference,
            )
            refl
      back (inr all) = elim (find_first-cases (differs_at P local remote) paths) [
        | inl (n, _) ↦ rw (n, first_sync_snapshot_difference) refl
        | inr (r, f, t) ↦ absurd (cc (all r, t))
      ]
