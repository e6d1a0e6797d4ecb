-- ===== src/Run/Snapshots/Laws.antt =====
-- internal/app/sync/service.go: what a snapshot holds.
use ocis_cli.Base.{◌+◌, ◌≤◌, String, Bool, false, List, [], ◌∷◌, ◌≡◌, refl, arith, All, length}
use ocis_cli.Base.{inl, inr, Bool-cases, str_eq}
use ocis_cli.Base.Int.{ℤ, pos, ◌≤ℤ◌}
use ocis_cli.Base.Result.{Result, ok, err, Result-cases}
use ocis_cli.Base.Map.{Map}
use ocis_cli.Base.Sort.{sort_stable, sort_stable-All}
use ocis_cli.Sync.Platform.{Platform}
use ocis_cli.Sync.Entry.{Entry, Snapshot}
use ocis_cli.Run.Trees.{Failure}
use ocis_cli.Run.Names.{join_names}
use ocis_cli.Run.Snapshots.{
  LocalItem, LocalVisit, walk_failed, info_failed, visited, RemoteItem, RemoteNode, Listing,
  RemoteNodes, node, list_failed, listed, no_nodes, more_nodes, RemoteText, put, is_full,
  local_relative, local_value, walk_local, snapshot_local, remote_sync_entry,
  validate_sync_remote_name, Visit, run_visits, by_name, visit_child, walk_listing, visits_of,
  snapshot_remote,
}

put-All {ℓ κ} :
    {V : Type ℓ} (Q : String × V → Type κ) (k : String) (v : V) (m : Map V)
    → Q (k, v)
    → All Q m
    → All Q (put k v m)
unfolding put
put-All Q k v [] q h = (q, tt)
put-All Q k v ((j, u) ∷ m) q h = elim (Bool-cases (str_eq k j)) [
  | inl e ↦ rw e (q, h.1)
  | inr e ↦ rw e (h.0, put-All Q k v m q h.1)
]

length-put {ℓ} : {V : Type ℓ} (k : String) (v : V) (m : Map V) → length (put k v m) ≤ length m + 1
unfolding put
length-put k v [] = omega arith
length-put k v ((j, u) ∷ m) = ground (arith, length-put k v m)

-- Each entry has its path for a key, and there are no more entries than the request allows.
abbrev pub IsBounded : ℤ → Snapshot → Type 0
IsBounded max_entries s =
    (pos (length s) ≤ℤ max_entries) × All (λ ((k, e) : String × Entry). e.path ≡ k) s

module _ (max_entries : ℤ) where
  put-IsBounded :
      (k : String) (e : Entry) (s : Snapshot)
      → e.path ≡ k
      → is_full max_entries s ≡ false
      → IsBounded max_entries s
      → IsBounded max_entries (put k e s)
  put-IsBounded k e s p f (b, h) = (
    ground (arith, length-put k e s, f),
    put-All (λ ((k, e) : String × Entry). e.path ≡ k) k e s p h,
  )

  -- A step keeps the bound.
  Keeps : Visit → Type 0
  Keeps visit =
      (s m : Snapshot) → IsBounded max_entries s → visit s ≡ ok m → IsBounded max_entries m

  local_value-path :
      (item : LocalItem) (e : Entry)
      → local_value item ≡ ok e
      → e.path ≡ local_relative item.relative
  unfolding local_value
  local_value-path item e h = ground arith

  walk_local-Keeps :
      (is_canceled : Bool) (visits : List LocalVisit)
      → Keeps (walk_local is_canceled max_entries visits)
  unfolding walk_local Keeps
  walk_local-Keeps c [] s m b h = let e : s ≡ m = cc in rw (← e) b
  walk_local-Keeps c (walk_failed f ∷ later) s m b h = absurd (ground arith)
  walk_local-Keeps c (info_failed f ∷ later) s m b h = absurd (ground arith)
  walk_local-Keeps c (visited item ∷ later) s m b h = elim (Bool-cases (is_full max_entries s)) [
    | inl f ↦ absurd (ground arith)
    | inr f ↦ elim (Result-cases (local_value item)) [
      | inl (x, e) ↦ absurd (ground arith)
      | inr (value, e) ↦
          walk_local-Keeps c later (put (local_relative item.relative) value s) m
            (put-IsBounded (local_relative item.relative) value s (local_value-path item value e) f
              b)
            (ground arith)
    ]
  ]

  run_visits-Keeps :
      (visits : List (String × Visit))
      → All (λ ((_, v) : String × Visit). Keeps v) visits
      → Keeps (run_visits visits)
  unfolding run_visits Keeps
  run_visits-Keeps [] a s m b h = let e : s ≡ m = cc in rw (← e) b
  run_visits-Keeps ((k, v) ∷ later) a s m b h = elim (Result-cases (v s)) [
    | inl (x, e) ↦ absurd (ground arith)
    | inr (n, e) ↦ run_visits-Keeps later a.1 n m (a.0 s n b e) (ground arith)
  ]

  module _ (P : Platform) (R : RemoteText) (is_canceled : Bool) where
    remote_entry-path :
        (child : String) (item : RemoteItem) → (remote_sync_entry P R child item).path ≡ child
    unfolding remote_sync_entry
    remote_entry-path child item = refl

    visit_child-Keeps :
        (item : RemoteItem) (relative : String) (descend : String → Visit)
        → ((child : String) → Keeps (descend child))
        → Keeps (visit_child P R is_canceled max_entries item relative descend)
    unfolding visit_child Keeps
    visit_child-Keeps item relative descend d s m b h =
        let child = join_names relative item.name in
        let next = put child (remote_sync_entry P R child item) s in
        elim (Bool-cases (is_full max_entries s)) [
          | inl f ↦ absurd (ground arith)
          | inr f ↦
              let bounded =
                put-IsBounded child (remote_sync_entry P R child item) s
                  (remote_entry-path child item) f b in
              elim (Result-cases (validate_sync_remote_name item.name)) [
                | inl (x, e) ↦ absurd (ground arith)
                | inr (_, e) ↦ elim (Bool-cases (str_eq item.type "directory")) [
                  | inl t ↦ d child next m bounded (ground arith)
                  | inr t ↦ let same : next ≡ m = ground arith in rw (← same) bounded
                ]
              ]
        ]

    listed-Keeps :
        (nodes : RemoteNodes) (relative : String)
        → All
            (λ ((_, v) : String × Visit). Keeps v)
            (visits_of P R is_canceled max_entries nodes relative)
        → Keeps (walk_listing P R is_canceled max_entries (listed nodes) relative)
    unfolding walk_listing Keeps
    listed-Keeps nodes relative a s m b h =
        let rounds = visits_of P R is_canceled max_entries nodes relative in
        elim (Bool-cases is_canceled) [
          | inl c ↦ absurd (cc (rw c at h))
          | inr c ↦
              run_visits-Keeps (sort_stable by_name rounds)
                (sort_stable-All by_name (λ ((_, v) : String × Visit). Keeps v) rounds a) s m b
                (rw c at h)
        ]

    failed-Keeps :
        (f : Failure) (relative : String)
        → Keeps (walk_listing P R is_canceled max_entries (list_failed f) relative)
    unfolding walk_listing Keeps
    failed-Keeps f relative s m b h = absurd (ground arith)

    mutual
      unfolding walk_listing

      walk_listing-Keeps :
          (l : Listing) (relative : String)
          → Keeps (walk_listing P R is_canceled max_entries l relative)
      walk_listing-Keeps (list_failed f) relative = failed-Keeps f relative
      walk_listing-Keeps (listed nodes) relative =
          listed-Keeps nodes relative (visits_of-Keeps nodes relative)

      visits_of-Keeps :
          (ns : RemoteNodes) (relative : String)
          → All
              (λ ((_, v) : String × Visit). Keeps v)
              (visits_of P R is_canceled max_entries ns relative)
      visits_of-Keeps no_nodes relative = tt
      visits_of-Keeps (more_nodes (node item l) later) relative = (
        visit_child-Keeps item relative (walk_listing P R is_canceled max_entries l)
            (walk_listing-Keeps l),
        visits_of-Keeps later relative,
      )

    -- Where a request allows at least one entry, a remote snapshot has no more entries than it
    -- allows, and holds each entry under the entry's own path.
    pub snapshot_remote-IsBounded :
        (root : Result Failure RemoteNode) (name : String) (allow_missing : Bool) {m : Snapshot}
        → pos 1 ≤ℤ max_entries
        → snapshot_remote P R is_canceled max_entries root name allow_missing ≡ ok m
        → IsBounded max_entries m
    unfolding snapshot_remote Keeps
    snapshot_remote-IsBounded (err f) name allow_missing {m} one h =
        let e : m ≡ [] = ground arith in rw e (ground (arith, one), tt)
    snapshot_remote-IsBounded (ok (node item l)) name allow_missing {m} one h =
        let start : Snapshot = ("", remote_sync_entry P R "" item) ∷ [] in
        walk_listing-Keeps l "" start m (ground (arith, one), (remote_entry-path "" item, tt))
          (ground arith)

  -- Where a request allows at least one entry, a local snapshot has no more entries than it
  -- allows, and holds each entry under the entry's own path.
  pub snapshot_local-IsBounded :
      (is_canceled : Bool) (root : Result Failure Bool) (visits : List LocalVisit) (name : String)
      (allow_missing : Bool) {m : Snapshot}
      → pos 1 ≤ℤ max_entries
      → snapshot_local is_canceled root visits name allow_missing max_entries ≡ ok m
      → IsBounded max_entries m
  unfolding snapshot_local Keeps
  snapshot_local-IsBounded c (err f) visits name allow_missing {m} one h =
      let e : m ≡ [] = ground arith in rw e (ground (arith, one), tt)
  snapshot_local-IsBounded c (ok d) visits name allow_missing {m} one h =
      walk_local-Keeps c visits [] m (ground (arith, one), tt) (ground arith)
