-- ===== src/Run/Snapshots.antt =====
-- internal/app/sync/service.go: `snapshotLocal` and `snapshotRemote`, which take the snapshots that a
-- plan compares.
pub mod Laws
use ocis_cli.Base.{
  String, ◌<>◌, Bool, true, false, not, ◌&&◌, ◌||◌, List, [], ◌∷◌, Option, none, some, map,
  if◌then◌else◌,
}
use ocis_cli.Base.{ℕ, str_eq, str_lt, length}
use ocis_cli.Base.Int.{ℤ, pos, leb_ℤ}
use ocis_cli.Base.Result.{Result, ok, err, ◌>>=◌}
use ocis_cli.Base.Map.{Map}
use ocis_cli.Base.Sort.{sort_stable}
use ocis_cli.Sync.Platform.{Platform}
use ocis_cli.Sync.Errors.{Direction, push, pull}
use ocis_cli.Sync.Entry.{Entry, Snapshot, no_entry}
use ocis_cli.Run.Trees.{
  Failure, missing, canceled, too_many_entries, not_a_directory, unsupported_file, unsafe_name,
  unknown_sync_direction,
}
use ocis_cli.Run.Names.{join_names, has_separator}
use ocis_cli.Run.Verify.{is_missing}

-- What `filepath.WalkDir` and `entry.Info` report of one name.
pub data LocalKind : Type 0 where
  local_directory local_regular local_irregular : LocalKind

pub record LocalItem : Type 0 where
  -- `filepath.Rel` and `filepath.ToSlash`, "." for the root.
  pub relative : String
  -- `syncModified`
  pub modified : String
  pub kind : LocalKind
  pub size : ℤ
  pub checksum : Result Failure String

-- An error of the walk comes before the other checks, one of `filepath.Rel` or `Info` after them.
pub data LocalVisit : Type 0 where
  walk_failed info_failed : Failure → LocalVisit
  visited : LocalItem → LocalVisit

-- What the server tells of one resource.
pub record RemoteItem : Type 0 where
  pub name : String
  pub type : String
  pub size : ℤ
  pub last_modified : String
  pub etag : String
  -- Algorithms and values.
  pub checksums : List (String × String)

-- A resource with what `client.List` answers for it: the tree that the server shows to one scan.
mutual
  pub data RemoteNode : Type 0 where
    node : RemoteItem → Listing → RemoteNode

  pub data Listing : Type 0 where
    list_failed : Failure → Listing
    listed : RemoteNodes → Listing

  pub data RemoteNodes : Type 0 where
    no_nodes : RemoteNodes
    more_nodes : RemoteNode → RemoteNodes → RemoteNodes

-- `strings.ToLower`, and `http.ParseTime` followed by `syncModified`.
pub record RemoteText : Type 0 where
  pub to_lower : String → String
  pub http_modified : String → Option String

-- `m[k] = v`
unfoldable pub put {ℓ} : {V : Type ℓ} → String → V → Map V → Map V
put k v [] = (k, v) ∷ []
put k v ((j, u) ∷ m) = let rest = put k v m in if str_eq k j then (k, v) ∷ m else (j, u) ∷ rest

-- `len(result) >= maxEntries`
abbrev pub is_full : ℤ → Snapshot → Bool
is_full max_entries result = leb_ℤ max_entries (pos (length result))

abbrev pub local_relative : String → String
local_relative name = if str_eq name "." then "" else name

abbrev pub local_entry_of : String → LocalItem → Entry
local_entry_of type item = record no_entry {
  path = local_relative item.relative;
  type = type;
  modified = item.modified;
}

-- The entry of one name.
unfoldable pub local_value : LocalItem → Result Failure Entry
local_value item = elim item.kind [
  | local_directory ↦ ok (local_entry_of "directory" item)
  | local_regular ↦ item.checksum >>= λ sum.
      ok (record (local_entry_of "file" item) { size = item.size; checksum = sum })
  | local_irregular ↦ err (unsupported_file item.relative)
]

-- The calls of the function given to `WalkDir`, until one fails.
unfoldable pub walk_local : Bool → ℤ → List LocalVisit → Snapshot → Result Failure Snapshot
unfolding local_value
walk_local is_canceled max_entries [] result = ok result
walk_local is_canceled max_entries (walk_failed f ∷ later) result = err f
walk_local is_canceled max_entries (info_failed f ∷ later) result =
    if is_canceled
    then err canceled
    else if is_full max_entries result
    then err (too_many_entries max_entries)
    else err f
walk_local is_canceled max_entries (visited item ∷ later) result =
    let rest = walk_local is_canceled max_entries later in
    if is_canceled
    then err canceled
    else if is_full max_entries result
    then err (too_many_entries max_entries)
    else local_value item >>= λ value. rest (put (local_relative item.relative) value result)

-- `os.Lstat` of the root tells whether it is a directory.
unfoldable pub snapshot_local :
    Bool → Result Failure Bool → List LocalVisit → String → Bool → ℤ → Result Failure Snapshot
unfolding walk_local
snapshot_local is_canceled (err f) visits root allow_missing max_entries =
    if is_missing f && allow_missing then ok [] else err f
snapshot_local is_canceled (ok is_directory) visits root allow_missing max_entries =
    if not is_directory
    then err (not_a_directory root)
    else walk_local is_canceled max_entries visits []

unfoldable pub sha1_of : Platform → RemoteText → List (String × String) → String
sha1_of P R [] = ""
sha1_of P R ((algorithm, value) ∷ later) =
    let rest = sha1_of P R later in
    if P.equal_fold algorithm "SHA1" then "sha1:" <> R.to_lower value else rest

unfoldable pub remote_sync_entry : Platform → RemoteText → String → RemoteItem → Entry
unfolding sha1_of
remote_sync_entry P R relative item = record {
  path = relative;
  type = item.type;
  size = item.size;
  modified = elim (R.http_modified item.last_modified) [ none ↦ item.last_modified | some m ↦ m ];
  etag = item.etag;
  checksum = sha1_of P R item.checksums;
}

unfoldable pub validate_sync_remote_name : String → Result Failure (Unit {0})
unfolding has_separator
validate_sync_remote_name name =
    if str_eq name "" || str_eq name "." || str_eq name ".." || has_separator name
    then err (unsafe_name name)
    else ok tt

abbrev pub Visit : Type 0
Visit = Snapshot → Result Failure Snapshot

unfoldable pub run_visits : List (String × Visit) → Visit
run_visits [] result = ok result
run_visits ((_, visit) ∷ later) result = visit result >>= λ next. run_visits later next

abbrev pub by_name : String × Visit → String × Visit → Bool
by_name (a, _) (b, _) = str_lt a b

module _ (P : Platform) (R : RemoteText) (is_canceled : Bool) (max_entries : ℤ) where
  -- One round of the loop over the children; `descend` walks the child's own directory.
  unfoldable pub visit_child : RemoteItem → String → (String → Visit) → Visit
  unfolding validate_sync_remote_name remote_sync_entry
  visit_child item relative descend result =
      if is_full max_entries result
      then err (too_many_entries max_entries)
      else validate_sync_remote_name item.name >>= λ _.
          let child = join_names relative item.name in
          let next = put child (remote_sync_entry P R child item) result in
          if str_eq item.type "directory" then descend child next else ok next

  -- `walk`, and the rounds of its loop with the names that they are sorted by.
  unfoldable mutual
    pub walk_listing : Listing → String → Visit
    walk_listing (list_failed f) relative result = if is_canceled then err canceled else err f
    walk_listing (listed nodes) relative result =
        let rounds = visits_of nodes relative in
        if is_canceled then err canceled else run_visits (sort_stable by_name rounds) result

    pub visits_of : RemoteNodes → String → List (String × Visit)
    visits_of no_nodes relative = []
    visits_of (more_nodes (node item listing) later) relative =
        (item.name, visit_child item relative (walk_listing listing)) ∷ visits_of later relative

  unfoldable pub snapshot_remote :
      Result Failure RemoteNode → String → Bool → Result Failure Snapshot
  unfolding walk_listing
  snapshot_remote (err f) root allow_missing =
      if is_missing f && allow_missing then ok [] else err f
  snapshot_remote (ok (node item listing)) root allow_missing =
      if not (str_eq item.type "directory")
      then err (not_a_directory root)
      else walk_listing listing "" (("", remote_sync_entry P R "" item) ∷ [])
