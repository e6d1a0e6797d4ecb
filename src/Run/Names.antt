-- ===== src/Run/Names.antt =====
-- internal/app/sync: the names that a run uses, `syncLocalPath`, `syncRemotePath` and `cleanRemote`.
pub mod Trim
use Prim.Native.Char.{Char, code}
use ocis_cli.Base.{String, ◌<>◌, Bool, ◌&&◌, ◌||◌, not, none, some, is_some, ◌==◌}
use ocis_cli.Base.{false, if◌then◌else◌, str_eq}
use ocis_cli.Base.Result.{Result, ok, err}
use ocis_cli.GoPath.{clean_parts, is_rooted, split_slash}
use ocis_cli.Sync.Entry.{Entry}
use ocis_cli.Sync.Pattern.{is_space}
use ocis_cli.Sync.TwoWay.Subtrees.{after_prefix}
use ocis_cli.Run.Trees.{Trees, Failure, escapes_root, call_failed}

trim_left : (Char → Bool) → String → String
trim_left test String.[] = ""
trim_left test (String.◌∷◌ c s) =
    let rest = trim_left test s in if test c then rest else String.◌∷◌ c s

trim_right : (Char → Bool) → String → String
trim_right test String.[] = ""
trim_right test (String.◌∷◌ c s) =
    let rest = trim_right test s in if test c && str_eq rest "" then "" else String.◌∷◌ c rest

-- `strings.TrimFunc`
unfoldable pub trim : (Char → Bool) → String → String
unfolding trim_left trim_right
trim test s = trim_right test (trim_left test s)

-- `path.Clean`
unfoldable pub clean : String → String
clean p = clean_parts (is_rooted p) (split_slash p)

-- `path.Join` of two names, of which the second is not empty.
unfoldable pub join_names : String → String → String
unfolding clean
join_names root relative = clean (if str_eq root "" then relative else root <> "/" <> relative)

unfoldable pub clean_remote : String → String
unfolding trim clean
clean_remote remote =
    let name = trim is_space remote in
    if str_eq name "" || str_eq name "/"
    then "/"
    else clean ("/" <> trim (λ c. code c == b'/') name)

unfoldable pub sync_remote_path : String → String → String
unfolding join_names clean_remote
sync_remote_path root relative =
    if str_eq relative "" then clean_remote root else clean_remote (join_names root relative)

unfoldable pub sync_expected_etag : Entry → String
sync_expected_etag entry = if not (str_eq entry.type "file") then "" else entry.etag

-- `strings.ContainsAny(name, "/\\")`
unfoldable pub has_separator : String → Bool
has_separator String.[] = false
has_separator (String.◌∷◌ c s) = code c == b'/' || code c == b'\\' || has_separator s

module _ {World : Type 0} (T : Trees World) where
  unfoldable pub sync_local_path : String → String → Result Failure String
  sync_local_path root relative =
      let target = T.join_local root relative in
      elim (T.relative_to root target) [
        | none ↦ err (call_failed "filepath.Rel")
        | some within ↦
            if str_eq within ".." || is_some (after_prefix (".." <> T.separator) within)
            then err (escapes_root relative)
            else ok target
      ]
