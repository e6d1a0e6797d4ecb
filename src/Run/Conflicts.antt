-- ===== src/Run/Conflicts.antt =====
-- internal/app/sync/conflict.go: conflicts that are resolved by keeping both versions.
pub mod Outcomes
pub mod Laws
use Prim.Native.Char.{Char, code}
use ocis_cli.Base.{
  ℕ, String, ◌<>◌, Bool, true, false, not, ◌&&◌, ◌||◌, List, [], ◌∷◌, ◌++◌, Option, none, some,
  ◌==◌,
}
use ocis_cli.Base.{if◌then◌else◌, str_eq}
use ocis_cli.Base.Int.{ℤ}
use ocis_cli.Base.Map.{has}
use ocis_cli.Base.Result.{Result, ok, err, map_err, ◌>>=◌, ◌>>◌}
use ocis_cli.GoPath.{split_slash, join_slash}
use ocis_cli.Sync.Platform.{Platform}
use ocis_cli.Sync.Errors.{PlanError}
use ocis_cli.Sync.Entry.{Entry, Snapshot, no_entry}
use ocis_cli.Sync.Pattern.{filter_snapshot}
use ocis_cli.Sync.Action.{
  Action, ActionKind, copy, transfer, Side, local, remote, Plan, is_conflict, tally_all, new_plan,
}
use ocis_cli.Sync.TwoWay.Paths.{side_text}
use ocis_cli.Run.Names.{join_names}

-- Why a conflict is not resolved.
pub data ResolveError : Type 0 where
  not_ordinary copy_exists_locally copy_exists_remotely copy_excluded : String → ResolveError
  filter_failed : PlanError → ResolveError

-- The fields of `Request` that resolution reads.
pub record Resolution : Type 0 where
  pub conflict_strategy : String
  pub prefer : String
  pub includes : List String
  pub excludes : List String

-- SHA-256 in hexadecimal, of which the first eight digits are used, and `%d`.
pub record Printer : Type 0 where
  pub short_hash : String → String
  pub decimal : ℤ → String

-- The parts of a name in front of its last slash and behind it.
front_parts : List String → List String
front_parts [] = []
front_parts (x ∷ []) = []
front_parts (x ∷ y ∷ r) = x ∷ front_parts (y ∷ r)

last_part : List String → String
last_part [] = ""
last_part (x ∷ []) = x
last_part (x ∷ y ∷ r) = last_part (y ∷ r)

-- What begins with the last dot of a name.
unfoldable pub last_dot : String → Option String
last_dot String.[] = none
last_dot (String.◌∷◌ c s) =
    let later = last_dot s in
    elim later [ some e ↦ some e | none ↦ if code c == b'.' then some (String.◌∷◌ c s) else none ]

-- `path.Ext` of a name with no slash.
unfoldable pub extension : String → String
unfolding last_dot
extension name = elim (last_dot name) [ none ↦ "" | some e ↦ e ]

-- `strings.TrimSuffix(name, path.Ext(name))`
unfoldable pub stem : String → String
unfolding last_dot
stem String.[] = ""
stem (String.◌∷◌ c s) =
    let rest = stem s in
    elim (last_dot s) [
      | some e ↦ String.◌∷◌ c rest
      | none ↦ if code c == b'.' then "" else String.◌∷◌ c rest
    ]

module _ (H : Printer) where
  unfoldable pub sync_conflict_copy_path : String → Side → Entry → String
  unfolding front_parts last_part extension stem
  sync_conflict_copy_path relative side entry =
      let fingerprint =
        if not (str_eq entry.checksum "")
        then entry.checksum
        else if not (str_eq entry.etag "")
        then entry.etag
        else H.decimal entry.size <> ":" <> entry.modified in
      let suffix = H.short_hash (side_text side <> "\0" <> fingerprint) in
      let directory = join_slash (front_parts (split_slash relative)) in
      let name = last_part (split_slash relative) in
      join_names directory
        (stem name <> ".conflict-" <> side_text side <> "-" <> suffix <> extension name)

  -- The three actions for one conflict: the losing version is copied on its side, then to the
  -- other side, and the winning version replaces it.
  unfoldable pub keep_both : Side → Side → String → Action → Entry → Entry → List Action
  keep_both losing winning conflict_path a lost won =
      record {
        action = copy;
        path = conflict_path;
        from_path = a.path;
        target = losing;
        type = "file";
        reason = "preserve " <> side_text losing <> " conflict version";
        replace = false;
        source = lost;
        destination = no_entry;
      }
      ∷ record {
        action = transfer;
        path = conflict_path;
        from_path = conflict_path;
        target = winning;
        type = "file";
        reason =
            "copy preserved "
            <> side_text losing
            <> " conflict version "
            <> (if str_eq (side_text winning) "local" then "locally" else "remotely");
        replace = false;
        source = lost;
        destination = no_entry;
      }
      ∷ record {
        action = transfer;
        path = a.path;
        from_path = "";
        target = losing;
        type = "file";
        reason =
            "explicitly prefer "
            <> side_text winning
            <> " version after preserving "
            <> side_text losing;
        replace = false;
        source = won;
        destination = lost;
      }
      ∷ []

  module _ (P : Platform) (l r : Snapshot) (request : Resolution) where
    unfoldable pub ensure_available : String → Result ResolveError (Unit {0})
    ensure_available relative =
        if has relative l
        then err (copy_exists_locally relative)
        else if has relative r
        then err (copy_exists_remotely relative)
        else (map_err filter_failed (
              filter_snapshot P
                ((relative, record no_entry { path = relative; type = "file" }) ∷ [])
                request.includes request.excludes)
            >>= λ kept. if not (has relative kept) then err (copy_excluded relative) else ok tt)

    -- The path of the copy, named after the version that loses.
    unfoldable pub losing_copy_path : Action → String
    unfolding sync_conflict_copy_path
    losing_copy_path a =
        sync_conflict_copy_path a.path (if str_eq request.prefer "remote" then local else remote)
          (if str_eq request.prefer "remote" then a.source else a.destination)

    unfoldable pub prefer_one : String → Action → List Action
    unfolding keep_both
    prefer_one conflict_path a =
        if str_eq request.prefer "local"
        then keep_both remote local conflict_path a a.destination a.source
        else keep_both local remote conflict_path a a.source a.destination

    -- One conflict.
    unfoldable pub resolve_conflict : Action → Result ResolveError (List Action)
    unfolding losing_copy_path ensure_available prefer_one
    resolve_conflict a =
        if str_eq a.path ""
          || not (str_eq a.source.type "file")
          || not (str_eq a.destination.type "file")
        then err (not_ordinary a.path)
        else (ensure_available (losing_copy_path a) >> ok (prefer_one (losing_copy_path a) a))

    unfoldable pub resolve_actions : List Action → Result ResolveError (List Action)
    unfolding resolve_conflict
    resolve_actions [] = ok []
    resolve_actions (a ∷ later) =
        let rest = resolve_actions later in
        (if is_conflict a.action then resolve_conflict a else ok (a ∷ [])) >>= λ first.
        rest >>= λ more. ok (first ++ more)

    unfoldable pub resolve_bidirectional_conflicts : Plan → Result ResolveError Plan
    unfolding resolve_actions
    resolve_bidirectional_conflicts plan =
        if str_eq request.conflict_strategy ""
          || str_eq request.conflict_strategy "abort"
          || plan.conflicts == 0
        then ok plan
        else (resolve_actions plan.actions >>= λ actions.
            ok (tally_all actions (new_plan plan.direction actions)))
