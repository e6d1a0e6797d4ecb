-- ===== src/Sync/OneWay.antt =====
-- internal/sync/model.go: `planPath` and `Build`, the one-way planner.
pub mod Paths
pub mod Safety
pub mod Plans
pub mod Determinism
use ocis_cli.Base.{String, Bool, true, false, not, ◌&&◌, ◌||◌, List, [], ◌∷◌, Option, none, some}
use ocis_cli.Base.{if◌then◌else◌, str_eq, is_some}
use ocis_cli.Base.Map.{Map, lookup}
use ocis_cli.Base.Result.{Result, ok, err, ◌>>=◌, ◌>>◌}
use ocis_cli.Sync.Platform.{Platform}
use ocis_cli.Sync.Errors.{Direction, push, pull, PlanError, unknown_direction, panic_empty_path}
use ocis_cli.Sync.Entry.{Entry, Snapshot, Record, no_entry, entry_present, equal}
use ocis_cli.Sync.Pattern.{filter_snapshot}
use ocis_cli.Sync.State.{State, union_paths, saved_entries}
use ocis_cli.Sync.Action.{
  ActionKind, create_directory, transfer, delete, skip, conflict, no_side, Action, Plan, Options,
  sort_actions, tally_all, new_plan,
}

-- An action of `planPath`, which leaves `FromPath` and `Target` empty.
abbrev pub one_way : String → Entry → Entry → String → ActionKind → String → Bool → Action
one_way relative source destination type kind reason replace = record {
  action = kind;
  path = relative;
  from_path = "";
  target = no_side;
  type = type;
  reason = reason;
  replace = replace;
  source = source;
  destination = destination;
}

abbrev pub saved_destination : Option Record → Entry
saved_destination none = no_entry
saved_destination (some r) = r.destination

abbrev pub saved_source : Option Record → Entry
saved_source none = no_entry
saved_source (some r) = r.source

-- `sourceExists && !destinationExists`
unfoldable pub plan_missing : String → Entry → Option Record → Options → Action
unfolding entry_present
plan_missing relative source baseline options =
    let act = λ (kind : ActionKind) (reason : String).
      one_way relative source no_entry source.type kind reason false in
    if is_some baseline && entry_present (saved_destination baseline) && not options.overwrite
    then act conflict "destination was deleted after the previous sync"
    else if str_eq source.type "directory"
    then act create_directory "destination directory is missing"
    else act transfer "destination file is missing"

abbrev pub is_one_way : Direction → Bool
is_one_way push = true
is_one_way pull = true
is_one_way _ = false

module _ (P : Platform) where
  -- `!sourceExists && destinationExists`
  unfoldable pub plan_extra : String → Entry → Option Record → Options → Action
  plan_extra relative destination baseline options =
      let act = λ (kind : ActionKind) (reason : String).
        one_way relative no_entry destination destination.type kind reason false in
      if not options.delete
      then act skip "destination-only item kept; use --delete to remove it"
      else if is_some baseline
          && not (equal P destination (saved_destination baseline))
          && not options.overwrite
      then act conflict "destination changed after the source was removed"
      else act delete "destination-only item"

  -- Both exist, with different types.
  unfoldable pub plan_types : String → Entry → Entry → Options → Action
  plan_types relative source destination options =
      let act = λ (kind : ActionKind) (reason : String).
        one_way relative source destination source.type kind reason in
      if not options.overwrite
      then act conflict "source and destination types differ" false
      else if str_eq source.type "file" && str_eq destination.type "directory" && not options.delete
      then act conflict "replacing a directory with a file also requires --delete" false
      else act (if str_eq source.type "directory" then create_directory else transfer)
          "replace destination with source type" true

  -- Both exist, with one type and different content, and a baseline is saved.
  unfoldable pub plan_changed : String → Entry → Entry → Record → Options → Action
  plan_changed relative source destination baseline options =
      let act = λ (kind : ActionKind) (reason : String).
        one_way relative source destination source.type kind reason false in
      let source_changed = not (equal P source baseline.source) in
      let destination_changed = not (equal P destination baseline.destination) in
      if source_changed && not destination_changed
      then act transfer "source changed"
      else if not options.overwrite
      then act conflict (
          if source_changed && destination_changed
          then "source and destination both changed"
          else if destination_changed
          then "destination changed independently"
          else "current trees differ from the saved baseline")
      else act transfer "overwrite destination conflict"

  -- `sourceExists && destinationExists`
  unfoldable pub plan_both : String → Entry → Entry → Option Record → Options → Action
  unfolding plan_types plan_changed
  plan_both relative source destination baseline options =
      let act = λ (kind : ActionKind) (reason : String).
        one_way relative source destination source.type kind reason false in
      if equal P source destination
      then act skip "source and destination match"
      else if not (str_eq source.type destination.type)
      then plan_types relative source destination options
      else elim baseline [
        | none ↦
            if not options.overwrite
            then act conflict "different pre-existing source and destination"
            else act transfer "overwrite different pre-existing destination"
        | some saved ↦ plan_changed relative source destination saved options
      ]

  -- `none` is the panic.
  unfoldable pub plan_path :
      String → Option Entry → Option Entry → Option Record → Options → Option Action
  unfolding plan_missing plan_extra plan_both
  plan_path relative (some s) none baseline options =
      some (plan_missing relative s baseline options)
  plan_path relative none (some d) baseline options = some (plan_extra relative d baseline options)
  plan_path relative (some s) (some d) baseline options =
      some (plan_both relative s d baseline options)
  plan_path relative none none baseline options = none

  -- The loop over the paths.
  unfoldable pub plan_paths :
      Snapshot → Snapshot → Map Record → Options → List String → Result PlanError (List Action)
  plan_paths source destination saved options [] = ok []
  plan_paths source destination saved options (k ∷ ks) =
      let rest = plan_paths source destination saved options ks in
      elim (plan_path k (lookup k source) (lookup k destination) (lookup k saved) options) [
        | none ↦ err panic_empty_path
        | some a ↦ rest >>= λ actions. ok (a ∷ actions)
      ]

  -- `Build`, behind the check of the direction.
  unfoldable pub build_checked :
      Direction → Snapshot → Snapshot → Option State → Options → Result PlanError Plan
  build_checked direction source destination previous options = do
    source' ← filter_snapshot P source options.includes options.excludes
    destination' ← filter_snapshot P destination options.includes options.excludes
    actions ←
        plan_paths source' destination' (saved_entries previous) options
          (union_paths source' destination')
    let sorted = sort_actions actions
    ok (tally_all sorted (new_plan direction sorted))

  unfoldable pub build :
      Direction → Snapshot → Snapshot → Option State → Options → Result PlanError Plan
  build direction source destination previous options =
      if is_one_way direction
      then build_checked direction source destination previous options
      else err (unknown_direction direction)
