-- ===== src/Sync/TwoWay/Paths.antt =====
-- internal/sync/bidirectional.go: `planBidirectionalPath` and its helpers.
use ocis_cli.Base.{String, ◌<>◌, Bool, true, false, not, ◌&&◌, ◌||◌, Option, none, some, is_some}
use ocis_cli.Base.{if◌then◌else◌, str_eq}
use ocis_cli.Sync.Platform.{Platform}
use ocis_cli.Sync.Entry.{Entry, Record, entry_present, equal}
use ocis_cli.Sync.State.{entry_or_zero}
use ocis_cli.Sync.Action.{
  ActionKind, create_directory, transfer, delete, skip, conflict, Side, no_side, local, remote,
  Action,
}

abbrev pub side_text : Side → String
side_text no_side = ""
side_text local = "local"
side_text remote = "remote"

unfoldable pub opposite_side : Side → Side
opposite_side local = remote
opposite_side _ = local

-- A missing entry is Go's zero entry, and its type is the empty text.
unfoldable pub bidirectional_action :
    ActionKind → String → Side → String → Option Entry → Option Entry → Bool → Action
bidirectional_action kind relative target reason source destination replace = record {
  action = kind;
  path = relative;
  from_path = "";
  target = target;
  type =
      if str_eq (entry_or_zero source).type ""
      then (entry_or_zero destination).type
      else (entry_or_zero source).type;
  reason = reason;
  replace = replace;
  source = entry_or_zero source;
  destination = entry_or_zero destination;
}

-- `propagateBidirectionalChange`
unfoldable pub propagate_change : String → Side → Option Entry → Option Entry → Action
unfolding bidirectional_action opposite_side
propagate_change relative changed none destination =
    bidirectional_action delete relative (opposite_side changed) (side_text changed <> " deletion")
      none destination false
propagate_change relative changed (some source) destination =
    bidirectional_action (if str_eq source.type "directory" then create_directory else transfer)
      relative (opposite_side changed) (side_text changed <> "-only change") (some source)
      destination (is_some destination && not (str_eq source.type (entry_or_zero destination).type))

-- `planBidirectionalRoot`
unfoldable pub plan_root : Option Entry → Option Entry → Action
unfolding bidirectional_action
plan_root (some l) (some r) =
    if not (str_eq l.type "directory") || not (str_eq r.type "directory")
    then bidirectional_action conflict "" no_side "sync roots must both be directories" (some l)
        (some r) false
    else bidirectional_action skip "" no_side "sync roots exist" (some l) (some r) false
plan_root (some l) none =
    bidirectional_action create_directory "" remote "remote sync root is missing" (some l) none
      false
plan_root none (some r) =
    bidirectional_action create_directory "" local "local sync root is missing" (some r) none false
plan_root none none =
    bidirectional_action conflict "" no_side "both sync roots are missing" none none false

module _ (P : Platform) where
  unfoldable pub entries_match : Option Entry → Option Entry → Bool
  entries_match none none = true
  entries_match (some l) (some r) = equal P l r
  entries_match _ _ = false

  unfoldable pub matches_baseline : Option Entry → Entry → Bool
  unfolding entry_present
  matches_baseline none baseline = not (entry_present baseline)
  matches_baseline (some current) baseline = entry_present baseline && equal P current baseline

  -- `planInitialBidirectionalPath`
  unfoldable pub plan_initial : String → Option Entry → Option Entry → Action
  unfolding propagate_change entries_match
  plan_initial relative l r =
      if is_some l && not (is_some r)
      then propagate_change relative local l r
      else if not (is_some l) && is_some r
      then propagate_change relative remote r l
      else if entries_match l r
      then bidirectional_action skip relative no_side "local and remote match" l r false
      else bidirectional_action conflict relative no_side
          "different pre-existing local and remote entries" l r false

  -- The part of `planBidirectionalPath` behind its two early returns.
  unfoldable pub plan_saved : String → Option Entry → Option Entry → Record → Action
  unfolding propagate_change matches_baseline entries_match
  plan_saved relative l r baseline =
      let local_changed = not (matches_baseline l baseline.source) in
      let remote_changed = not (matches_baseline r baseline.destination) in
      if entries_match l r
      then bidirectional_action skip relative no_side
          (if not (is_some l)
            then "deleted on both sides"
            else if local_changed && remote_changed
            then "both sides changed identically"
            else "local and remote match")
          l r false
      else if local_changed && not remote_changed
      then propagate_change relative local l r
      else if not local_changed && remote_changed
      then propagate_change relative remote r l
      else if local_changed && remote_changed
      then bidirectional_action conflict relative no_side "local and remote changed differently" l r
          false
      else bidirectional_action conflict relative no_side
          "local and remote differ from an inconsistent saved baseline" l r false

  unfoldable pub plan_bidirectional_path :
      String → Option Entry → Option Entry → Option Record → Action
  unfolding plan_root plan_initial plan_saved
  plan_bidirectional_path relative l r baseline =
      if str_eq relative "" then plan_root l r else elim baseline [
        | none ↦ plan_initial relative l r
        | some saved ↦ plan_saved relative l r saved
      ]
