-- ===== src/Sync/TwoWay.antt =====
-- internal/sync/bidirectional.go: the three-way planner.
pub mod Paths
pub mod Subtrees
pub mod Moves
pub mod PathLaws
pub mod SubtreeLaws
pub mod MoveLaws
pub mod MoveSafety
pub mod MovePass
pub mod Plans
use Paths.{plan_bidirectional_path}
use Subtrees.{protect_changed_subtrees}
use Moves.{detect_file_moves}
use ocis_cli.Base.{String, ◌+◌, List, [], ◌∷◌, ◌++◌, Option, map}
use ocis_cli.Base.Map.{lookup, keys}
use ocis_cli.Base.Sets.{sorted_set}
use ocis_cli.Base.Result.{Result, ok, err, ◌>>=◌, ◌>>◌}
use ocis_cli.Sync.Platform.{Platform}
use ocis_cli.Sync.Errors.{bidirectional, PlanError}
use ocis_cli.Sync.Entry.{Snapshot}
use ocis_cli.Sync.Pattern.{filter_snapshot}
use ocis_cli.Sync.Identity.{validate_path_identity}
use ocis_cli.Sync.State.{State, saved_entries}
use ocis_cli.Sync.Action.{
  Action, Plan, Options, sort_actions, new_plan, conflict, transfer, move, delete,
}

-- `bidirectionalPaths`
unfoldable pub bidirectional_paths : Snapshot → Snapshot → Option State → List String
bidirectional_paths local remote previous =
    sorted_set ((keys local ++ keys remote) ++ keys (saved_entries previous))

-- The counters of `BuildBidirectional`, which has no case for copies.
unfoldable pub tally_bidirectional : Action → Plan → Plan
tally_bidirectional a plan = elim a.action [
  | conflict ↦ record plan { conflicts = plan.conflicts + 1 }
  | transfer ↦ record plan { transfers = plan.transfers + 1 }
  | move ↦ record plan { moves = plan.moves + 1 }
  | delete ↦ record plan { deletions = plan.deletions + 1 }
  | _ ↦ plan
]

unfoldable pub tally_bidirectional_all : List Action → Plan → Plan
unfolding tally_bidirectional
tally_bidirectional_all [] plan = plan
tally_bidirectional_all (a ∷ rest) plan = tally_bidirectional_all rest (tally_bidirectional a plan)

module _ (P : Platform) where
  -- The actions of `BuildBidirectional` before they are sorted.
  unfoldable pub bidirectional_actions : Snapshot → Snapshot → Option State → List Action
  bidirectional_actions local remote previous =
      let planned =
        map
          (λ k.
            plan_bidirectional_path P k (lookup k local) (lookup k remote)
              (lookup k (saved_entries previous)))
          (bidirectional_paths local remote previous) in
      detect_file_moves P (protect_changed_subtrees P planned local remote previous) local remote
        previous

  unfoldable pub build_bidirectional :
      Snapshot → Snapshot → Option State → Options → Result PlanError Plan
  build_bidirectional local remote previous options = do
    local' ← filter_snapshot P local options.includes options.excludes
    remote' ← filter_snapshot P remote options.includes options.excludes
    validate_path_identity P local' remote'
    let sorted = sort_actions (bidirectional_actions local' remote' previous)
    ok (tally_bidirectional_all sorted (new_plan bidirectional sorted))
