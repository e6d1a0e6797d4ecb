-- ===== src/Sync/Action.antt =====
-- internal/sync/model.go: actions, plans, and the order in which a plan lists its actions.
pub mod Laws
use Prim.Native.Char.{Char, code}
use ocis_cli.Base.{ℕ, ◌+◌, String, Bool, true, false, not, List, [], ◌∷◌, ◌==◌, if◌then◌else◌}
use ocis_cli.Base.{ltb, str_lt, count_if}
use ocis_cli.Base.Sort.{sort_stable}
use ocis_cli.Sync.Errors.{Direction}
use ocis_cli.Sync.Entry.{Entry, no_entry}

pub data ActionKind : Type 0 where
  create_directory transfer move copy delete skip conflict : ActionKind

-- `no_side` is Go's empty string.
pub data Side : Type 0 where
  no_side local remote : Side

pub record Action : Type 0 where
  pub action : ActionKind
  pub path : String
  pub from_path : String
  pub target : Side
  pub type : String
  pub reason : String
  pub replace : Bool
  pub source : Entry
  pub destination : Entry

pub record Plan : Type 0 where
  pub direction : Direction
  pub actions : List Action
  pub conflicts : ℕ
  pub transfers : ℕ
  pub moves : ℕ
  pub copies : ℕ
  pub deletions : ℕ

-- Controls of destructive planning, and the selection of paths.
pub record Options : Type 0 where
  pub delete : Bool
  pub overwrite : Bool
  pub includes : List String
  pub excludes : List String

abbrev pub is_conflict : ActionKind → Bool
is_conflict conflict = true
is_conflict _ = false

abbrev pub is_transfer : ActionKind → Bool
is_transfer transfer = true
is_transfer _ = false

abbrev pub is_move : ActionKind → Bool
is_move move = true
is_move _ = false

abbrev pub is_copy : ActionKind → Bool
is_copy copy = true
is_copy _ = false

abbrev pub is_delete : ActionKind → Bool
is_delete delete = true
is_delete _ = false

abbrev pub is_skip : ActionKind → Bool
is_skip skip = true
is_skip _ = false

unfoldable pub action_rank : ActionKind → ℕ
action_rank conflict = 0
action_rank delete = 1
action_rank create_directory = 2
action_rank transfer = 3
action_rank move = 3
action_rank copy = 3
action_rank skip = 4

-- `strings.Count(p, "/")`, and `pathDepth`.
unfoldable pub path_depth : String → ℕ
path_depth String.[] = 0
path_depth (String.◌∷◌ c s) = (if code c == b'/' then 1 else 0) + path_depth s

-- The order of `sortActions` between actions of one rank: deletions go from the deepest path up.
unfoldable pub same_rank_less : Bool → ℕ → ℕ → String → String → Bool
same_rank_less deletes left_depth right_depth left right =
    if deletes
    then (if not (left_depth == right_depth) then ltb right_depth left_depth else str_lt left right)
    else if not (left_depth == right_depth)
    then ltb left_depth right_depth
    else str_lt left right

-- The order of `sortActions`.
unfoldable pub action_less : Action → Action → Bool
action_less left right =
    let left_rank = action_rank left.action in
    let right_rank = action_rank right.action in
    if not (left_rank == right_rank)
    then ltb left_rank right_rank
    else same_rank_less (is_delete left.action) (path_depth left.path) (path_depth right.path)
        left.path right.path

unfoldable pub sort_actions : List Action → List Action
unfolding action_less
sort_actions = sort_stable action_less

-- The counters of a new plan: the loop at the end of `Build`.
unfoldable pub tally : Action → Plan → Plan
tally a plan = elim a.action [
  | conflict ↦ record plan { conflicts = plan.conflicts + 1 }
  | transfer ↦ record plan { transfers = plan.transfers + 1 }
  | move ↦ record plan { moves = plan.moves + 1 }
  | copy ↦ record plan { copies = plan.copies + 1 }
  | delete ↦ record plan { deletions = plan.deletions + 1 }
  | _ ↦ plan
]

unfoldable pub tally_all : List Action → Plan → Plan
unfolding tally
tally_all [] plan = plan
tally_all (a ∷ rest) plan = tally_all rest (tally a plan)

unfoldable pub new_plan : Direction → List Action → Plan
new_plan direction actions = record {
  direction = direction;
  actions = actions;
  conflicts = 0;
  transfers = 0;
  moves = 0;
  copies = 0;
  deletions = 0;
}
