-- ===== src/Sync/TwoWay/Subtrees.antt =====
-- internal/sync/bidirectional.go: `protectChangedBidirectionalSubtrees` and its helpers.
use Prim.Native.Char.{code}
use ocis_cli.Base.{String, ◌<>◌, Bool, true, false, not, ◌&&◌, ◌||◌, List, [], ◌∷◌, ◌++◌, Option}
use ocis_cli.Base.{none, some, if◌then◌else◌, str_eq, str_lt, any, keep, map, ◌==◌, ltb}
use ocis_cli.Base.Map.{Map, lookup, keys}
use ocis_cli.Base.Sort.{sort_stable}
use ocis_cli.Sync.Platform.{Platform}
use ocis_cli.Sync.Entry.{Entry, Snapshot, Record, no_record}
use ocis_cli.Sync.State.{State}
use ocis_cli.Sync.Action.{
  skip, conflict, Side, no_side, local, remote, Action, is_delete, is_conflict, path_depth,
}
use ocis_cli.Sync.TwoWay.Paths.{matches_baseline, side_text}

-- What is left of a text behind a prefix.
unfoldable pub after_prefix : String → String → Option String
after_prefix String.[] s = some s
after_prefix (String.◌∷◌ c p) String.[] = none
after_prefix (String.◌∷◌ c p) (String.◌∷◌ d s) =
    let rest = after_prefix p s in if code c == code d then rest else none

-- `len(s) > len(prefix) && s[:len(prefix)] == prefix`
unfoldable pub extends : String → String → Bool
unfolding after_prefix
extends prefix s = elim (after_prefix prefix s) [ none ↦ false | some rest ↦ not (str_eq rest "") ]

unfoldable pub is_descendant : String → String → Bool
unfolding extends
is_descendant relative parent =
    if str_eq parent "" then not (str_eq relative "") else extends (parent <> "/") relative

abbrev pub is_local : Side → Bool
is_local local = true
is_local _ = false

-- `previous.Entries[relative]`
abbrev pub saved_or_zero : Option Record → Record
saved_or_zero none = no_record
saved_or_zero (some r) = r

-- The entry that the baseline holds for one side.
abbrev pub side_entry : Side → Record → Entry
side_entry side r = if is_local side then r.source else r.destination

-- The tree of one side.
abbrev pub side_snapshot : Side → Snapshot → Snapshot → Snapshot
side_snapshot side l r = if is_local side then l else r

unfoldable pub is_destructive_directory : Action → Bool
is_destructive_directory a =
    (is_delete a.action && str_eq a.type "directory")
    || (a.replace && str_eq a.destination.type "directory")

-- The order in which the conflict parents are tried.
abbrev pub shallower : String → String → Bool
shallower p q =
    if not (path_depth p == path_depth q) then ltb (path_depth p) (path_depth q) else str_lt p q

unfoldable pub find_first : (String → Bool) → List String → Option String
find_first test [] = none
find_first test (x ∷ xs) = if test x then some x else find_first test xs

-- The second loop: what stands below a conflict is skipped.
unfoldable pub shield : List String → Action → Action
unfolding find_first is_descendant
shield parents a =
    if is_conflict a.action then a else elim (find_first (is_descendant a.path) parents) [
      | none ↦ a
      | some parent ↦ record a {
        action = skip;
        target = no_side;
        replace = false;
        reason = "blocked by directory conflict at " <> parent;
      }
    ]

module _ (P : Platform) where
  -- `bidirectionalSubtreeChanged`
  unfoldable pub subtree_changed : String → Snapshot → Map Record → Side → Bool
  unfolding extends
  subtree_changed directory current saved side =
      any
        (λ k.
          extends (directory <> "/") k
          && not (
              matches_baseline P (lookup k current)
                (side_entry side (saved_or_zero (lookup k saved)))))
        (keys current ++ keys saved)

  module _ (l r : Snapshot) (saved : Map Record) where
    -- A destructive directory action whose target changed below the directory. The side of the
    -- baseline is local for a local target, and remote otherwise.
    unfoldable pub is_blocked : Action → Bool
    unfolding is_destructive_directory subtree_changed
    is_blocked a =
        is_destructive_directory a
        && subtree_changed a.path (side_snapshot a.target l r) saved
            (if is_local a.target then local else remote)

    -- The first loop.
    unfoldable pub block : Action → Action
    unfolding is_blocked
    block a =
        if is_blocked a
        then record a {
          action = conflict;
          target = no_side;
          replace = false;
          reason =
              side_text a.target
              <> " subtree changed after the other side removed or replaced its directory";
        }
        else a

    unfoldable pub conflict_parents : List Action → List String
    unfolding is_blocked
    conflict_parents actions =
        sort_stable shallower (map (λ (a : Action). a.path) (keep is_blocked actions))

  unfoldable pub protect_changed_subtrees :
      List Action → Snapshot → Snapshot → Option State → List Action
  unfolding block conflict_parents shield
  protect_changed_subtrees actions l r none = actions
  protect_changed_subtrees actions l r (some previous) =
      map (shield (conflict_parents l r previous.entries actions))
        (map (block l r previous.entries) actions)
