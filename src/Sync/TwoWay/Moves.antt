-- ===== src/Sync/TwoWay/Moves.antt =====
-- internal/sync/bidirectional.go: `detectBidirectionalFileMoves` and its helper.
use ocis_cli.Base.{ℕ, zero, suc, ◌<>◌, Bool, true, false, not, ◌&&◌, List, [], ◌∷◌}
use ocis_cli.Base.{Option, none, some, if◌then◌else◌, str_eq, count_if, keep, ◌==◌}
use ocis_cli.Base.Map.{Map, lookup, has}
use ocis_cli.Sync.Platform.{Platform}
use ocis_cli.Sync.Entry.{Entry, Snapshot, Record, entry_present, equal}
use ocis_cli.Sync.State.{State}
use ocis_cli.Sync.Action.{move, skip, Side, no_side, local, remote, Action, is_delete, is_transfer}
use ocis_cli.Sync.TwoWay.Subtrees.{saved_or_zero, side_snapshot}

pub record MoveCandidate : Type 0 where
  pub index : ℕ
  pub entry : Entry

abbrev pub same_side : Side → Side → Bool
same_side no_side no_side = true
same_side local local = true
same_side remote remote = true
same_side _ _ = false

-- `actions[i]`
abbrev pub action_at : ℕ → List Action → Option Action
action_at i [] = none
action_at zero (a ∷ rest) = some a
action_at (suc i) (a ∷ rest) = action_at i rest

-- An assignment to fields of `actions[i]`.
abbrev pub update_at : ℕ → (Action → Action) → List Action → List Action
update_at i f [] = []
update_at zero f (a ∷ rest) = f a ∷ rest
update_at (suc i) f (a ∷ rest) = a ∷ update_at i f rest

-- The entry by which a removed file is recognized: the one that the other side saved.
abbrev pub removed_entry : Side → Record → Entry
removed_entry remote r = r.source
removed_entry _ r = r.destination

unfoldable pub is_removed : Side → Map Record → Action → Bool
is_removed target saved a =
    same_side a.target target
    && str_eq a.type "file"
    && is_delete a.action
    && entry_present (removed_entry target (saved_or_zero (lookup a.path saved)))

unfoldable pub is_added : Side → Action → Bool
is_added target a =
    same_side a.target target
    && str_eq a.type "file"
    && is_transfer a.action
    && not (entry_present a.destination)

unfoldable pub removed_from : Side → Map Record → ℕ → List Action → List MoveCandidate
unfolding is_removed
removed_from target saved i [] = []
removed_from target saved i (a ∷ rest) =
    let later = removed_from target saved (suc i) rest in
    if is_removed target saved a
    then record { index = i; entry = removed_entry target (saved_or_zero (lookup a.path saved)) }
      ∷ later
    else later

unfoldable pub added_from : Side → ℕ → List Action → List MoveCandidate
unfolding is_added
added_from target i [] = []
added_from target i (a ∷ rest) =
    let later = added_from target (suc i) rest in
    if is_added target a then record { index = i; entry = a.source } ∷ later else later

-- The assignments to the action that becomes a move.
abbrev pub renamed : Action → Action → Action
renamed from to = record to {
  action = move;
  from_path = from.path;
  destination = from.destination;
  reason = "rename detected from " <> from.path;
}

-- The assignments to the deletion that the move takes over.
abbrev pub handled : Action → Action → Action
handled to from = record from {
  action = skip;
  target = no_side;
  reason = "handled by rename to " <> to.path;
}

module _ (P : Platform) where
  -- `moveFingerprintMatchesOtherAddition`
  unfoldable pub matches_other_addition : List MoveCandidate → Entry → Bool
  matches_other_addition additions fingerprint =
      not (count_if (λ (c : MoveCandidate). equal P c.entry fingerprint) additions == 1)

  -- One round of the loop over the additions, when exactly one removed file matches.
  unfoldable pub take_move :
      Snapshot → List MoveCandidate → MoveCandidate → MoveCandidate → List Action → List Action
  unfolding matches_other_addition
  take_move current added destination source actions =
      if matches_other_addition added source.entry
      then actions
      else elim (action_at source.index actions) [
        | none ↦ actions
        | some from ↦ elim (action_at destination.index actions) [
          | none ↦ actions
          | some to ↦
              if has to.path current
              then actions
              else update_at source.index (handled to)
                  (update_at destination.index (renamed from) actions)
        ]
      ]

  -- The loop over the additions.
  unfoldable pub take_moves :
      Snapshot
      → List MoveCandidate
      → List MoveCandidate
      → List MoveCandidate
      → List Action
      → List Action
  unfolding take_move
  take_moves current removed added [] actions = actions
  take_moves current removed added (destination ∷ later) actions =
      take_moves current removed added later
        (elim (keep (λ (c : MoveCandidate). equal P destination.entry c.entry) removed) [
          | [] ↦ actions
          | source ∷ others ↦ elim others [
            | [] ↦ take_move current added destination source actions
            | _ ↦ actions
          ]
        ])

  -- The two passes of the outer loop.
  unfoldable pub detect_for : Side → Snapshot → Snapshot → Map Record → List Action → List Action
  unfolding take_moves removed_from added_from
  detect_for target l r saved actions =
      let added = added_from target 0 actions in
      take_moves (side_snapshot target l r) (removed_from target saved 0 actions) added added
        actions

  unfoldable pub detect_file_moves : List Action → Snapshot → Snapshot → Option State → List Action
  unfolding detect_for
  detect_file_moves actions l r none = actions
  detect_file_moves actions l r (some previous) =
      detect_for remote l r previous.entries (detect_for local l r previous.entries actions)
