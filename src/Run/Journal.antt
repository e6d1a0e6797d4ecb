-- ===== src/Run/Journal.antt =====
-- internal/app/sync/bidirectional.go: `applyBidirectionalSyncPlan`, and the recovery journal of
-- internal/syncrecovery/store.go that it keeps.
pub mod Laws
use ocis_cli.Base.{
  ℕ, String, Bool, true, false, not, List, [], ◌∷◌, ◌++◌, Option, none, some, ◌≡◌, ◌≢◌, refl, ◌⊎◌,
  inl, inr,
}
use ocis_cli.Base.{arith, Bool-cases, if◌then◌else◌, str_eq, ◌&&◌, keep, ◌∙◌, ap, sym}
use ocis_cli.Base.Result.{Result, ok, err, Result-cases, ◌>>=◌}
use ocis_cli.Base.Int.{ℤ}
use ocis_cli.Sync.Platform.{Platform}
use ocis_cli.Sync.Errors.{Direction, push, pull}
use ocis_cli.Sync.State.{Binding}
use ocis_cli.Sync.Action.{
  Action, ActionKind, Side, no_side, local, remote, Plan, is_skip, is_conflict, is_move, is_copy,
}
use ocis_cli.Run.Trees.{Trees, Failure, canceled, plan_with_conflicts, no_target, Outcome, provided}
use ocis_cli.Run.Names.{sync_local_path, sync_remote_path}
use ocis_cli.Run.Verify.{verify_remote_sync_entry, verify_local_sync_entry}
use ocis_cli.Run.Apply.{apply_sync_action}
use ocis_cli.Run.Plans.{provided-holds, if-holds}

pub data Status : Type 0 where
  running failed was_canceled in_conflict : Status

pub record Journal : Type 0 where
  pub version : ℕ
  pub id : String
  pub binding : Binding
  pub max_entries : ℤ
  pub started_at : ℕ
  pub updated_at : ℕ
  pub status : Status
  pub plan : Plan
  pub completed : List Action
  pub current : Option Action
  pub failure : String

-- The clock, `Binding.Key`, and the store of the journals.
pub record Recoveries (World : Type 0) : Type 0 where
  pub now : World → ℕ
  pub key : Binding → String
  pub save : Journal → World → Outcome World

abbrev pub current_version : ℕ
current_version = 1

unfoldable pub new_journal : (Binding → String) → Binding → ℤ → Plan → ℕ → Journal
new_journal key binding max_entries plan now = record {
  version = current_version;
  id = key binding;
  binding = binding;
  max_entries = max_entries;
  started_at = now;
  updated_at = now;
  status = running;
  plan = plan;
  completed = [];
  current = none;
  failure = "";
}

-- A run has the journal in memory beside the world.
abbrev pub Recorded : Type 0 → Type 0
Recorded World = World × Journal

-- What follows a call that can fail, with the journal in memory.
unfoldable pub recorded :
    {World : Type 0}
    → Outcome World
    → Journal
    → (World → Outcome (Recorded World))
    → Outcome (Recorded World)
recorded (w, err f) j next = ((w, j), err f)
recorded (w, ok _) j next = next w

-- The same behind the previous action.
unfoldable pub and_later :
    {World : Type 0}
    → Outcome (Recorded World)
    → (Recorded World → Outcome (Recorded World))
    → Outcome (Recorded World)
and_later (s, err f) next = (s, err f)
and_later (s, ok _) next = next s

-- The direction of an action by its target.
abbrev pub target_direction : Side → Option Direction
target_direction remote = some push
target_direction local = some pull
target_direction no_side = none

module _ (P : Platform) {World : Type 0} (T : Trees World) (R : Recoveries World) where
  unfoldable pub update_sync_recovery : Journal → Status → String → World → Outcome (Recorded World)
  update_sync_recovery j status failure w =
      let updated = record j { status = status; failure = failure; updated_at = R.now w } in
      recorded (R.save updated w) updated (λ w₁. ((w₁, updated), ok tt))

  unfoldable pub verify_source_precondition :
      String → String → Action → World → Result Failure (Unit {0})
  verify_source_precondition local_root remote_root a w =
      let source_path =
        if not (str_eq a.from_path "") && not (is_move a.action) then a.from_path else a.path in
      elim a.target [
        | remote ↦ sync_local_path T local_root source_path >>= λ name.
            verify_local_sync_entry P T w name a.source "source"
        | local ↦
            verify_remote_sync_entry P T w (sync_remote_path remote_root source_path) a.source
              "source"
        | no_side ↦ err (no_target a.action a.path)
      ]

  module _ (local_root remote_root : String) where
    -- The end of a round: the action is carried out and recorded.
    unfoldable pub finish_action : Direction → Action → Journal → World → Outcome (Recorded World)
    finish_action direction a j w =
        recorded (apply_sync_action P T direction local_root remote_root a w) j (λ w₁.
          let finished = record j {
            completed = j.completed ++ (a ∷ []);
            current = none;
            updated_at = R.now w₁;
          } in
          recorded (R.save finished w₁) finished (λ w₂. ((w₂, finished), ok tt)))

    -- One round of the loop: the source is checked, and the action announced.
    unfoldable pub apply_recorded : Action → Recorded World → Outcome (Recorded World)
    unfolding finish_action
    apply_recorded a (w, j) =
        provided
          (if not (is_copy a.action)
            then verify_source_precondition local_root remote_root a w
            else ok tt)
          (w, j)
          (λ _.
            let announced = record j { current = some a; updated_at = R.now w } in
            recorded (R.save announced w) announced (λ w₁. elim (target_direction a.target) [
              | none ↦ ((w₁, announced), err (no_target a.action a.path))
              | some direction ↦ finish_action direction a announced w₁
            ]))

    unfoldable pub apply_bidirectional_sync_plan :
        List Action → Recorded World → Outcome (Recorded World)
    unfolding apply_recorded
    apply_bidirectional_sync_plan [] s = (s, ok tt)
    apply_bidirectional_sync_plan (a ∷ later) s =
        let rest = apply_bidirectional_sync_plan later in
        if T.is_canceled s.0
        then (s, err canceled)
        else if is_skip a.action
        then rest s
        else if is_conflict a.action
        then (s, err plan_with_conflicts)
        else and_later (apply_recorded a s) rest
