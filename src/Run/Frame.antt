-- ===== src/Run/Frame.antt =====
-- internal/app/sync/service.go: a plan is carried out on one tree only, and not if it has conflicts.
use ocis_cli.Base.{
  String, true, false, List, [], ◌∷◌, ◌≡◌, refl, sym, inl, inr, arith, any, All, ◌≢◌,
}
use ocis_cli.Base.{Bool-cases, str_eq}
use ocis_cli.Base.Result.{ok}
use ocis_cli.Sync.Platform.{Platform}
use ocis_cli.Sync.Errors.{Direction}
use ocis_cli.Sync.Action.{
  Action, ActionKind, delete, create_directory, transfer, move, copy, skip, conflict, is_skip,
  is_conflict, is_move, is_copy,
}
use ocis_cli.Sync.Action.Laws.{InOrder, MayPrecede, place}
use ocis_cli.Run.Trees.{Trees, Call, changes_remote, Outcome}
use ocis_cli.Run.Apply.{
  is_push, apply_sync_copy, apply_sync_move, change_local, apply_locally, change_remote,
  apply_remotely, apply_named, apply_sync_action, apply_sync_plan,
}
use ocis_cli.Run.Plans.{provided-holds, with_local-holds, and_then-kept, if-holds}

module _ (P : Platform) {World : Type 0} (T : Trees World) (direction : Direction)
    (local_root remote_root : String) (Q : World → Type 0)
    (calls_keep : (c : Call) (w : World)
      → changes_remote c ≡ is_push direction
      → Q w
      → Q (T.perform c w).0) where
  Holds : Outcome World → Type 0
  Holds o = Q o.0

  change_local-kept :
      is_push direction ≡ false
      → (remote_source local : String) (a : Action) (w : World) → Q w
      → Q (change_local P T remote_source local a w).0
  unfolding change_local
  change_local-kept d remote_source local a w q = go a.action refl
    where
      go : (kind : ActionKind) → a.action ≡ kind → Q (change_local P T remote_source local a w).0
      go delete e = rw e (calls_keep _ w (sym d) q)
      go create_directory e = rw e (calls_keep _ w (sym d) q)
      go transfer e =
          rw e (and_then-kept Q _ _ (calls_keep _ w (sym d) q) (λ w₁. calls_keep _ w₁ (sym d)))
      go move e = rw e q
      go copy e = rw e q
      go skip e = rw e q
      go conflict e = rw e q

  apply_locally-kept :
      is_push direction ≡ false
      → (remote_source local : String) (a : Action) (w : World) → Q w
      → Q (apply_locally P T remote_source local a w).0
  unfolding apply_locally Holds
  apply_locally-kept d remote_source local a w q =
      provided-holds Holds _ w _ (λ f _. q)
        (λ _.
          and_then-kept Q _ _ (if-holds Holds a.replace (λ _. calls_keep _ w (sym d) q) (λ _. q))
            (change_local-kept d remote_source local a))

  change_remote-kept :
      is_push direction ≡ true
      → (local_source remote_source local remote : String) (a : Action) (w : World)
      → is_skip a.action ≡ false
      → is_conflict a.action ≡ false
      → is_move a.action ≡ false
      → is_copy a.action ≡ false
      → Q w
      → Q (change_remote P T local_source remote_source local remote a w).0
  unfolding change_remote
  change_remote-kept d local_source remote_source local remote a w s c m y q = go a.action refl
    where
      go :
          (kind : ActionKind)
          → a.action ≡ kind
          → Q (change_remote P T local_source remote_source local remote a w).0
      go delete e = rw e (calls_keep _ w (sym d) q)
      go create_directory e = rw e (calls_keep _ w (sym d) q)
      go transfer e = rw e (calls_keep _ w (sym d) q)
      go move e = absurd (ground arith)
      go copy e = absurd (ground arith)
      go skip e = absurd (ground arith)
      go conflict e = absurd (ground arith)

  apply_remotely-kept :
      is_push direction ≡ true
      → (local_source remote_source local remote : String) (a : Action) (w : World)
      → is_skip a.action ≡ false
      → is_conflict a.action ≡ false
      → is_move a.action ≡ false
      → is_copy a.action ≡ false
      → Q w
      → Q (apply_remotely P T local_source remote_source local remote a w).0
  unfolding apply_remotely Holds
  apply_remotely-kept d local_source remote_source local remote a w s c m y q =
      provided-holds Holds _ w _ (λ f _. q)
        (λ _.
          and_then-kept Q _ _ (if-holds Holds a.replace (λ _. calls_keep _ w (sym d) q) (λ _. q))
            (λ w₁. change_remote-kept d local_source remote_source local remote a w₁ s c m y))

  move-kept :
      (local remote : String) (a : Action) (w : World)
      → Q w
      → Q (apply_sync_move P T direction local_root remote_root local remote a w).0
  unfolding apply_sync_move Holds
  move-kept local remote a w q =
      if-holds Holds (str_eq a.from_path "") (λ _. q)
        (λ _.
          if-holds Holds (is_push direction)
            (λ d.
              provided-holds Holds _ w _ (λ f _. q)
                (λ _. provided-holds Holds _ w _ (λ f _. q) (λ _. calls_keep _ w (sym d) q)))
            (λ d.
              with_local-holds Holds _ w _ (λ f. q)
                (λ _ _.
                  provided-holds Holds _ w _ (λ f _. q)
                    (λ _.
                      provided-holds Holds _ w _ (λ f _. q)
                        (λ _.
                          and_then-kept Q _ _ (calls_keep _ w (sym d) q)
                            (λ w₁. calls_keep _ w₁ (sym d)))))))

  copy-kept :
      (local_source remote_source local remote : String) (a : Action) (w : World)
      → Q w
      → Q (apply_sync_copy P T direction local_source remote_source local remote a w).0
  unfolding apply_sync_copy Holds
  copy-kept local_source remote_source local remote a w q =
      if-holds Holds (str_eq a.from_path "") (λ _. q)
        (λ _.
          if-holds Holds (is_push direction)
            (λ d.
              provided-holds Holds _ w _ (λ f _. q)
                (λ _. provided-holds Holds _ w _ (λ f _. q) (λ _. calls_keep _ w (sym d) q)))
            (λ d.
              provided-holds Holds _ w _ (λ f _. q)
                (λ _. provided-holds Holds _ w _ (λ f _. q) (λ _. calls_keep _ w (sym d) q))))

  pub action-kept :
      (a : Action) (w : World)
      → is_skip a.action ≡ false
      → is_conflict a.action ≡ false
      → Q w
      → Q (apply_sync_action P T direction local_root remote_root a w).0
  unfolding apply_sync_action apply_named Holds
  action-kept a w s c q =
      with_local-holds Holds _ w _ (λ f. q)
        (λ local _.
          with_local-holds Holds _ w _ (λ f. q)
            (λ local_source _.
              if-holds Holds (is_move a.action) (λ _. move-kept local _ a w q)
                (λ m.
                  if-holds Holds (is_copy a.action) (λ _. copy-kept local_source _ local _ a w q)
                    (λ y.
                      if-holds Holds (is_push direction)
                        (λ d. apply_remotely-kept d local_source _ local _ a w s c m y q)
                        (λ d. apply_locally-kept d _ local a w q)))))

  -- A push changes the remote tree only, and a pull the local tree only: what all calls that
  -- change that one tree preserve, the run of a plan preserves, wherever it stops.
  pub apply_sync_plan_frame :
      (actions : List Action) (w : World)
      → Q w
      → Q (apply_sync_plan P T direction local_root remote_root actions w).0
  unfolding apply_sync_plan Holds
  apply_sync_plan_frame [] w q = q
  apply_sync_plan_frame (a ∷ later) w q =
      if-holds Holds (T.is_canceled w) (λ _. q)
        (λ _.
          if-holds Holds (is_skip a.action) (λ _. apply_sync_plan_frame later w q)
            (λ s.
              if-holds Holds (is_conflict a.action) (λ _. q)
                (λ c. and_then-kept Q _ _ (action-kept a w s c q) (apply_sync_plan_frame later))))

place-conflict : (kind : ActionKind) → is_conflict kind ≡ true → place kind ≡ 0
place-conflict kind h = ground arith

conflict-place : (kind : ActionKind) → place kind ≡ 0 → is_conflict kind ≡ true
conflict-place conflict h = refl
conflict-place delete h = absurd (omega (arith, h))
conflict-place create_directory h = absurd (omega (arith, h))
conflict-place transfer h = absurd (omega (arith, h))
conflict-place move h = absurd (omega (arith, h))
conflict-place copy h = absurd (omega (arith, h))
conflict-place skip h = absurd (omega (arith, h))

conflict-skip : (kind : ActionKind) → is_conflict kind ≡ true → is_skip kind ≡ false
conflict-skip kind h = ground arith

before_conflict :
    (a : Action) (later : List Action)
    → All (MayPrecede a) later
    → any (λ (b : Action). is_conflict b.action) later ≡ true
    → place a.action ≡ 0
before_conflict a [] o h = absurd (ground arith)
before_conflict a (b ∷ rest) o h = elim (Bool-cases (is_conflict b.action)) [
  | inl e ↦ ground (arith, place-conflict b.action e, o.0)
  | inr e ↦ before_conflict a rest o.1 (ground arith)
]

-- A plan in order that has a conflict begins with one.
conflict_first :
    (a : Action) (later : List Action)
    → InOrder (a ∷ later)
    → any (λ (b : Action). is_conflict b.action) (a ∷ later) ≡ true
    → is_conflict a.action ≡ true
conflict_first a later o h = elim (Bool-cases (is_conflict a.action)) [
  | inl e ↦ e
  | inr e ↦ conflict-place a.action (before_conflict a later o.0 (ground arith))
]

module _ (P : Platform) {World : Type 0} (T : Trees World) (direction : Direction)
    (local_root remote_root : String) where
  -- The run of a plan in order that has a conflict changes nothing and fails.
  pub apply_sync_plan_refused :
      (actions : List Action) (w : World)
      → InOrder actions
      → any (λ (a : Action). is_conflict a.action) actions ≡ true
      → ((apply_sync_plan P T direction local_root remote_root actions w).0 ≡ w)
        × ((apply_sync_plan P T direction local_root remote_root actions w).1 ≢ ok tt)
  unfolding apply_sync_plan
  apply_sync_plan_refused [] w o h = absurd (ground arith)
  apply_sync_plan_refused (a ∷ later) w o h =
      let c = conflict_first a later o h in
      elim (Bool-cases (T.is_canceled w)) [
        | inl e ↦ ground arith
        | inr e ↦ ground (arith, conflict-skip a.action c)
      ]
