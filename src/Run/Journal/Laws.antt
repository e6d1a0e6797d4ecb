-- ===== src/Run/Journal/Laws.antt =====
-- internal/app/sync/bidirectional.go: what the journal of a run tells.
use ocis_cli.Base.{
  String, not, List, [], ◌∷◌, ◌++◌, Option, none, some, ◌≡◌, ◌≢◌, refl, ◌⊎◌, inl, inr,
}
use ocis_cli.Base.{keep, ◌∙◌, ap, sym}
use mathlib.Core.Path.{subst}
use mathlib.Core.List.{append-nil, append_assoc}
use ocis_cli.Base.Result.{ok, err}
use ocis_cli.Sync.Platform.{Platform}
use ocis_cli.Sync.Errors.{Direction}
use ocis_cli.Sync.Action.{Action, is_skip, is_conflict}
use ocis_cli.Run.Trees.{Trees, Failure, canceled, plan_with_conflicts, no_target, Outcome}
use ocis_cli.Run.Plans.{provided-holds, if-holds}
use ocis_cli.Run.Journal.{
  Journal, Recoveries, Recorded, recorded, and_later, target_direction, finish_action,
  apply_recorded, apply_bidirectional_sync_plan,
}

recorded-holds :
    {World : Type 0} (Q : Outcome (Recorded World) → Type 0) (o : Outcome World) (j : Journal)
    (next : World → Outcome (Recorded World))
    → ((w : World) (f : Failure) → Q ((w, j), err f))
    → ((w : World) → Q (next w))
    → Q (recorded o j next)
unfolding recorded
recorded-holds Q (w, err f) j next h k = h w f
recorded-holds Q (w, ok _) j next h k = k w

-- The actions that are to be carried out.
abbrev pub pending_actions : List Action → List Action
pending_actions actions = keep (λ (a : Action). not (is_skip a.action)) actions

module _ {World : Type 0} where
  -- What an action leaves in the journal: it is recorded, or the run failed.
  data Round (a : Action) (before : List Action) (o : Outcome (Recorded World)) : Type 0 where
    stopped : o.0.1.completed ≡ before → o.1 ≢ ok tt → Round a before o
    noted : o.0.1.completed ≡ before ++ (a ∷ []) → Round a before o

  -- What a run leaves in the journal: the actions done so far, in order, behind those before.
  abbrev pub Progress : List Action → List Action → Outcome (Recorded World) → Type 0
  Progress actions before o =
      (done : List Action) × (pending : List Action) × (done ++ pending ≡ pending_actions actions)
      × (o.0.1.completed ≡ before ++ done)
      × ((o.1 ≢ ok tt) ⊎ (pending ≡ []))

  none_done :
      (actions : List Action) (s : Recorded World) (f : Failure)
      → Progress actions s.1.completed (s, err f)
  none_done actions s f =
      ([], pending_actions actions, refl, sym (append-nil s.1.completed), inl (λ e. cc))

  later-Progress :
      (a : Action) (later before : List Action) (o : Outcome (Recorded World))
      (rest : Recorded World → Outcome (Recorded World))
      → pending_actions (a ∷ later) ≡ a ∷ pending_actions later
      → Round a before o
      → ((s : Recorded World) → Progress later s.1.completed (rest s))
      → Progress (a ∷ later) before (and_later o rest)
  unfolding and_later
  later-Progress a later before (s, err f) rest e (stopped c n) h =
      ([], pending_actions (a ∷ later), refl, c ∙ sym (append-nil before), inl (λ x. cc))
  later-Progress a later before (s, err f) rest e (noted c) h =
      (a ∷ [], pending_actions later, sym e, c, inl (λ x. cc))
  later-Progress a later before (s, ok _) rest e (stopped c n) h = absurd (n refl)
  later-Progress a later before (s, ok _) rest e (noted c) h =
      let (done, pending, split, all, finished) = h s in
      (
        a ∷ done,
        pending,
        ap (λ xs. a ∷ xs) split ∙ sym e,
        all ∙ ap (λ xs. xs ++ done) c ∙ append_assoc before (a ∷ []) done,
        finished,
      )

module _ (P : Platform) {World : Type 0} (T : Trees World) (R : Recoveries World)
    (local_root remote_root : String) where
  finish-Round :
      (direction : Direction) (a : Action) (j : Journal) (w : World)
      → Round a j.completed (finish_action P T R local_root remote_root direction a j w)
  unfolding finish_action
  finish-Round direction a j w =
      recorded-holds (Round a j.completed) _ j _ (λ w₁ f. stopped refl λ e. cc)
        (λ w₁. recorded-holds (Round a j.completed) _ _ _ (λ w₂ f. noted refl) (λ w₂. noted refl))

  apply-Round :
      (a : Action) (s : Recorded World)
      → Round a s.1.completed (apply_recorded P T R local_root remote_root a s)
  unfolding apply_recorded
  apply-Round a (w, j) =
      provided-holds (Round a j.completed) _ (w, j) _ (λ f _. stopped refl λ e. cc)
        (λ _.
          recorded-holds (Round a j.completed) _ _ _ (λ w₁ f. stopped refl λ e. cc)
            (λ w₁.
              toward w₁ (record j { current = some a; updated_at = R.now w }) refl
                (target_direction a.target)))
    where
      toward :
          (w₁ : World) (announced : Journal)
          → announced.completed ≡ j.completed
          → (d : Option Direction)
          → Round a j.completed (elim d [
            | none ↦ ((w₁, announced), err (no_target a.action a.path))
            | some direction ↦ finish_action P T R local_root remote_root direction a announced w₁
          ])
      toward w₁ announced e none = stopped e λ x. cc
      toward w₁ announced e (some direction) =
          subst
            (λ c. Round a c (finish_action P T R local_root remote_root direction a announced w₁)) e
            (finish-Round direction a announced w₁)

  -- Wherever a bidirectional run stops, the journal in memory has completed, behind what it had before, the
  -- first of the plan's actions that are not skipped, in the order of the plan, and all of them
  -- if the run succeeds.
  pub apply_bidirectional_sync_plan_recorded :
      (actions : List Action) (s : Recorded World)
      → Progress actions s.1.completed
          (apply_bidirectional_sync_plan P T R local_root remote_root actions s)
  unfolding apply_bidirectional_sync_plan
  apply_bidirectional_sync_plan_recorded [] s =
      ([], [], refl, sym (append-nil s.1.completed), inr refl)
  apply_bidirectional_sync_plan_recorded (a ∷ later) s =
      let Q = Progress (a ∷ later) s.1.completed in
      if-holds Q (T.is_canceled s.0) (λ _. none_done (a ∷ later) s canceled)
        (λ _.
          if-holds Q (is_skip a.action) (λ k. rw k (apply_bidirectional_sync_plan_recorded later s))
            (λ k.
              if-holds Q (is_conflict a.action) (λ _. none_done (a ∷ later) s plan_with_conflicts)
                (λ _.
                  later-Progress a later s.1.completed
                    (apply_recorded P T R local_root remote_root a s)
                    (apply_bidirectional_sync_plan P T R local_root remote_root later) (rw k refl)
                    (apply-Round a s) (apply_bidirectional_sync_plan_recorded later))))
