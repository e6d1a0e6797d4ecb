-- ===== src/Run/Session/Kept.antt =====
-- internal/app/sync: what the steps of a run preserve of the world.
use ocis_cli.Base.{String, Bool, true, false, List, [], ◌∷◌, Option, none, some, ◌≡◌, refl}
use ocis_cli.Base.{if◌then◌else◌}
use ocis_cli.Base.Result.{Result, ok, err}
use ocis_cli.Sync.Platform.{Platform}
use ocis_cli.Sync.Errors.{Direction}
use ocis_cli.Sync.Action.{Action, is_skip, is_conflict}
use ocis_cli.Run.Trees.{Trees, Failure, Call, Outcome, provided}
use ocis_cli.Run.Plans.{provided-holds}
use ocis_cli.Run.Frame.{action-kept}
use ocis_cli.Run.Journal.{
  Journal, Recoveries, Recorded, recorded, and_later, target_direction, finish_action,
  apply_recorded, apply_bidirectional_sync_plan, update_sync_recovery,
}
use ocis_cli.Run.Session.Collect.{RunError, Ended, reading, doing, handling, ignoring}

pub if-ends {ℓ κ} :
    {A : Type ℓ} (Q : A → Type κ) (test : Bool) {x y : A}
    → (test ≡ true → Q x)
    → (test ≡ false → Q y)
    → Q (if test then x else y)
if-ends Q true h k = h refl
if-ends Q false h k = k refl

module _ {World : Type 0} (Q : Ended World → Type 0) where
  pub reading-ends :
      {E A : Type 0} (r : Result E A) (wrap : E → RunError) (w : World) (next : A → Ended World)
      → ((e : E) → Q (w, err (wrap e)))
      → ((a : A) → r ≡ ok a → Q (next a))
      → Q (reading r wrap w next)
  unfolding reading
  reading-ends (err e) wrap w next h k = h e
  reading-ends (ok a) wrap w next h k = k a refl

  pub doing-ends :
      (o : Outcome World) (wrap : Failure → RunError) (next : World → Ended World)
      → ((f : Failure) → Q (o.0, err (wrap f)))
      → (o.1 ≡ ok tt → Q (next o.0))
      → Q (doing o wrap next)
  unfolding doing
  doing-ends (w, err f) wrap next h k = h f
  doing-ends (w, ok _) wrap next h k = k refl

  pub handling-ends :
      {State : Type 0} (o : Outcome State) (failed : State → Failure → Ended World)
      (next : State → Ended World)
      → ((f : Failure) → Q (failed o.0 f))
      → (o.1 ≡ ok tt → Q (next o.0))
      → Q (handling o failed next)
  unfolding handling
  handling-ends (s, err f) failed next h k = h f
  handling-ends (s, ok _) failed next h k = k refl

  pub ignoring-ends :
      (o : Outcome World) (next : World → Ended World) → Q (next o.0) → Q (ignoring o next)
  unfolding ignoring
  ignoring-ends (w, r) next h = h

-- What is kept of the world by a step with a journal in memory.
abbrev KeptIn : {World : Type 0} → (World → Type 0) → Outcome (Recorded World) → Type 0
KeptIn Q o = Q o.0.0

-- What a step with a journal in memory preserves of the world.
module _ {World : Type 0} (Q : World → Type 0) where
  pub recorded-kept :
      (o : Outcome World) (j : Journal) (next : World → Outcome (Recorded World))
      → Q o.0
      → (Q o.0 → Q (next o.0).0.0)
      → Q (recorded o j next).0.0
  unfolding recorded
  recorded-kept (w, err f) j next q k = q
  recorded-kept (w, ok _) j next q k = k q

  pub and_later-kept :
      (o : Outcome (Recorded World)) (next : Recorded World → Outcome (Recorded World))
      → Q o.0.0
      → ((s : Recorded World) → Q s.0 → Q (next s).0.0)
      → Q (and_later o next).0.0
  unfolding and_later
  and_later-kept (s, err f) next q k = q
  and_later-kept (s, ok _) next q k = k s q

module _ (P : Platform) {World : Type 0} (T : Trees World) (R : Recoveries World)
    (Q : World → Type 0) (calls_keep : (c : Call) (w : World) → Q w → Q (T.perform c w).0)
    (journals_keep : (j : Journal) (w : World) → Q w → Q (R.save j w).0) where
  pub update-kept :
      (j : Journal) (status : ocis_cli.Run.Journal.Status) (text : String) (w : World)
      → Q w
      → Q (update_sync_recovery P T R j status text w).0.0
  unfolding update_sync_recovery
  update-kept j status text w q = recorded-kept Q (R.save _ w) _ _ (journals_keep _ w q) (λ q₁. q₁)

  module _ (local_root remote_root : String) where
    finish-kept :
        (direction : Direction) (a : Action) (j : Journal) (w : World)
        → is_skip a.action ≡ false
        → is_conflict a.action ≡ false
        → Q w
        → Q (finish_action P T R local_root remote_root direction a j w).0.0
    unfolding finish_action
    finish-kept direction a j w s c q =
        recorded-kept Q _ j _
          (action-kept P T direction local_root remote_root Q (λ call w₁ _. calls_keep call w₁) a w
            s c q)
          (λ q₁. recorded-kept Q (R.save _ _) _ _ (journals_keep _ _ q₁) (λ q₂. q₂))

    apply_recorded-kept :
        (a : Action) (s : Recorded World)
        → is_skip a.action ≡ false
        → is_conflict a.action ≡ false
        → Q s.0
        → Q (apply_recorded P T R local_root remote_root a s).0.0
    unfolding apply_recorded
    apply_recorded-kept a (w, j) s c q =
        provided-holds (KeptIn Q) _ (w, j) _ (λ f _. q)
          (λ _.
            recorded-kept Q (R.save (record j { current = some a; updated_at = R.now w }) w)
              (record j { current = some a; updated_at = R.now w }) _ (journals_keep _ w q)
              (toward (record j { current = some a; updated_at = R.now w }) _
                (target_direction a.target)))
      where
        toward :
            (announced : Journal) (w₁ : World) (d : Option Direction)
            → Q w₁
            → KeptIn Q (elim d as (λ _. Outcome (Recorded World)) [
              | none ↦ ((w₁, announced), err (ocis_cli.Run.Trees.no_target a.action a.path))
              | some direction ↦ finish_action P T R local_root remote_root direction a announced w₁
            ])
        toward announced w₁ none q₁ = q₁
        toward announced w₁ (some direction) q₁ = finish-kept direction a announced w₁ s c q₁

    pub bidirectional_plan-kept :
        (actions : List Action) (s : Recorded World)
        → Q s.0
        → Q (apply_bidirectional_sync_plan P T R local_root remote_root actions s).0.0
    unfolding apply_bidirectional_sync_plan
    bidirectional_plan-kept [] s q = q
    bidirectional_plan-kept (a ∷ later) s q =
        if-ends (KeptIn Q) (T.is_canceled s.0) (λ _. q)
          (λ _.
            if-ends (KeptIn Q) (is_skip a.action) (λ _. bidirectional_plan-kept later s q)
              (λ k.
                if-ends (KeptIn Q) (is_conflict a.action) (λ _. q)
                  (λ c.
                    and_later-kept Q _ _ (apply_recorded-kept a s k c q)
                      (bidirectional_plan-kept later))))
