-- ===== src/Run/Plans.antt =====
-- internal/app/sync/service.go: what carrying out an action can change.
use ocis_cli.Base.{String, Bool, true, false, ◌≡◌, refl, ◌⊎◌, inl, inr}
use ocis_cli.Base.{if◌then◌else◌, str_eq}
use ocis_cli.Base.Result.{Result, ok, err, ◌>>=◌}
use ocis_cli.Sync.Platform.{Platform}
use ocis_cli.Sync.Errors.{Direction}
use ocis_cli.Sync.Entry.{Entry, no_entry}
use ocis_cli.Sync.Action.{Action, is_move, is_copy}
use ocis_cli.Run.Trees.{Trees, Failure, Outcome, and_then, provided}
use ocis_cli.Run.Names.{sync_local_path, sync_remote_path}
use ocis_cli.Run.Verify.{verify_remote_sync_entry, verify_local_sync_entry}
use ocis_cli.Run.Apply.{
  is_push, with_local, apply_sync_copy, apply_sync_move, apply_locally, apply_remotely, apply_named,
  apply_sync_action,
}

-- The entry that must stand at the destination of an action.
abbrev pub expected_entry : Action → Entry
expected_entry a = if is_move a.action then no_entry else a.destination

module _ {World : Type 0} where
  pub provided-holds :
      (Q : Outcome World → Type 0) (check : Result Failure (Unit {0})) (w : World)
      (next : World → Outcome World)
      → ((f : Failure) → check ≡ err f → Q (w, err f))
      → (check ≡ ok tt → Q (next w))
      → Q (provided check w next)
  unfolding provided
  provided-holds Q (err f) w next h k = h f refl
  provided-holds Q (ok _) w next h k = k refl

  pub with_local-holds :
      (Q : Outcome World → Type 0) (found : Result Failure String) (w : World)
      (next : String → Outcome World)
      → ((f : Failure) → Q (w, err f))
      → ((local : String) → found ≡ ok local → Q (next local))
      → Q (with_local found w next)
  unfolding with_local
  with_local-holds Q (err f) w next h k = h f
  with_local-holds Q (ok local) w next h k = k local refl

  pub and_then-kept :
      (Q : World → Type 0) (before : Outcome World) (next : World → Outcome World)
      → Q before.0
      → ((w : World) → Q w → Q (next w).0)
      → Q (and_then before next).0
  unfolding and_then
  and_then-kept Q (w, err f) next h k = h
  and_then-kept Q (w, ok _) next h k = k w h

  pub if-holds :
      (Q : Outcome World → Type 0) (test : Bool) {x y : Outcome World}
      → (test ≡ true → Q x)
      → (test ≡ false → Q y)
      → Q (if test then x else y)
  if-holds Q true h k = h refl
  if-holds Q false h k = k refl

module _ (P : Platform) {World : Type 0} (T : Trees World) where
  -- The check of the destination that an action makes.
  abbrev pub check_destination :
      Direction → String → String → Action → World → Result Failure (Unit {0})
  check_destination direction local_root remote_root a w =
      if is_push direction
      then verify_remote_sync_entry P T w (sync_remote_path remote_root a.path) (expected_entry a)
          "destination"
      else sync_local_path T local_root a.path >>= λ local.
          verify_local_sync_entry P T w local (expected_entry a) "destination"

  module _ (direction : Direction) (local_root remote_root : String) (a : Action) (w : World) where
    -- The world is as before, or the check of the destination has passed.
    data Checked (o : Outcome World) : Type 0 where
      kept : o.0 ≡ w → Checked o
      passed : check_destination direction local_root remote_root a w ≡ ok tt → Checked o

    remote-Checked :
        is_push direction ≡ true
        → (expected : Entry) → expected ≡ expected_entry a
        → (next : World → Outcome World)
        → Checked (
            provided
              (verify_remote_sync_entry P T w
                (sync_remote_path remote_root a.path)
                expected
                "destination")
              w
              next)
    remote-Checked d expected e next =
        provided-holds Checked
          (verify_remote_sync_entry P T w (sync_remote_path remote_root a.path) expected
            "destination")
          w next (λ f _. kept refl) (λ h. passed (rw (d, ← e) h))

    local-Checked :
        is_push direction ≡ false
        → (local : String) → sync_local_path T local_root a.path ≡ ok local
        → (expected : Entry) → expected ≡ expected_entry a
        → (next : World → Outcome World)
        → Checked (provided (verify_local_sync_entry P T w local expected "destination") w next)
    local-Checked d local l expected e next =
        provided-holds Checked (verify_local_sync_entry P T w local expected "destination") w next
          (λ f _. kept refl) (λ h. passed (rw (d, l, ← e) h))

    apply_locally-Checked :
        is_push direction ≡ false
        → is_move a.action ≡ false
        → (local remote_source : String) → sync_local_path T local_root a.path ≡ ok local
        → Checked (apply_locally P T remote_source local a w)
    unfolding apply_locally
    apply_locally-Checked d m local remote_source l =
        local-Checked d local l a.destination (rw m refl) _

    apply_remotely-Checked :
        is_push direction ≡ true
        → is_move a.action ≡ false
        → (local_source remote_source local : String)
        → Checked (
            apply_remotely P T local_source remote_source local
              (sync_remote_path remote_root a.path)
              a
              w)
    unfolding apply_remotely
    apply_remotely-Checked d m local_source remote_source local =
        remote-Checked d a.destination (rw m refl) _

    apply_sync_move-Checked :
        is_move a.action ≡ true
        → (local : String) → sync_local_path T local_root a.path ≡ ok local
        → Checked (
            apply_sync_move P T direction local_root remote_root local
              (sync_remote_path remote_root a.path)
              a
              w)
    unfolding apply_sync_move
    apply_sync_move-Checked m local l =
        if-holds Checked (str_eq a.from_path "") (λ _. kept refl)
          (λ _.
            if-holds Checked (is_push direction)
              (λ d.
                provided-holds Checked _ w _ (λ f _. kept refl)
                  (λ _. remote-Checked d no_entry (rw m refl) _))
              (λ d.
                with_local-holds Checked _ w _ (λ f. kept refl)
                  (λ _ _.
                    provided-holds Checked _ w _ (λ f _. kept refl)
                      (λ _. local-Checked d local l no_entry (rw m refl) _))))

    apply_sync_copy-Checked :
        is_move a.action ≡ false
        → (local local_source remote_source : String)
        → sync_local_path T local_root a.path ≡ ok local
        → Checked (
            apply_sync_copy P T direction local_source remote_source local
              (sync_remote_path remote_root a.path)
              a
              w)
    unfolding apply_sync_copy
    apply_sync_copy-Checked m local local_source remote_source l =
        if-holds Checked (str_eq a.from_path "") (λ _. kept refl)
          (λ _.
            if-holds Checked (is_push direction)
              (λ d.
                provided-holds Checked _ w _ (λ f _. kept refl)
                  (λ _. remote-Checked d a.destination (rw m refl) _))
              (λ d.
                provided-holds Checked _ w _ (λ f _. kept refl)
                  (λ _. local-Checked d local l a.destination (rw m refl) _)))

    -- Carrying out an action changes nothing unless the entry at the destination was checked and
    -- found to be the one that the plan expects there, which for a rename is none.
    pub apply_sync_action_guarded :
        ((apply_sync_action P T direction local_root remote_root a w).0 ≡ w)
        ⊎ (check_destination direction local_root remote_root a w ≡ ok tt)
    unfolding apply_sync_action apply_named
    apply_sync_action_guarded = either (
        with_local-holds Checked _ w _ (λ f. kept refl)
          (λ local l.
            with_local-holds Checked _ w _ (λ f. kept refl)
              (λ local_source _.
                if-holds Checked (is_move a.action) (λ m. apply_sync_move-Checked m local l)
                  (λ m.
                    if-holds Checked (is_copy a.action)
                      (λ _. apply_sync_copy-Checked m local local_source _ l)
                      (λ _.
                        if-holds Checked (is_push direction)
                          (λ d. apply_remotely-Checked d m local_source _ local)
                          (λ d. apply_locally-Checked d m local _ l))))))
      where
        either :
            {o : Outcome World}
            → Checked o
            → (o.0 ≡ w) ⊎ (check_destination direction local_root remote_root a w ≡ ok tt)
        either (kept e) = inl e
        either (passed h) = inr h
