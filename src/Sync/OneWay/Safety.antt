-- ===== src/Sync/OneWay/Safety.antt =====
-- internal/sync/model.go: what a single action of the one-way planner may do to the destination.
use ocis_cli.Base.{String, Bool, true, false, Option, none, some, is_some}
use mathlib.Core.Option.{some-injective}
use ocis_cli.Base.{◌≡◌, refl, arith, inl, inr, ◌⊎◌, Bool-cases}
use ocis_cli.Sync.Platform.{Platform}
use ocis_cli.Sync.Entry.{Entry, Record, equal}
use ocis_cli.Sync.Action.{
  Action, Options, ActionKind, create_directory, transfer, delete, is_delete, is_skip,
}
use ocis_cli.Sync.OneWay.{plan_path, plan_extra, plan_both}

-- The action changes the destination at its path.
abbrev pub writes : ActionKind → Bool
writes create_directory = true
writes transfer = true
writes delete = true
writes _ = false

module _ (P : Platform) where
  -- A deletion is asked for, of a path that only the destination has.
  pub delete_extra :
      (r : String) (s d : Option Entry) (b : Option Record) (o : Options) {a : Action}
      → plan_path P r s d b o ≡ some a
      → (is_delete a.action ≡ false)
        ⊎ ((o.delete ≡ true) × (is_some s ≡ false) × (is_some d ≡ true))
  unfolding plan_path
  delete_extra r (some s) none b o h = inl (ground arith)
  delete_extra r none (some d) b o h = ground arith
  delete_extra r (some s) (some d) none o h = inl (ground arith)
  delete_extra r (some s) (some d) (some b) o h = inl (ground arith)
  delete_extra r none none b o h = absurd (ground arith)

  -- What an action may do to the entry that the destination holds at its path: leave it alone, or
  -- write over it if it equals the saved one, or delete it if no run saved the path, the source
  -- lacks it and --delete is given.
  abbrev pub MayTouch : Entry → Option Entry → Option Record → Options → Action → Type 0
  MayTouch e s b o a =
      (writes a.action ≡ false)
      ⊎ ((b ≡ none) × (s ≡ none) × (a.action ≡ delete) × (o.delete ≡ true))
      ⊎ ((saved : Record) × (b ≡ some saved) × (equal P e saved.destination ≡ true))

  -- An action replaces no entry by another type, and touches an existing entry only so.
  abbrev pub IsCareful : Option Entry → Option Entry → Option Record → Options → Action → Type 0
  IsCareful s none b o a = a.replace ≡ false
  IsCareful s (some e) b o a = (a.replace ≡ false) × MayTouch e s b o a

  IsCareful-both :
      (r : String) (s d : Entry) (b : Option Record) (o : Options)
      → o.overwrite ≡ false
      → IsCareful (some s) (some d) b o (plan_both P r s d b o)
  unfolding plan_both
  IsCareful-both r s d none o k = (ground arith, inl (ground arith))
  IsCareful-both r s d (some b) o k = elim (Bool-cases (equal P d b.destination)) [
    | inl e ↦ (ground arith, inr (inr (b, refl, e)))
    | inr e ↦ (ground arith, inl (ground arith))
  ]

  IsCareful-extra :
      (r : String) (d : Entry) (b : Option Record) (o : Options)
      → o.overwrite ≡ false
      → IsCareful none (some d) b o (plan_extra P r d b o)
  unfolding plan_extra
  IsCareful-extra r d none o k = elim (Bool-cases o.delete) [
    | inl e ↦ (ground arith, inr (inl (refl, refl, ground arith, e)))
    | inr e ↦ (ground arith, inl (ground arith))
  ]
  IsCareful-extra r d (some b) o k = elim (Bool-cases (equal P d b.destination)) [
    | inl e ↦ (ground arith, inr (inr (b, refl, e)))
    | inr e ↦ (ground arith, inl (ground arith))
  ]

  pub careful :
      (r : String) (s d : Option Entry) (b : Option Record) (o : Options) {a : Action}
      → o.overwrite ≡ false
      → plan_path P r s d b o ≡ some a
      → IsCareful s d b o a
  unfolding plan_path
  careful r (some s) none b o k h = ground arith
  careful r none (some d) b o {a} k h = rw (← some-injective _ _ h) (IsCareful-extra r d b o k)
  careful r (some s) (some d) b o {a} k h = rw (← some-injective _ _ h) (IsCareful-both r s d b o k)
  careful r none none b o k h = absurd (ground arith)

  -- With or without the options, a path that is equal on both sides is left alone.
  pub equal_skipped :
      (r : String) (s d : Entry) (b : Option Record) (o : Options) {a : Action}
      → equal P s d ≡ true
      → plan_path P r (some s) (some d) b o ≡ some a
      → is_skip a.action ≡ true
  unfolding plan_path
  equal_skipped r s d b o e h = ground arith

  -- A path is skipped only if both sides are equal there, or if the destination alone has it and
  -- --delete is not given.
  abbrev pub IsSettled : Option Entry → Option Entry → Options → Type 0
  IsSettled (some x) (some y) o = equal P x y ≡ true
  IsSettled (some x) none o = ⊥
  IsSettled none d o = o.delete ≡ false

  pub skip_reason :
      (r : String) (s d : Option Entry) (b : Option Record) (o : Options) {a : Action}
      → plan_path P r s d b o ≡ some a
      → (is_skip a.action ≡ false) ⊎ IsSettled s d o
  unfolding plan_path
  skip_reason r (some s) none b o h = inl (ground arith)
  skip_reason r none (some d) b o h = ground arith
  skip_reason r (some s) (some d) none o h = ground arith
  skip_reason r (some s) (some d) (some b) o h = ground arith
  skip_reason r none none b o h = absurd (ground arith)
