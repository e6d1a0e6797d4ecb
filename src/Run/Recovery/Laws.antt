-- ===== src/Run/Recovery/Laws.antt =====
-- internal/app/sync/recovery.go: what removing a journal changes.
use ocis_cli.Base.{String, Option, none, some, Bool, true, false, not, ◌&&◌, ◌≡◌, refl, arith}
use ocis_cli.Base.Result.{Result, ok, err}
use ocis_cli.Run.Trees.{Failure}
use ocis_cli.Run.Journal.{Journal}
use ocis_cli.Run.Ids.{IdError, resolve_sync_recovery_id}
use ocis_cli.Run.Session.Kept.{if-ends}
use ocis_cli.Run.Recovery.{
  RecoveryError, Journals, store_failed, unconfirmed, calling, checking, load_sync_recovery,
  remove_sync_recovery,
}

ok-injective : {x y : Journal} → ◌≡◌ {A = Result RecoveryError Journal} (ok x) (ok y) → x ≡ y
ok-injective h = cc

-- What is said of a deletion.
abbrev pub answer :
    {World : Type 0}
    → String
    → World × Result Failure Bool
    → World × Result RecoveryError (String × Bool)
answer id (w, err e) = (w, err (store_failed e))
answer id (w, ok removed) = (w, ok (id, removed))

calling-answer :
    {World : Type 0} (id : String) (o : World × Result Failure Bool)
    → calling o store_failed (λ w₁ removed. (w₁, ok (id, removed))) ≡ answer id o
unfolding calling
calling-answer id (w, err e) = refl
calling-answer id (w, ok removed) = refl

module _ (to_lower : String → String) {World : Type 0} (J : Journals World) (id : String)
    (confirmed dry_run : Bool) (w : World) where
  -- How a removal ends: it is not confirmed, or no journal is found, or it only shows what it would
  -- do, or the store deletes by the identifier of the journal that it loads for the key that is meant.
  pub data Removes (o : World × Result RecoveryError (String × Bool)) : Type 0 where
    refused : confirmed ≡ false → dry_run ≡ false → o ≡ (w, err unconfirmed) → Removes o
    not_found :
        (e : RecoveryError)
        → load_sync_recovery to_lower J id w ≡ err e
        → o ≡ (w, err e)
        → Removes o
    shown :
        (key : String) (journal : Journal)
        → dry_run ≡ true
        → resolve_sync_recovery_id to_lower (J.list_keys w) id ≡ ok key
        → J.load w key ≡ ok (some journal)
        → o ≡ (w, ok (journal.id, false))
        → Removes o
    deleted :
        (key : String) (journal : Journal)
        → confirmed ≡ true
        → dry_run ≡ false
        → resolve_sync_recovery_id to_lower (J.list_keys w) id ≡ ok key
        → J.load w key ≡ ok (some journal)
        → o ≡ answer journal.id (J.delete journal.id w)
        → Removes o

  loaded :
      {journal : Journal}
      → load_sync_recovery to_lower J id w ≡ ok journal
      → (key : String) × (resolve_sync_recovery_id to_lower (J.list_keys w) id ≡ ok key)
        × (J.load w key ≡ ok (some journal))
  unfolding load_sync_recovery
  loaded {journal} h = by_key (resolve_sync_recovery_id to_lower (J.list_keys w) id) refl
    where
      by_journal :
          (key : String) (found : Result Failure (Option Journal))
          → J.load w key ≡ found
          → resolve_sync_recovery_id to_lower (J.list_keys w) id ≡ ok key
          → J.load w key ≡ ok (some journal)
      by_journal key (err e) f g = absurd (cc (rw (g, f) at h))
      by_journal key (ok none) f g = absurd (cc (rw (g, f) at h))
      by_journal key (ok (some other)) f g =
          let e : other ≡ journal = ok-injective (rw (g, f) at h) in rw e at f

      by_key :
          (r : Result IdError String)
          → resolve_sync_recovery_id to_lower (J.list_keys w) id ≡ r
          → (key : String) × (resolve_sync_recovery_id to_lower (J.list_keys w) id ≡ ok key)
            × (J.load w key ≡ ok (some journal))
      by_key (err e) g = absurd (cc (rw g at h))
      by_key (ok key) g = (key, g, by_journal key (J.load w key) refl g)

  checked :
      (r : Result RecoveryError Journal)
      (next : Journal → World × Result RecoveryError (String × Bool))
      → load_sync_recovery to_lower J id w ≡ r
      → ((journal : Journal)
          → load_sync_recovery to_lower J id w ≡ ok journal
          → Removes (next journal))
      → Removes (checking r w next)
  unfolding checking
  checked (err e) next h k = not_found e h refl
  checked (ok journal) next h k = k journal h

  -- Removing a journal ends in one of four ways. Without confirmation, unless it is a dry run, it fails.
  -- If the given identifier resolves to no key, or the store loads no journal for the key, it fails
  -- with that error. A dry run names the identifier that the journal holds which the store loads for
  -- the key. In these three the world is left alone. Otherwise the one change is that the store deletes
  -- by the identifier which this journal holds, and it is said whether the store removed anything.
  pub remove_sync_recovery-Removes :
      Removes (remove_sync_recovery to_lower J id confirmed dry_run w)
  unfolding remove_sync_recovery
  remove_sync_recovery-Removes =
      if-ends Removes (not confirmed && not dry_run)
        (λ c. refused (ground (arith, c)) (ground (arith, c)) refl)
        (λ c. checked (load_sync_recovery to_lower J id w) _ refl (λ journal e.
          let (key, g, f) = loaded e in
          if-ends Removes (not dry_run)
            (λ d.
              deleted key journal (ground (arith, c, d)) (ground (arith, d)) g f
                (calling-answer journal.id (J.delete journal.id w)))
            (λ d. shown key journal (ground (arith, d)) g f refl)))
