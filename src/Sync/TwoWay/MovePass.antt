-- ===== src/Sync/TwoWay/MovePass.antt =====
-- internal/sync/bidirectional.go: the passes over the two targets keep every action safe.
use ocis_cli.Base.{String, true, false, List, [], ◌∷◌, some}
use ocis_cli.Base.{◌≡◌, refl, ◌∙◌, arith, inl, inr, map, All, keep}
use ocis_cli.Base.Map.{Map, lookup, has}
use ocis_cli.Sync.Platform.{Platform}
use ocis_cli.Sync.Entry.{Snapshot, Record, equal}
use ocis_cli.Sync.State.{State}
use ocis_cli.Sync.Action.{Action, is_delete, Side, no_side, local, remote}
use ocis_cli.Sync.TwoWay.Subtrees.{side_snapshot, is_blocked}
use ocis_cli.Sync.TwoWay.PathLaws.{target_exists}
use ocis_cli.Sync.TwoWay.Moves.{
  MoveCandidate, is_removed, is_added, removed_from, added_from, take_move, take_moves, detect_for,
  detect_file_moves,
}
use ocis_cli.Sync.TwoWay.MoveLaws.{
  IsSafe, current, Becomes, same, moved, taken, AllBecome, AllBecome-refl, AllBecome-paths,
}
use ocis_cli.Sync.TwoWay.MoveSafety.{
  Found, removed_from-Found, added_from-Found, keep-All, take_move-Rel, Rel,
}

module _ (P : Platform) (l r : Snapshot) (saved : Map Record) (target : Side) where
  module _ (os : List Action) (safe : All (IsSafe P l r saved) os) where
    pick-Rel :
        (added : List MoveCandidate) (destination : MoveCandidate) (matches : List MoveCandidate)
        (cs : List Action)
        → Found (is_added target) 0 os destination
        → All (Found (is_removed target saved) 0 os) matches
        → Rel P l r saved target os safe cs
        → Rel P l r saved target os safe (elim matches [
          | [] ↦ cs
          | source ∷ others ↦ elim others [
            | [] ↦ take_move P (current P l r saved target) added destination source cs
            | _ ↦ cs
          ]
        ])
    pick-Rel added destination [] cs f fs h = h
    pick-Rel added destination (source ∷ []) cs f fs h =
        take_move-Rel P l r saved target os safe added destination source cs f fs.0 h
    pick-Rel added destination (source ∷ other ∷ more) cs f fs h = h

    take_moves-Rel :
        (removed added later : List MoveCandidate) (cs : List Action)
        → All (Found (is_removed target saved) 0 os) removed
        → All (Found (is_added target) 0 os) later
        → Rel P l r saved target os safe cs
        → Rel P l r saved target os safe
            (take_moves P (current P l r saved target) removed added later cs)
    unfolding take_moves
    take_moves-Rel removed added [] cs rs fs h = h
    take_moves-Rel removed added (destination ∷ later) cs rs fs h =
        let test = λ (c : MoveCandidate). equal P destination.entry c.entry in
        take_moves-Rel removed added later _ rs fs.1 (
          pick-Rel added destination (keep test removed) cs fs.0
            (keep-All (Found (is_removed target saved) 0 os) test removed rs) h)

    detect_for-Rel : Rel P l r saved target os safe (detect_for P target l r saved os)
    unfolding detect_for
    detect_for-Rel =
        let added = added_from target 0 os in
        take_moves-Rel (removed_from target saved 0 os) added added os
          (removed_from-Found target saved 0 os) (added_from-Found target saved 0 os)
          (AllBecome-refl P l r saved target os)

    pub detect_for-paths :
        map (λ (a : Action). a.path) (detect_for P target l r saved os)
        ≡ map (λ (a : Action). a.path) os
    detect_for-paths =
        AllBecome-paths P l r saved target os (detect_for P target l r saved os) detect_for-Rel

  added-target : (o : Action) → is_added target o ≡ true → o.target ≡ target
  unfolding is_added
  added-target o h = ground arith

  removed-delete : (o : Action) → is_removed target saved o ≡ true → is_delete o.action ≡ true
  unfolding is_removed
  removed-delete o h = ground arith

  unblocked :
      (c : Action)
      → is_delete c.action ≡ false
      → c.replace ≡ false
      → is_blocked P l r saved c ≡ false
  unfolding is_blocked
  unblocked c h k = ground arith

  exists-has :
      (side : Side) (p : String)
      → target_exists P side (lookup p l) (lookup p r) ≡ has p (side_snapshot side l r)
  exists-has no_side p = refl
  exists-has local p = refl
  exists-has remote p = refl

  -- A transfer to a path that the target lacks replaces nothing.
  free-replace :
      (o : Action)
      → o.target ≡ target
      → has o.path (current P l r saved target) ≡ false
      → IsSafe P l r saved o
      → o.replace ≡ false
  free-replace o t free s =
      let absent : target_exists P o.target (lookup o.path l) (lookup o.path r) ≡ false =
        rw t (exists-has target o.path ∙ free) in
      ground (arith, s.replaces)

  Becomes-IsSafe :
      {o c : Action} → Becomes P l r saved target o c → IsSafe P l r saved o → IsSafe P l r saved c
  Becomes-IsSafe same s = s
  Becomes-IsSafe {o} {c} (moved added free p t e m kf) s =
      let to_target : o.target ≡ target = added-target o added in
      let plain : c.replace ≡ false = e ∙ free-replace o to_target free s in
      record {
        kept = rw (t, p) s.kept;
        kept_from = inr (rw (t, to_target) kf);
        replaces = inl plain;
        deletes = inr plain;
        protected = unblocked c (rw m refl) plain;
      }
  Becomes-IsSafe {o} {c} (taken removed p t e m) s =
      let plain : c.replace ≡ false = ground (arith, removed-delete o removed, s.deletes) in
      record {
        kept = rw t tt;
        kept_from = inl (rw m refl);
        replaces = inl plain;
        deletes = inr plain;
        protected = unblocked c (rw m refl) plain;
      }

  AllBecome-IsSafe :
      (os cs : List Action)
      → AllBecome P l r saved target os cs
      → All (IsSafe P l r saved) os
      → All (IsSafe P l r saved) cs
  AllBecome-IsSafe [] [] h s = tt
  AllBecome-IsSafe (o ∷ os) (c ∷ cs) h s = (Becomes-IsSafe h.0 s.0, AllBecome-IsSafe os cs h.1 s.1)
  AllBecome-IsSafe [] (c ∷ cs) h s = absurd h
  AllBecome-IsSafe (o ∷ os) [] h s = absurd h

  pub detect_for-IsSafe :
      (os : List Action)
      → All (IsSafe P l r saved) os
      → All (IsSafe P l r saved) (detect_for P target l r saved os)
  detect_for-IsSafe os safe =
      AllBecome-IsSafe os (detect_for P target l r saved os) (detect_for-Rel os safe) safe

-- Renames leave the paths of the actions alone, and keep every action safe.
module _ (P : Platform) (l r : Snapshot) (previous : State) (actions : List Action)
    (safe : All (IsSafe P l r previous.entries) actions) where
  pub detect-IsSafe :
      All (IsSafe P l r previous.entries) (detect_file_moves P actions l r (some previous))
  unfolding detect_file_moves
  detect-IsSafe =
      detect_for-IsSafe P l r previous.entries remote
        (detect_for P local l r previous.entries actions)
        (detect_for-IsSafe P l r previous.entries local actions safe)

  pub detect-paths :
      map (λ (a : Action). a.path) (detect_file_moves P actions l r (some previous))
      ≡ map (λ (a : Action). a.path) actions
  unfolding detect_file_moves
  detect-paths =
      detect_for-paths P l r previous.entries remote
        (detect_for P local l r previous.entries actions)
        (detect_for-IsSafe P l r previous.entries local actions safe)
      ∙ detect_for-paths P l r previous.entries local actions safe
