-- ===== src/Sync/TwoWay/PathLaws.antt =====
-- internal/sync/bidirectional.go: what the action planned for one path may do to its target.
use ocis_cli.Base.{String, Bool, true, false, Option, none, some, is_some, str_eq}
use ocis_cli.Base.{◌≡◌, arith, inl, inr, ◌⊎◌, Bool-cases, str_eq_iff}
use ocis_cli.Sync.Platform.{Platform}
use ocis_cli.Sync.Entry.{Entry, Record}
use ocis_cli.Sync.Action.{Action, is_delete, is_move, Side, no_side, local, remote}
use ocis_cli.Sync.TwoWay.Paths.{
  plan_bidirectional_path, plan_root, plan_initial, plan_saved, matches_baseline, entries_match,
}
use ocis_cli.Sync.TwoWay.Subtrees.{saved_or_zero}

module _ (P : Platform) where
  -- The entry that the target side has now, if it has one, equals the one that the baseline holds
  -- for that side.
  abbrev pub TargetKept : Side → Option Entry → Option Entry → Option Record → Type 0
  TargetKept no_side l r b = Unit
  TargetKept local l r b =
      (is_some l ≡ false) ⊎ (matches_baseline P l (saved_or_zero b).source ≡ true)
  TargetKept remote l r b =
      (is_some r ≡ false) ⊎ (matches_baseline P r (saved_or_zero b).destination ≡ true)

  -- The target side has an entry.
  abbrev pub target_exists : Side → Option Entry → Option Entry → Bool
  target_exists local l r = is_some l
  target_exists _ l r = is_some r

  -- What holds of each action when it is planned.
  abbrev pub PlannedWell : String → Option Entry → Option Entry → Option Record → Action → Type 0
  PlannedWell k l r b a =
      (a.path ≡ k)
      × TargetKept a.target l r b
      × (is_move a.action ≡ false)
      × ((a.replace ≡ false) ⊎ (target_exists a.target l r ≡ true))
      × ((is_delete a.action ≡ false) ⊎ (a.replace ≡ false))

  root-PlannedWell : (l r : Option Entry) (b : Option Record) → PlannedWell "" l r b (plan_root l r)
  unfolding plan_root
  root-PlannedWell (some l) (some r) b = ground arith
  root-PlannedWell (some l) none b = ground arith
  root-PlannedWell none (some r) b = ground arith
  root-PlannedWell none none b = ground arith

  saved-PlannedWell :
      (k : String) (l r : Option Entry) (b : Record)
      → PlannedWell k l r (some b) (plan_saved P k l r b)
  unfolding plan_saved
  saved-PlannedWell k (some l) (some r) b = ground arith
  saved-PlannedWell k (some l) none b = ground arith
  saved-PlannedWell k none (some r) b = ground arith
  saved-PlannedWell k none none b = ground arith

  initial-PlannedWell :
      (k : String) (l r : Option Entry) → PlannedWell k l r none (plan_initial P k l r)
  unfolding plan_initial
  initial-PlannedWell k (some l) (some r) = ground arith
  initial-PlannedWell k (some l) none = ground arith
  initial-PlannedWell k none (some r) = ground arith
  initial-PlannedWell k none none = ground arith

  pub plan-PlannedWell :
      (k : String) (l r : Option Entry) (b : Option Record)
      → PlannedWell k l r b (plan_bidirectional_path P k l r b)
  unfolding plan_bidirectional_path
  plan-PlannedWell k l r b = elim (Bool-cases (str_eq k "")) [
    | inl e ↦ rw e (rw ((str_eq_iff k "").0 e) (root-PlannedWell l r b))
    | inr e ↦ rw e (behind_root b)
  ]
    where
      behind_root :
          (b : Option Record)
          → PlannedWell k l r b
              (elim b [ none ↦ plan_initial P k l r | some saved ↦ plan_saved P k l r saved ])
      behind_root none = initial-PlannedWell k l r
      behind_root (some saved) = saved-PlannedWell k l r saved

  -- The record with its sides exchanged.
  abbrev pub mirror : Record → Record
  mirror b = record { source = b.destination; destination = b.source }

  abbrev pub mirror_saved : Option Record → Option Record
  mirror_saved none = none
  mirror_saved (some b) = some (mirror b)

  abbrev pub mirror_side : Side → Side
  mirror_side no_side = no_side
  mirror_side local = remote
  mirror_side remote = local

  -- One action is the mirror image of another, but for the texts and the order of the entries
  -- that an action without a target shows.
  abbrev pub IsMirror : Action → Action → Type 0
  IsMirror a c =
      (c.action ≡ a.action)
      × (c.path ≡ a.path)
      × (c.target ≡ mirror_side a.target)
      × (c.replace ≡ a.replace)
      × ((a.target ≡ no_side) ⊎ ((c.source ≡ a.source) × (c.destination ≡ a.destination)))

  root-IsMirror : (l r : Option Entry) → IsMirror (plan_root l r) (plan_root r l)
  unfolding plan_root
  root-IsMirror (some l) (some r) = ground arith
  root-IsMirror (some l) none = ground arith
  root-IsMirror none (some r) = ground arith
  root-IsMirror none none = ground arith

  initial-IsMirror :
      (k : String) (l r : Option Entry)
      → entries_match P l r ≡ entries_match P r l
      → IsMirror (plan_initial P k l r) (plan_initial P k r l)
  unfolding plan_initial
  initial-IsMirror k (some l) (some r) h = ground arith
  initial-IsMirror k (some l) none h = ground arith
  initial-IsMirror k none (some r) h = ground arith
  initial-IsMirror k none none h = ground arith

  saved-IsMirror :
      (k : String) (l r : Option Entry) (b : Record)
      → entries_match P l r ≡ entries_match P r l
      → IsMirror (plan_saved P k l r b) (plan_saved P k r l (mirror b))
  unfolding plan_saved
  saved-IsMirror k (some l) (some r) b h = ground arith
  saved-IsMirror k (some l) none b h = ground arith
  saved-IsMirror k none (some r) b h = ground arith
  saved-IsMirror k none none b h = ground arith

  -- The plan for a path treats the two sides alike: with the trees and the baseline exchanged,
  -- where the comparison of the two entries is symmetric, the same kind of action is planned for
  -- the other side, with the same entries.
  pub plan-IsMirror :
      (k : String) (l r : Option Entry) (b : Option Record)
      → entries_match P l r ≡ entries_match P r l
      → IsMirror
          (plan_bidirectional_path P k l r b)
          (plan_bidirectional_path P k r l (mirror_saved b))
  unfolding plan_bidirectional_path
  plan-IsMirror k l r b h = elim (Bool-cases (str_eq k "")) [
    | inl e ↦ rw e (root-IsMirror l r)
    | inr e ↦ rw e (behind_root b)
  ]
    where
      behind_root :
          (b : Option Record)
          → IsMirror
              (elim b [ none ↦ plan_initial P k l r | some saved ↦ plan_saved P k l r saved ])
              (elim (mirror_saved b) [
                | none ↦ plan_initial P k r l
                | some saved ↦ plan_saved P k r l saved
              ])
      behind_root none = initial-IsMirror k l r h
      behind_root (some saved) = saved-IsMirror k l r saved h

  -- With no baseline nothing is deleted or replaced.
  pub plan_fresh :
      (k : String) (l r : Option Entry)
      → (is_delete (plan_bidirectional_path P k l r none).action ≡ false)
        × ((plan_bidirectional_path P k l r none).replace ≡ false)
  unfolding plan_bidirectional_path
  plan_fresh k (some l) (some r) = ground arith
  plan_fresh k (some l) none = ground arith
  plan_fresh k none (some r) = ground arith
  plan_fresh k none none = ground arith
