-- ===== src/Run/Request/Laws.antt =====
-- internal/app/sync/service.go: which requests are accepted.
use ocis_cli.Base.{
  true, false, ◌≡◌, ◌↔◌, ◌⊎◌, refl, sym, ◌∙◌, ◌≢◌, Bool-cases, inl, inr, arith, str_eq, str_eq_iff,
}
use ocis_cli.Base.Int.{pos, ◌≤ℤ◌}
use ocis_cli.Base.Result.{ok, err}
use ocis_cli.Sync.Errors.{Direction, push, pull, bidirectional, other}
use ocis_cli.Sync.Pattern.{is_blank}
use ocis_cli.Run.Request.{
  Request, unknown_direction, is_bidirectional, strategy_of, check_strategy, check_request,
  validate_sync_request,
}

-- The flags of a one-way request: no conflict strategy.
abbrev pub IsOneWayPolicy : Request → Type 0
IsOneWayPolicy r =
    ((r.direction ≡ push) ⊎ (r.direction ≡ pull)) × (r.conflict_strategy ≡ "") × (r.prefer ≡ "")

-- The flags of a bidirectional request: neither delete nor overwrite, and a side is preferred
-- exactly if both versions are kept.
abbrev pub IsTwoWayPolicy : Request → Type 0
IsTwoWayPolicy r =
    (r.direction ≡ bidirectional)
    × (r.delete ≡ false)
    × (r.overwrite ≡ false)
    × ((((r.conflict_strategy ≡ "") ⊎ (r.conflict_strategy ≡ "abort")) × (r.prefer ≡ ""))
        ⊎ ((r.conflict_strategy ≡ "keep-both") × ((r.prefer ≡ "local") ⊎ (r.prefer ≡ "remote"))))

-- The strategy is `abort`, and no side is preferred, or both versions are kept, and one is.
abbrev HasStrategy : Request → Type 0
HasStrategy r =
    (((r.conflict_strategy ≡ "") ⊎ (r.conflict_strategy ≡ "abort")) × (r.prefer ≡ ""))
    ⊎ ((r.conflict_strategy ≡ "keep-both") × ((r.prefer ≡ "local") ⊎ (r.prefer ≡ "remote")))

abort-forth :
    (r : Request)
    → str_eq (strategy_of r) "abort" ≡ true
    → (r.conflict_strategy ≡ "") ⊎ (r.conflict_strategy ≡ "abort")
abort-forth r h = elim (Bool-cases (str_eq r.conflict_strategy "")) [
  | inl e ↦ inl ((str_eq_iff r.conflict_strategy "").0 e)
  | inr e ↦ inr ((str_eq_iff r.conflict_strategy "abort").0 (rw e at h))
]

kept-forth :
    (r : Request) → str_eq (strategy_of r) "keep-both" ≡ true → r.conflict_strategy ≡ "keep-both"
kept-forth r h = elim (Bool-cases (str_eq r.conflict_strategy "")) [
  | inl e ↦ absurd (other_strategy (rw e at h))
  | inr e ↦ (str_eq_iff r.conflict_strategy "keep-both").0 (rw e at h)
]
  where
    other_strategy : str_eq "abort" "keep-both" ≢ true
    other_strategy h = let e : false ≡ true = unfold str_eq in h in cc

strategy-forth : (r : Request) → check_strategy r ≡ ok r.direction → HasStrategy r
unfolding check_strategy
strategy-forth r h = elim (Bool-cases (str_eq (strategy_of r) "abort")) [
  | inl e ↦ inl (abort-forth r e, (str_eq_iff r.prefer "").0 (ground (arith, h, e)))
  | inr e ↦ elim (Bool-cases (str_eq (strategy_of r) "keep-both")) [
    | inr k ↦ absurd (ground (arith, h, e, k))
    | inl k ↦ inr (
      kept-forth r k,
      elim (Bool-cases (str_eq r.prefer "local")) [
        | inl l ↦ inl ((str_eq_iff r.prefer "local").0 l)
        | inr l ↦ inr ((str_eq_iff r.prefer "remote").0 (ground (arith, h, e, k, l)))
      ],
    )
  ]
]

strategy-back : (r : Request) → HasStrategy r → check_strategy r ≡ ok r.direction
unfolding check_strategy str_eq
strategy-back r (inl (inl e, p)) = rw (e, p) refl
strategy-back r (inl (inr e, p)) = rw (e, p) refl
strategy-back r (inr (e, inl p)) = rw (e, p) refl
strategy-back r (inr (e, inr p)) = rw (e, p) refl

-- What every accepted request has.
abbrev HasRoots : Request → Type 0
HasRoots r =
    (is_blank r.local_root ≡ false) × (is_blank r.remote_root ≡ false) × (pos 1 ≤ℤ r.max_entries)

one_way-forth :
    (r : Request)
    → is_bidirectional r.direction ≡ false
    → check_request r ≡ ok r.direction
    → HasRoots r × (r.conflict_strategy ≡ "") × (r.prefer ≡ "")
unfolding check_request
one_way-forth r d h = (
  (ground (arith, h), ground (arith, h), ground (arith, h)),
  (str_eq_iff r.conflict_strategy "").0 (ground (arith, h)),
  (str_eq_iff r.prefer "").0 (ground (arith, h)),
)

one_way-back :
    (r : Request)
    → is_bidirectional r.direction ≡ false
    → HasRoots r
    → r.conflict_strategy ≡ ""
    → r.prefer ≡ ""
    → check_request r ≡ ok r.direction
unfolding check_request
one_way-back r d (l, m, n) c p = ground (
  arith,
  strategy-back r (inl (inl c, p)),
  str_eq_iff r.conflict_strategy "",
  str_eq_iff r.prefer "",
)

two_way-forth :
    (r : Request)
    → is_bidirectional r.direction ≡ true
    → check_request r ≡ ok r.direction
    → HasRoots r × (r.delete ≡ false) × (r.overwrite ≡ false) × HasStrategy r
unfolding check_request
two_way-forth r d h = (
  (ground (arith, h), ground (arith, h), ground (arith, h)),
  ground (arith, h),
  ground (arith, h),
  strategy-forth r (ground (arith, h)),
)

two_way-back :
    (r : Request)
    → is_bidirectional r.direction ≡ true
    → HasRoots r
    → r.delete ≡ false
    → r.overwrite ≡ false
    → HasStrategy r
    → check_request r ≡ ok r.direction
unfolding check_request
two_way-back r d (l, m, n) x o s = ground (arith, strategy-back r s)

-- A request is accepted, with its own direction, exactly if it names both roots, allows at least
-- one entry, and has the flags of its direction: a one-way request has no conflict strategy, and a
-- bidirectional one neither deletes nor overwrites, and prefers a side just when it keeps both
-- versions.
pub validate_sync_request_iff :
    (r : Request)
    → (validate_sync_request r ≡ ok r.direction) ↔ (
        (is_blank r.local_root ≡ false)
        × (is_blank r.remote_root ≡ false)
        × (pos 1 ≤ℤ r.max_entries)
        × (IsOneWayPolicy r ⊎ IsTwoWayPolicy r))
unfolding validate_sync_request
validate_sync_request_iff r = split r.direction refl
  where
    Accepted : Type 0
    Accepted =
        (is_blank r.local_root ≡ false)
        × (is_blank r.remote_root ≡ false)
        × (pos 1 ≤ℤ r.max_entries)
        × (IsOneWayPolicy r ⊎ IsTwoWayPolicy r)

    not_two_way : is_bidirectional r.direction ≡ false → IsTwoWayPolicy r → ⊥
    not_two_way e t = let d = t.0 in cc (rw d at e)

    not_one_way : is_bidirectional r.direction ≡ true → IsOneWayPolicy r → ⊥
    not_one_way e t = elim t.0 [ inl d ↦ cc (rw d at e) | inr d ↦ cc (rw d at e) ]

    one_way :
        ((r.direction ≡ push) ⊎ (r.direction ≡ pull))
        → is_bidirectional r.direction ≡ false
        → (check_request r ≡ ok r.direction) ↔ Accepted
    one_way d e = (
      λ h. let t = one_way-forth r e h in (t.0.0, t.0.1, t.0.2, inl (d, t.1, t.2)),
      λ (l, m, n, q). elim q [
        | inl t ↦ one_way-back r e (l, m, n) t.1 t.2
        | inr t ↦ absurd (not_two_way e t)
      ],
    )

    two_way :
        r.direction ≡ bidirectional
        → is_bidirectional r.direction ≡ true
        → (check_request r ≡ ok r.direction) ↔ Accepted
    two_way d e = (
      λ h. let t = two_way-forth r e h in (t.0.0, t.0.1, t.0.2, inr (d, t.1, t.2, t.3)),
      λ (l, m, n, q). elim q [
        | inl t ↦ absurd (not_one_way e t)
        | inr t ↦ two_way-back r e (l, m, n) t.1 t.2 t.3
      ],
    )

    along :
        validate_sync_request r ≡ check_request r
        → (check_request r ≡ ok r.direction) ↔ Accepted
        → (validate_sync_request r ≡ ok r.direction) ↔ Accepted
    along e iff = (λ h. iff.0 (sym e ∙ h), λ a. e ∙ iff.1 a)

    split :
        (d : Direction) → r.direction ≡ d → (validate_sync_request r ≡ ok r.direction) ↔ Accepted
    split push d = along (rw d refl) (one_way (inl d) (rw d refl))
    split pull d = along (rw d refl) (one_way (inr d) (rw d refl))
    split bidirectional d = along (rw d refl) (two_way d (rw d refl))
    split (other t) d = (
      λ h.
          let e : validate_sync_request r ≡ err (unknown_direction t) = rw d refl in
          absurd (cc (e, h)),
      λ (l, m, n, q). elim q [
        | inl t ↦ elim t.0 [ inl b ↦ absurd (cc (b, d)) | inr b ↦ absurd (cc (b, d)) ]
        | inr t ↦ absurd (cc (t.0, d))
      ],
    )
