-- ===== src/Intent/Held.antt =====
-- strategy_runtime_intent.py: a lease is exclusive while its owner runs.
use candle_mind.Journal.Validate.{safe_fields}
use candle_mind.Base.Result.{ok, err, Result}
use candle_mind.Base.Dict.{lookup-remove, lookup-put, lookup}
use candle_mind.Json.Value.{Fields}
use candle_mind.Intent.Changes.{
  has_lease, may_free, release_lease-Frees, renew_lease-Prolongs, reclaim_stale_lease-Frees, freed,
  acquire_lease-Grants, prolonged, taken, same, Change, Prolongs, Frees, Grants,
}
use candle_mind.Base.Int.{eq_ℤ, ℤ}
use candle_mind.Base.Text.{text_eq_sound, text_eq, Text}
use candle_mind.Intent.Store.{load, write_after, content, File, Store, Process, set_desired_state}
use candle_mind.Intent.Calls.{
  run, releases, renews, reclaims_stale, acquires, sets, StoreCall, At, step,
}
use candle_mind.Intent.Document.{
  as_dict, is_desired_state, scope_key, IntentDocument, Fault, StrategyScope, TradingLease,
  LeaseDocument, Calendar,
}
use candle_mind.Base.Floats.{Floats}
use candle_mind.Base.{
  arith, all-append, &&_split, subst, none, inr, ap, ◌∙◌, sym, refl, inl, all, Bool-cases, ◌||◌,
  some, Option, Bool, [], not, ◌∷◌, false, ◌&&◌, true, ◌≡◌, split_if, List,
}

module _ (R : Floats) (calendar : Calendar R) where
  leaves_leases :
      (me : Process) (alive : ℤ → Bool) (s : Store R calendar)
      (r : Store R calendar × Result Fault (IntentDocument R))
      → r.0.leases ≡ s.leases
      → Change R calendar me alive s r.0 []
  leaves_leases me alive s r e = same e refl

  set_desired_state-leases :
      (s : Store R calendar) (now : R.F) (desired_state : Text) (scope : StrategyScope)
      (config : Fields)
      → (set_desired_state R calendar s now desired_state scope config).0.leases ≡ s.leases
  unfolding set_desired_state
  set_desired_state-leases s now desired_state scope config =
      split_if (λ (r : Store R calendar × Result Fault (IntentDocument R)). r.0.leases ≡ s.leases)
        (is_desired_state R calendar desired_state && safe_fields config)
        (λ _. after (load R calendar s)) (λ _. refl)
    where
      after :
          (r : Result Fault (Option (IntentDocument R)))
          → (write_after R calendar s now desired_state scope config r).0.leases ≡ s.leases
      after (err f) = refl
      after (ok previous) = refl

  pub step-Change :
      (s : Store R calendar) (me : Process) (now : R.F) (alive : ℤ → Bool)
      (call : StoreCall R calendar)
      → Change R calendar me alive s
          (step R calendar s (record { me = me; now = now; alive = alive; call = call })).0
          (step R calendar s (record { me = me; now = now; alive = alive; call = call })).1
  unfolding step Grants Frees Prolongs
  step-Change s me now alive (sets desired_state scope config) =
      same (set_desired_state-leases s now desired_state scope config) refl
  step-Change s me now alive (acquires scope runtime_id ttl lease_id) =
      acquire_lease-Grants R calendar me alive now s scope runtime_id ttl lease_id
  step-Change s me now alive (reclaims_stale scope expected reason) =
      reclaim_stale_lease-Frees R calendar me alive now s scope expected reason
  step-Change s me now alive (renews l ttl) = renew_lease-Prolongs R calendar me alive now s l ttl
  step-Change s me now alive (releases l) = release_lease-Frees R calendar me alive s l

  -- The call does not come from the owner of the lease, and if it comes from the owner's host then
  -- the owner is running there.
  abbrev pub is_foreign : LeaseDocument R → At R calendar → Bool
  is_foreign d a =
      not (text_eq d.owner_host a.me.host)
      || (not (eq_ℤ d.owner_pid a.me.pid) && a.alive d.owner_pid)

  module _ (k : Text) (d : LeaseDocument R) where
    -- The file at `k` is the lease, and none of the leases that were granted is of it.
    abbrev pub Keeps : Store R calendar → List (TradingLease R) → Type 0
    Keeps s granted =
        (lookup k s.leases ≡ some (content d))
        × (all (λ (l : TradingLease R). not (text_eq (scope_key l.scope) k)) granted ≡ true)

    other_key :
        (n : Text) (s : Store R calendar) (o : Option (File (LeaseDocument R)))
        → lookup k s.leases ≡ some (content d)
        → lookup n s.leases ≡ o
        → ¬ o ≡ some (content d)
        → text_eq n k ≡ false
    other_key n s o h e unlike = elim (Bool-cases (text_eq n k)) [
      | inl equal ↦
          absurd (unlike (sym e ∙ ap (λ m. lookup m s.leases) (text_eq_sound n k equal) ∙ h))
      | inr other ↦ other
    ]

    owner_excluded :
        (me : Process) (now : R.F) (alive : ℤ → Bool) (call : StoreCall R calendar)
        (c : LeaseDocument R)
        → some (content c) ≡ some (content d)
        → has_lease R calendar me alive c ≡ true
        → is_foreign d (record { me = me; now = now; alive = alive; call = call }) ≡ true
        → ⊥
    owner_excluded me now alive call c q mine foreign =
        let equal : c ≡ d = cc in
        let owner : has_lease R calendar me alive d ≡ true =
          subst (λ x. has_lease R calendar me alive x ≡ true) equal mine in
        ground arith

    free_excluded :
        (me : Process) (now : R.F) (alive : ℤ → Bool) (call : StoreCall R calendar)
        (c : LeaseDocument R)
        → some (content c) ≡ some (content d)
        → may_free R calendar me alive c ≡ true
        → is_foreign d (record { me = me; now = now; alive = alive; call = call }) ≡ true
        → ⊥
    free_excluded me now alive call c q free foreign =
        let equal : c ≡ d = cc in
        let dead : may_free R calendar me alive d ≡ true =
          subst (λ x. may_free R calendar me alive x ≡ true) equal free in
        ground arith

    Change-Keeps :
        (me : Process) (now : R.F) (alive : ℤ → Bool) (call : StoreCall R calendar)
        (s after : Store R calendar) (granted : List (TradingLease R))
        → is_foreign d (record { me = me; now = now; alive = alive; call = call }) ≡ true
        → lookup k s.leases ≡ some (content d)
        → Change R calendar me alive s after granted
        → Keeps after granted
    Change-Keeps me now alive call s after granted foreign h (same e g) = (rw e h, rw g refl)
    Change-Keeps me now alive call s after granted foreign h (taken l free mine e g) =
        let other = other_key (scope_key l.scope) s none h free (λ q. cc) in
        (
          rw (e, lookup-put k (scope_key l.scope) (content (as_dict R l)) s.leases, other) h,
          rw (g, other) refl,
        )
    Change-Keeps me now alive call s after granted foreign h (prolonged scope c l held mine i e g) =
        let other =
          other_key (scope_key scope) s (some (content c)) h held
            (λ q. owner_excluded me now alive call c q mine foreign) in
        (
          rw (e, lookup-put k (scope_key scope) (content (as_dict R l)) s.leases, other) h,
          rw g refl,
        )
    Change-Keeps me now alive call s after granted foreign h (freed scope c held free e g) =
        let other =
          other_key (scope_key scope) s (some (content c)) h held
            (λ q. free_excluded me now alive call c q free foreign) in
        (rw (e, lookup-remove k (scope_key scope) s.leases, other) h, rw g refl)

    -- While a scope's file is a lease, and the calls of any processes are none of its owner's, and
    -- no host on which its owner runs says that it does not: the file stays as it is, whatever the
    -- time, and no lease of the scope is granted.
    pub lease_held :
        (s : Store R calendar) (ats : List (At R calendar))
        → all (is_foreign d) ats ≡ true
        → lookup k s.leases ≡ some (content d)
        → Keeps (run R calendar s ats).0 (run R calendar s ats).1
    unfolding run
    lease_held s [] foreign h = (h, refl)
    lease_held s (a ∷ ats) foreign h =
        let parts = &&_split (is_foreign d a) (all (is_foreign d) ats) foreign in
        let first =
          Change-Keeps a.me a.now a.alive a.call s (step R calendar s a).0 (step R calendar s a).1
            parts.0 h (step-Change s a.me a.now a.alive a.call) in
        let rest = lease_held (step R calendar s a).0 ats parts.1 first.0 in
        (
          rest.0,
          all-append (λ (l : TradingLease R). not (text_eq (scope_key l.scope) k))
              (step R calendar s a).1 _ first.1 rest.1,
        )
