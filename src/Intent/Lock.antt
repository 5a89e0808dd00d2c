-- ===== src/Intent/Lock.antt =====
-- strategy_runtime_intent.py: the leases implement a lock for each scope.
use candle_mind.Intent.Changes.{freed, prolonged, taken, same, Change}
use candle_mind.Intent.Held.{step-Change}
use candle_mind.Base.Int.{ℤ}
use candle_mind.Base.Dict.{lookup-put, lookup-remove, put, remove, lookup}
use candle_mind.Intent.Store.{unreadable, content, File, Process, Store}
use candle_mind.Intent.Calls.{step, At}
use candle_mind.Intent.Document.{scope_key, LeaseDocument, TradingLease, as_dict, Calendar}
use candle_mind.Base.Text.{text_eq_sound, text_eq, Text}
use candle_mind.Base.Floats.{Floats}
use candle_mind.Base.{
  if◌then◌else◌, sym, ◌∙◌, inr, ap, inl, none, Bool-cases, some, Bool, Option, [], ◌∷◌, ◌≡◌, List,
}

-- A lock that is free, or locked under an ID; `broken` is a file that is not readable.
pub data Holder : Type 0 where
  free broken : Holder
  locked : Text → Holder

-- One call on a lock, with the IDs that it hands out: it may be taken where it is free, by the one
-- who is handed its ID, and given up; it never passes from one ID to another.
pub data LockStep : Holder → List Text → Holder → Type 0 where
  keep : (h : Holder) → LockStep h [] h
  take : (i : Text) → LockStep free (i ∷ []) (locked i)
  give_up : (i : Text) → LockStep (locked i) [] free

module _ (R : Floats) (calendar : Calendar R) where
  abbrev pub holder_of : Option (File (LeaseDocument R)) → Holder
  holder_of none = free
  holder_of (some unreadable) = broken
  holder_of (some (content d)) = locked d.lease_id

  -- The lock of a scope's file.
  abbrev pub holder : Store R calendar → Text → Holder
  holder s k = holder_of (lookup k s.leases)

  -- The IDs of the leases of a scope that a call grants.
  abbrev pub granted_ids : Text → List (TradingLease R) → List Text
  granted_ids k [] = []
  granted_ids k (l ∷ leases) =
      if text_eq (scope_key l.scope) k
      then l.lease_id ∷ granted_ids k leases
      else granted_ids k leases

  -- Each call of a history is a step of the lock of a scope, from the store before it to the store
  -- after it, and hands out what the call grants.
  abbrev pub LockSteps : Text → Store R calendar → List (At R calendar) → Type 0
  LockSteps k s [] = Unit
  LockSteps k s (a ∷ ats) =
      LockStep (holder s k) (granted_ids k (step R calendar s a).1)
        (holder (step R calendar s a).0 k)
      × LockSteps k (step R calendar s a).0 ats

  taken-LockStep :
      (k : Text) (l : TradingLease R) (s : Store R calendar)
      → lookup (scope_key l.scope) s.leases ≡ none
      → LockStep
          (holder s k)
          (granted_ids k (l ∷ []))
          (holder_of (lookup k (put (scope_key l.scope) (content (as_dict R l)) s.leases)))
  unfolding as_dict
  taken-LockStep k l s e = elim (Bool-cases (text_eq (scope_key l.scope) k)) [
    | inl equal ↦
        rw (lookup-put k (scope_key l.scope) (content (as_dict R l)) s.leases, equal)
          (rw (← text_eq_sound (scope_key l.scope) k equal, e) (take l.lease_id))
    | inr other ↦
        rw (lookup-put k (scope_key l.scope) (content (as_dict R l)) s.leases, other) (keep _)
  ]

  prolonged-LockStep :
      (k n : Text) (l : TradingLease R) (s : Store R calendar)
      → holder s n ≡ locked l.lease_id
      → LockStep (holder s k) [] (holder_of (lookup k (put n (content (as_dict R l)) s.leases)))
  unfolding as_dict
  prolonged-LockStep k n l s e = elim (Bool-cases (text_eq n k)) [
    | inl equal ↦
        rw (lookup-put k n (content (as_dict R l)) s.leases, equal)
          (rw (← text_eq_sound n k equal, e) (keep _))
    | inr other ↦ rw (lookup-put k n (content (as_dict R l)) s.leases, other) (keep _)
  ]

  remove-LockStep :
      (k n i : Text) (s : Store R calendar)
      → holder s n ≡ locked i
      → LockStep (holder s k) [] (holder_of (lookup k (remove n s.leases)))
  remove-LockStep k n i s e = elim (Bool-cases (text_eq n k)) [
    | inl equal ↦
        rw (lookup-remove k n s.leases, equal) (rw (← text_eq_sound n k equal, e) (give_up i))
    | inr other ↦ rw (lookup-remove k n s.leases, other) (keep _)
  ]

  Change-LockStep :
      (me : Process) (alive : ℤ → Bool) (k : Text) (s after : Store R calendar)
      (granted : List (TradingLease R))
      → Change R calendar me alive s after granted
      → LockStep (holder s k) (granted_ids k granted) (holder after k)
  Change-LockStep me alive k s after granted (same e g) = rw (e, g) (keep _)
  Change-LockStep me alive k s after granted (taken l unheld mine e g) =
      rw (e, g) (taken-LockStep k l s unheld)
  Change-LockStep me alive k s after granted (prolonged scope d l held mine i e g) =
      rw (e, g) (prolonged-LockStep k (scope_key scope) l s (ap holder_of held ∙ ap locked (sym i)))
  Change-LockStep me alive k s after granted (freed scope d held may e g) =
      rw (e, g) (remove-LockStep k (scope_key scope) d.lease_id s (ap holder_of held))

  -- Whatever calls any processes make, one after the other, each of them is a step of a lock on the
  -- file of each scope: a lease appears only where there is no file, and is the one that the call
  -- grants; it keeps its ID through renewals, which grant none; and it has to be released or reclaimed
  -- before another lease appears.
  pub run-LockSteps :
      (s : Store R calendar) (ats : List (At R calendar)) (k : Text) → LockSteps k s ats
  run-LockSteps s [] k = tt
  run-LockSteps s (a ∷ ats) k = (
    Change-LockStep a.me a.alive k s (step R calendar s a).0 (step R calendar s a).1
        (step-Change R calendar s a.me a.now a.alive a.call),
    run-LockSteps (step R calendar s a).0 ats k,
  )
