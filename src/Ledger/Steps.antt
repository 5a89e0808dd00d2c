-- ===== src/Ledger/Steps.antt =====
-- What one step of a method computes to, as equations.
use candle_mind.Base.{ℕ, ◌≡◌, refl, Bool, true, false, some}
use candle_mind.Base.Text.{Text}
use candle_mind.Ledger.Contracts.{Job, Event, Error, Result, ok, err}
use candle_mind.Ledger.Rows.{
  Ledger, M, lift, gets, or_raise, ◌>>=◌, raise_if, write, transaction, job_at, event_of, event_at,
  fetch_job, fetch_event_of, fetch_event_at,
}

module _ {A B : Type 0} where
  pub step_lift :
      (r : Result A) (k : A → M B) (s : Ledger) {a : A} → r ≡ ok a → (lift r >>= k) s ≡ k a s
  unfolding ◌>>=◌
  step_lift (ok b) k s e = cc
  step_lift (err c) k s e = cc

  pub step_lift_err :
      (r : Result A) (k : A → M B) (s : Ledger) {c : Error}
      → r ≡ err c
      → (lift r >>= k) s ≡ (err c, s)
  unfolding ◌>>=◌
  step_lift_err (ok b) k s e = cc
  step_lift_err (err d) k s e = cc

  pub step_gets : (g : Ledger → A) (k : A → M B) (s : Ledger) → (gets g >>= k) s ≡ k (g s) s
  unfolding ◌>>=◌
  step_gets g k s = refl

  pub step_ok :
      (m : M A) (k : A → M B) (s s' : Ledger) (a : A) → m s ≡ (ok a, s') → (m >>= k) s ≡ k a s'
  unfolding ◌>>=◌
  step_ok m k s s' a e = cc

module _ {B : Type 0} where
  pub step_write :
      (g : Ledger → Ledger) (k : Unit {0} → M B) (s : Ledger) → (write g >>= k) s ≡ k tt (g s)
  unfolding ◌>>=◌
  step_write g k s = refl

  pub step_raise_if :
      (b : Bool) (e : Error) (k : Unit {0} → M B) (s : Ledger)
      → b ≡ false
      → (raise_if b e >>= k) s ≡ k tt s
  unfolding ◌>>=◌
  step_raise_if true e k s h = cc
  step_raise_if false e k s h = refl

  pub step_raised :
      (b : Bool) (e : Error) (k : Unit {0} → M B) (s : Ledger)
      → b ≡ true
      → (raise_if b e >>= k) s ≡ (err e, s)
  unfolding ◌>>=◌
  step_raised true e k s h = refl
  step_raised false e k s h = cc

module _ {A : Type 0} where
  pub transaction_ok :
      (m : M A) (s s' : Ledger) (a : A) → m s ≡ (ok a, s') → transaction m s ≡ (ok a, s')
  unfolding transaction
  transaction_ok m s s' a e = cc

  -- Whatever the body wrote before it raised is gone.
  pub transaction_err :
      (m : M A) (s s' : Ledger) (c : Error) → m s ≡ (err c, s') → transaction m s ≡ (err c, s)
  unfolding transaction
  transaction_err m s s' c e = cc

pub fetch_job_ok :
    (i : Text) (s : Ledger) (j : Job) → job_at i s ≡ some j → fetch_job i s ≡ (ok j, s)
unfolding fetch_job or_raise
fetch_job_ok i s j e = rw e

pub fetch_event_of_ok :
    (i : Text) (s : Ledger) (e : Event) → event_of i s ≡ some e → fetch_event_of i s ≡ (ok e, s)
unfolding fetch_event_of or_raise
fetch_event_of_ok i s e h = rw h

pub fetch_event_at_ok :
    (n : ℕ) (s : Ledger) (e : Event) → event_at n s ≡ some e → fetch_event_at n s ≡ (ok e, s)
unfolding fetch_event_at or_raise
fetch_event_at_ok n s e h = rw h
