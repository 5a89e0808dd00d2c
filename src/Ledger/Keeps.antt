-- ===== src/Ledger/Keeps.antt =====
-- Rules to follow a predicate of the ledger through a method, one for each kind of step.
use candle_mind.Base.{ℕ, ◌≡◌, refl, Bool, true, false, Option, none, some, if◌then◌else◌}
use candle_mind.Ledger.Contracts.{Job, Error, Result, ok, err}
use candle_mind.Base.Text.{Text}
use candle_mind.Ledger.Rows.{
  Ledger, M, pure, raise, lift, gets, or_raise, ◌>>=◌, raise_if, write, transaction, job_at,
  event_of, event_at, fetch_job, fetch_event_of, fetch_event_at,
}

module _ (P : Ledger → Type 0) where
  -- The ledger after a method that was called on `s` meets `P`.
  abbrev pub After : {A : Type 0} → M A → Ledger → Type 0
  After m s = P (m s).1

  module _ {A B : Type 0} where
    pub After-lift :
        (r : Result A) (k : A → M B) (s : Ledger)
        → P s
        → ((a : A) → r ≡ ok a → After (k a) s)
        → After (lift r >>= k) s
    unfolding ◌>>=◌
    After-lift (ok a) k s h f = f a refl
    After-lift (err e) k s h f = h

    pub After-gets :
        (g : Ledger → A) (k : A → M B) (s : Ledger) → After (k (g s)) s → After (gets g >>= k) s
    unfolding ◌>>=◌
    After-gets g k s h = h

    -- A step of which it is known what it returns and where it ends.
    pub After-step :
        (m : M A) (k : A → M B) (s : Ledger)
        → After m s
        → ((a : A) (s' : Ledger) → m s ≡ (ok a, s') → After (k a) s')
        → After (m >>= k) s
    unfolding ◌>>=◌
    After-step m k s h f = go (m s) refl h
      where
        go :
            (r : Result A × Ledger)
            → m s ≡ r
            → P r.1
            → P (elim r.0 as (λ _. Result B × Ledger) [ ok a ↦ k a r.1 | err e ↦ (err e, r.1) ]).1
        go (ok a, s') e p = f a s' e
        go (err c, s') e p = p

  pub After-raise : (A : Type 0) (e : Error) (s : Ledger) → P s → After (raise {A = A} e) s
  unfolding raise
  After-raise A e s h = h

  pub After-assoc :
      {A B C : Type 0} (m : M A) (n : A → M B) (k : B → M C) (s : Ledger)
      → After (m >>= λ a. n a >>= k) s
      → After ((m >>= n) >>= k) s
  unfolding ◌>>=◌
  After-assoc {A} {B} {C} m n k s h = go (m s) h
    where
      go :
          (r : Result A × Ledger)
          → P
              (elim r.0 as (λ _. Result C × Ledger) [
                | ok a ↦ (n a >>= k) r.1
                | err e ↦ (err e, r.1)
              ]).1
          → P
              (((λ (t : Ledger). elim r.0 as (λ _. Result B × Ledger) [
                | ok a ↦ n a r.1
                | err e ↦ (err e, r.1)
              ])
                  >>= k)
                s).1
      go (ok a, s') h = h
      go (err c, s') h = h

  module _ {A B : Type 0} where
    pub After-if :
        (b : Bool) (m n : M A) (k : A → M B) (s : Ledger)
        → (b ≡ true → After (m >>= k) s)
        → (b ≡ false → After (n >>= k) s)
        → After ((if b then m else n) >>= k) s
    After-if true m n k s f g = f refl
    After-if false m n k s f g = g refl

    pub After-pure_then :
        (a : A) (k : A → M B) (s : Ledger) → After (k a) s → After (pure a >>= k) s
    unfolding ◌>>=◌
    After-pure_then a k s h = h

  module _ {B : Type 0} where
    pub After-raise_if :
        (b : Bool) (e : Error) (k : Unit {0} → M B) (s : Ledger)
        → P s
        → (b ≡ false → After (k tt) s)
        → After (raise_if b e >>= k) s
    unfolding ◌>>=◌
    After-raise_if true e k s h f = h
    After-raise_if false e k s h f = f refl

    pub After-write :
        (g : Ledger → Ledger) (k : Unit {0} → M B) (s : Ledger)
        → After (k tt) (g s)
        → After (write g >>= k) s
    unfolding ◌>>=◌
    After-write g k s h = h

  module _ {A : Type 0} where
    pub After-pure : (a : A) (s : Ledger) → P s → After (pure a) s
    unfolding pure
    After-pure a s h = h

    pub After-or_raise : (o : Option A) (e : Error) (s : Ledger) → P s → After (or_raise o e) s
    unfolding or_raise
    After-or_raise none e s h = h
    After-or_raise (some a) e s h = h

    settle : (r : Result A) (s s' : Ledger) → P s → P s' → P (elim r [ ok _ ↦ s' | err _ ↦ s ])
    settle (ok a) s s' h h' = h'
    settle (err e) s s' h h' = h

    pub After-transaction : (m : M A) (s : Ledger) → P s → After m s → After (transaction m) s
    unfolding transaction
    After-transaction m s h h' = settle (m s).0 s (m s).1 h h'

  pub After-fetch_job : (i : Text) (s : Ledger) → P s → After (fetch_job i) s
  unfolding fetch_job
  After-fetch_job i s h = After-or_raise (job_at i s) _ s h

  pub After-fetch_event_of : (i : Text) (s : Ledger) → P s → After (fetch_event_of i) s
  unfolding fetch_event_of
  After-fetch_event_of i s h = After-or_raise (event_of i s) _ s h

  pub After-fetch_event_at : (n : ℕ) (s : Ledger) → P s → After (fetch_event_at n) s
  unfolding fetch_event_at
  After-fetch_event_at n s h = After-or_raise (event_at n s) _ s h

  pub After-fetch_then :
      {B : Type 0} (i : Text) (k : Job → M B) (s : Ledger)
      → P s
      → ((j : Job) → After (k j) s)
      → After (fetch_job i >>= k) s
  unfolding fetch_job ◌>>=◌
  After-fetch_then i k s h f = go (job_at i s)
    where
      go : (o : Option Job) → After (λ t. (or_raise o Error.type_error >>= k) t) s
      go none = h
      go (some j) = f j
