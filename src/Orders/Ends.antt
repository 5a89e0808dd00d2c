-- ===== src/Orders/Ends.antt =====
-- exchange_executor.py: what follows a submission ends, and submits nothing.
use candle_mind.Binance.Executor.{Answer}
use candle_mind.Base.Text.{strip, upper, Text}
use candle_mind.Base.Result.{◌>>=◌, ok, err, Result}
use candle_mind.Orders.Intents.{
  Payload, is_final, OrderIntent, ExecutionResult, normalized_symbol, normalize_result,
}
use candle_mind.Orders.Execute.{
  recovers, started, sleeps, with_result, polled, poll, Reply, Desk, order, Market,
}
use candle_mind.Orders.Rules.{non_negative_decimal, refuse, ExecutionFault, Decimals}
use candle_mind.Base.{
  is_some, get_or, none, some, inr, inl, Option, refl, Bool, ◌+◌, arith, ◌≤◌, ℕ, [], not, false,
  true, ◌≡◌, split_if, zero, suc,
}

-- A check that raises, raises ExchangeExecutionError.
unfoldable Refuses : {A : Type 0} → Result ExecutionFault A → Type 0
Refuses (ok a) = Unit
Refuses (err f) = f ≡ ExecutionFault.execution_error

ok-Refuses : {A : Type 0} (a : A) → Refuses (ok a)
unfolding Refuses
ok-Refuses a = tt

bind-Refuses :
    {A B : Type 0} (r : Result ExecutionFault A) (g : A → Result ExecutionFault B)
    → Refuses r
    → ((a : A) → Refuses (g a))
    → Refuses (r >>= g)
unfolding Refuses
bind-Refuses (ok a) g h k = k a
bind-Refuses (err f) g h k = h

refuse-Refuses :
    {A : Type 0} (b : Bool) (r : Result ExecutionFault A)
    → Refuses r
    → Refuses (refuse b ExecutionFault.execution_error r)
unfolding Refuses
refuse-Refuses true r h = refl
refuse-Refuses false r h = h

non_negative-Refuses : (K : Decimals) (o : Option K.D) → Refuses (non_negative_decimal K o)
unfolding Refuses
non_negative-Refuses K none = refl
non_negative-Refuses K (some x) =
    bind-Refuses _ _ (refuse-Refuses (not (K.is_finite x)) (ok x) (ok-Refuses x))
      (λ y. refuse-Refuses (K.lt y K.zero) (ok y) (ok-Refuses y))

module _ (K : Decimals) (market : Market K) where
  -- A result has a final status; a fault is not that the order was refused for now.
  abbrev pub Settled : Result ExecutionFault (ExecutionResult K) → Type 0
  Settled (ok r) = is_final K r ≡ true
  Settled (err ExecutionFault.gateway_unavailable) = ⊥
  Settled (err _) = Unit

  -- At most `n` more runs, no submission, and a settled reply.
  unfoldable pub Ends : ℕ → Desk K → Reply K market → Type 0
  Ends n desk (o, after) =
      (after.submitted ≡ desk.submitted) × (after.runs ≤ desk.runs + n) × Settled o

  fault-Ends : (n : ℕ) (desk : Desk K) → Ends n desk (err ExecutionFault.recovery_required, desk)
  unfolding Ends
  fault-Ends n desk = (refl, omega arith, tt)

  final-Ends :
      (n : ℕ) (r : ExecutionResult K) (desk : Desk K)
      → is_final K r ≡ true
      → Ends n desk (ok r, desk)
  unfolding Ends
  final-Ends n r desk h = (refl, omega arith, h)

  -- After a lookup.
  ordered-Ends :
      (n : ℕ) (desk : Desk K) (reply : Reply K market)
      → Ends n (order K market desk).1 reply
      → Ends (suc n) desk reply
  unfolding Ends order
  ordered-Ends n desk (o, after) e = (e.0, omega (arith, e.1), e.2)

  slept-Ends :
      (n : ℕ) (desk : Desk K) (reply : Reply K market)
      → Ends n (sleeps K market desk) reply
      → Ends n desk reply
  unfolding Ends
  slept-Ends n desk (o, after) e = e

  module _ (i : OrderIntent K) (quantity : K.D) (client_order_id : Text) (recovered : Bool) where
    normalize_result-Refuses :
        (p : Payload K) → Refuses (normalize_result K i quantity client_order_id p recovered)
    unfolding normalize_result normalized_symbol
    normalize_result-Refuses p =
        bind-Refuses (normalized_symbol (get_or p.symbol [])) _
          (refuse-Refuses _ _ (ok-Refuses (upper (strip (get_or p.symbol [])))))
          (λ symbol.
            bind-Refuses _ _ (non_negative-Refuses K (K.decimal_of p.executed_qty)) (λ executed.
              bind-Refuses _ _ (non_negative-Refuses K (K.decimal_of p.avg_price))
                (λ average. ok-Refuses _)))

    refused-Ends :
        (n : ℕ) (f : ExecutionFault) (desk : Desk K)
        → Refuses {A = ExecutionResult K} (err f)
        → Ends n desk (err f, desk)
    unfolding Ends Refuses
    refused-Ends n f desk h = rw h (refl, omega arith, tt)

    with_result-Ends :
        (n : ℕ) (next : ExecutionResult K → Desk K → Reply K market)
        (o : Result ExecutionFault (ExecutionResult K)) (desk : Desk K)
        → Refuses o
        → ((r : ExecutionResult K) → Ends n desk (next r desk))
        → Ends n desk (with_result K market i quantity client_order_id recovered next o desk)
    with_result-Ends n next (err f) desk h ends = refused-Ends n f desk h
    with_result-Ends n next (ok r) desk h ends = ends r

    polled-Ends :
        (n : ℕ) (next : ExecutionResult K → Desk K → Reply K market) (a : Answer (Payload K))
        (desk : Desk K)
        → ((r : ExecutionResult K) → Ends n desk (next r desk))
        → Ends n desk (polled K market i quantity client_order_id recovered next (a, desk))
    polled-Ends n next (inl e) desk ends = fault-Ends n desk
    polled-Ends n next (inr p) desk ends =
        with_result-Ends n next _ desk (normalize_result-Refuses p) ends

    poll-Ends :
        (n : ℕ) (r : ExecutionResult K) (desk : Desk K)
        → Ends n desk (poll K market i quantity client_order_id recovered n r desk)
    unfolding poll
    poll-Ends zero r desk = fault-Ends zero desk
    poll-Ends (suc n) r desk =
        split_if (Ends (suc n) desk) (is_final K r) (λ h. final-Ends (suc n) r desk h)
          (λ _. slept-Ends (suc n) desk _ (
            ordered-Ends n (sleeps K market desk) _ (
              polled-Ends n (poll K market i quantity client_order_id recovered n)
                (order K market (sleeps K market desk)).0 (order K market (sleeps K market desk)).1
                (λ q. poll-Ends n q (order K market (sleeps K market desk)).1))))

    pub started-Ends :
        (p : Payload K) (desk : Desk K)
        → Ends 5 desk (started K market i quantity client_order_id recovered p desk)
    started-Ends p desk =
        with_result-Ends 5 (poll K market i quantity client_order_id recovered 5) _ desk
          (normalize_result-Refuses p) (λ r. poll-Ends 5 r desk)

  recovered-Ends :
      (i : OrderIntent K) (quantity : K.D) (client_order_id : Text) (a : Answer (Payload K))
      (desk : Desk K)
      → Ends 5 desk (recovers K market i quantity client_order_id (a, desk))
  recovered-Ends i quantity client_order_id (inl e) desk = fault-Ends 5 desk
  recovered-Ends i quantity client_order_id (inr p) desk =
      split_if (Ends 5 desk) (is_some p.status)
        (λ _. started-Ends i quantity client_order_id true p desk) (λ _. fault-Ends 5 desk)

  pub recovers-Ends :
      (i : OrderIntent K) (quantity : K.D) (client_order_id : Text) (desk : Desk K)
      → Ends 6 desk (recovers K market i quantity client_order_id (order K market desk))
  recovers-Ends i quantity client_order_id desk =
      ordered-Ends 5 desk _
        (recovered-Ends i quantity client_order_id (order K market desk).0 (order K market desk).1)
