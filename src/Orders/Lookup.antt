-- ===== src/Orders/Lookup.antt =====
-- exchange_executor.py: `lookup` creates no order.
use candle_mind.Binance.Executor.{Answer}
use candle_mind.Base.Text.{Text}
use candle_mind.Base.Result.{ok, err, Result}
use candle_mind.Orders.Intents.{Payload, ExecutionResult, OrderIntent}
use candle_mind.Orders.Execute.{found, looked_up, Reply, lookup_order, Desk, order, Market}
use candle_mind.Orders.Rules.{SymbolRules, ExecutionFault, Decimals}
use candle_mind.Base.{is_some, inr, inl, refl, arith, ◌≤◌, ◌+◌, ◌≡◌, split_if}

module _ (K : Decimals) (market : Market K) where
  -- At most one more run, and no submission; an answer without a status is an order in an unknown state.
  unfoldable pub Looks : Desk K → Reply K market → Type 0
  Looks desk (o, after) = (after.submitted ≡ desk.submitted) × (after.runs ≤ desk.runs + 1)

  looks :
      (o : Result ExecutionFault (ExecutionResult K)) (desk after : Desk K)
      → after.submitted ≡ desk.submitted
      → after.runs ≡ desk.runs + 1
      → Looks desk (o, after)
  unfolding Looks
  looks o desk after s r = (s, omega (arith, r))

  found-Looks :
      (i : OrderIntent K) (quantity : K.D) (client_order_id : Text) (a : Answer (Payload K))
      (desk after : Desk K)
      → after.submitted ≡ desk.submitted
      → after.runs ≡ desk.runs + 1
      → Looks desk (found K market i quantity client_order_id (a, after))
  found-Looks i quantity client_order_id (inl e) desk after s r = looks _ desk after s r
  found-Looks i quantity client_order_id (inr p) desk after s r =
      split_if (Looks desk) (is_some p.status) (λ _. looks _ desk after s r)
        (λ _. looks _ desk after s r)

  ordered-Looks :
      (i : OrderIntent K) (quantity : K.D) (client_order_id : Text) (desk : Desk K)
      → Looks desk (found K market i quantity client_order_id (order K market desk))
  unfolding order
  ordered-Looks i quantity client_order_id desk =
      found-Looks i quantity client_order_id (order K market desk).0 desk (order K market desk).1
        refl (omega arith)

  kept-Looks : (f : ExecutionFault) (desk : Desk K) → Looks desk (err f, desk)
  unfolding Looks
  kept-Looks f desk = (refl, omega arith)

  looked_up-Looks :
      (i : OrderIntent K) (r : Result ExecutionFault (K.D × Text)) (desk : Desk K)
      → Looks desk (looked_up K market i r desk)
  looked_up-Looks i (err f) desk = kept-Looks f desk
  looked_up-Looks i (ok (quantity, client_order_id)) desk =
      ordered-Looks i quantity client_order_id desk

  -- Whatever the exchange answers, lookup makes at most one run of the retry executor, and submits no
  -- order.
  pub lookup_order-Looks :
      (rules : SymbolRules K) (i : OrderIntent K) (desk : Desk K)
      → Looks desk (lookup_order K market rules i desk)
  unfolding lookup_order
  lookup_order-Looks rules i desk = looked_up-Looks i _ desk
