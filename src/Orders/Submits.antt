-- ===== src/Orders/Submits.antt =====
-- exchange_executor.py: the order that `execute` submits, and what its outcome says of it.
use candle_mind.Base.Checked.{is_side}
use candle_mind.Binance.Classify.{classify_binance_failure}
use candle_mind.Binance.Failure.{BinanceSubmissionOutcome, Exception}
use candle_mind.Binance.Submission.{submit_once, submit-Tells, Tells, NotAccepted, OnlyLastCounts}
use candle_mind.Orders.Ends.{recovers-Ends, started-Ends, Ends, Settled}
use candle_mind.Binance.Executor.{
  is_policy, BinanceOperation, World, Answer, is_not_accepted, Outcome, Request,
}
use candle_mind.Base.Result.{bind-parts, ok, err, Result}
use candle_mind.Orders.Intents.{
  deterministic_client_order_id, normalized_symbol, OrderIntentType, side_of, OrderParams, is_final,
  Payload, is_closing, ExecutionResult, OrderIntent,
}
use candle_mind.Base.Int.{ltb_ℤ, eq_ℤ, eq_ℤ_sound, neg_ℤ, negsuc, pos, ℤ}
use candle_mind.Orders.Execute.{
  execute, executed, is_authentication, submit, is_unknown, prepare, submitted_with, params_of,
  run_of, submission_failed, Prepared, answer_of, is_authorized, Reply, Desk, Submission, Network,
  Market,
}
use candle_mind.Orders.Rules.{
  not-false, ok-injective, refuse-parts, finite_decimal, positive_decimal, floor_quantity,
  ExecutionFault, SymbolRules, Decimals,
}
use candle_mind.Base.Text.{strip, codes, text_eq, Text}
use candle_mind.Base.{
  ◌∙◌, ap, not, ◌||◌, some, eq_Bool, ◌⊎◌, inr, ℕ, sym, refl, arith, subst, inl, All, ◌+◌, ◌≤◌,
  Option, [], ◌∷◌, false, true, ◌≡◌, split_if, List, if◌then◌else◌, suc,
}

-- An order buys or sells.
abbrev pub sign_of : Text → ℤ
sign_of side = if text_eq side (codes "BUY") then pos 1 else negsuc 0

not_accepted_sound :
    (o : BinanceSubmissionOutcome)
    → is_not_accepted o ≡ true
    → o ≡ BinanceSubmissionOutcome.not_accepted
not_accepted_sound BinanceSubmissionOutcome.not_accepted h = refl
not_accepted_sound BinanceSubmissionOutcome.unknown h = cc
not_accepted_sound BinanceSubmissionOutcome.rejected h = cc

side_cases : (d : ℤ) → is_side d ≡ true → (d ≡ negsuc 0) ⊎ (d ≡ pos 1)
side_cases d h = ground (arith, eq_ℤ_sound d (negsuc 0), eq_ℤ_sound d (pos 1))

-- The side of an order of a short or a long.
abbrev trade : ℤ → OrderIntentType → Text
trade d action = if eq_Bool (eq_ℤ d (pos 1)) (is_closing action) then codes "SELL" else codes "BUY"

short_trades :
    (action : OrderIntentType)
    → sign_of (trade (negsuc 0) action) ≡ (if is_closing action then neg_ℤ (negsuc 0) else negsuc 0)
unfolding text_eq
short_trades OrderIntentType.opening = refl
short_trades OrderIntentType.adding = refl
short_trades OrderIntentType.closing = refl

long_trades :
    (action : OrderIntentType)
    → sign_of (trade (pos 1) action) ≡ (if is_closing action then neg_ℤ (pos 1) else pos 1)
unfolding text_eq
long_trades OrderIntentType.opening = refl
long_trades OrderIntentType.adding = refl
long_trades OrderIntentType.closing = refl

module _ (K : Decimals) (market : Market K) (rules : SymbolRules K) (network : Option Network) where
  -- Of a positive quantity, the whole steps that it holds, which are in the limits of the symbol.
  pub record Sized (value q : K.D) : Type 0 where
    pub finite : K.is_finite value ≡ true
    pub positive : K.lt K.zero value ≡ true
    pub steps : q ≡ K.mul (K.round_down (K.div value rules.step_size)) rules.step_size
    pub above : K.lt q rules.min_quantity ≡ false
    pub below : K.lt rules.max_quantity q ≡ false

  -- A submission of an intent: it was authorised, an open or an add trades the intent's direction, a
  -- close trades against it and only reduces, it is for the whole steps of the intent's quantity, under
  -- the symbol and the deterministic ID of the intent, and of the requests only the last may have been
  -- accepted.
  pub record Places (i : OrderIntent K) (sub : Submission K) : Type 0 where
    pub authorized : is_authorized network market.trading_enabled ≡ true
    pub trades :
        sign_of sub.params.side ≡ (if is_closing i.action then neg_ℤ i.direction else i.direction)
    pub reduces : sub.params.reduce_only ≡ is_closing i.action
    pub sized : (q : K.D) × (sub.params.quantity ≡ K.show q) × Sized i.quantity q
    pub symbol : normalized_symbol i.symbol ≡ ok sub.params.symbol
    pub identified :
        deterministic_client_order_id K market.sha256 i ≡ ok sub.params.new_client_order_id
    pub once : OnlyLastCounts sub.requests

  -- A result is final, and where the gateway is said to be unavailable no request was accepted.
  unfoldable pub Reports : Result ExecutionFault (ExecutionResult K) → List Request → Type 0
  Reports (ok r) rs = is_final K r ≡ true
  Reports (err ExecutionFault.gateway_unavailable) rs = All NotAccepted rs
  Reports (err _) rs = Unit

  pub data Executes (i : OrderIntent K) (desk : Desk K) (reply : Reply K market) : Type 0 where
    nothing : (f : ExecutionFault) → reply ≡ (err f, desk) → Executes i desk reply
    submits :
        (sub : Submission K)
        → reply.1.submitted ≡ sub ∷ desk.submitted
        → Places i sub
        → Reports reply.0 sub.requests
        → reply.1.runs ≤ desk.runs + 7
        → Executes i desk reply

  refused_requests :
      (o : Outcome (Payload K)) (e : Exception) (rs : List Request)
      → answer_of o ≡ inl e
      → Tells o rs
      → is_not_accepted (classify_binance_failure e).submission_outcome ≡ true
      → All NotAccepted rs
  refused_requests (Outcome.returned v) e rs h t n = cc
  refused_requests (Outcome.raised x) e [] h t n = tt
  refused_requests (Outcome.raised x) e (r ∷ rs) h t n =
      let same : x ≡ e = cc in
      (
        (
          classify_binance_failure x,
          t.0,
          not_accepted_sound _ (
              subst (λ y. is_not_accepted (classify_binance_failure y).submission_outcome ≡ true)
                (sym same) n),
        ),
        t.1,
      )
  refused_requests Outcome.cooldown_active e rs h t n = t
  refused_requests Outcome.exhausted e rs h t n = elim t [ ]

  Settled-Reports :
      (o : Result ExecutionFault (ExecutionResult K)) (rs : List Request)
      → Settled K market o
      → Reports o rs
  unfolding Reports
  Settled-Reports (ok r) rs h = h
  Settled-Reports (err ExecutionFault.gateway_unavailable) rs h = elim h [ ]
  Settled-Reports (err ExecutionFault.execution_error) rs h = tt
  Settled-Reports (err ExecutionFault.unsupported_account) rs h = tt
  Settled-Reports (err ExecutionFault.gateway_rejected) rs h = tt
  Settled-Reports (err ExecutionFault.gateway_authentication) rs h = tt
  Settled-Reports (err ExecutionFault.recovery_required) rs h = tt
  Settled-Reports (err ExecutionFault.conversion_error) rs h = tt

  module _ (i : OrderIntent K) (o : Prepared K market) (desk : Desk K) where
    abbrev params : OrderParams K
    params = params_of K market i o.symbol o.quantity o.client_order_id

    abbrev sent : Outcome (Payload K) × World
    sent = run_of K market BinanceOperation.write_submit desk

    abbrev submission : Submission K
    submission = record { params = params; requests = sent.1.requests }

    -- The desk after the submission.
    abbrev sent_desk : Desk K
    sent_desk = record {
      world = sent.1;
      runs = suc desk.runs;
      submitted = submission ∷ desk.submitted;
    }

    -- A reply after the submission.
    unfoldable Follows : Reply K market → Type 0
    Follows reply =
        (reply.1.submitted ≡ submission ∷ desk.submitted)
        × Reports reply.0 submission.requests
        × (reply.1.runs ≤ desk.runs + 7)

    Ends-Follows :
        (n : ℕ) (reply : Reply K market) → n ≤ 6 → Ends K market n sent_desk reply → Follows reply
    unfolding Follows Ends
    Ends-Follows n (r, after) h e = (e.0, Settled-Reports r _ e.2, omega (arith, e.1))

    fault-Follows :
        (f : ExecutionFault) → Reports (err f) submission.requests → Follows (err f, sent_desk)
    unfolding Follows
    fault-Follows f h = (refl, h, omega arith)

    unavailable-Reports :
        All NotAccepted submission.requests
        → Reports (err ExecutionFault.gateway_unavailable) submission.requests
    unfolding Reports
    unavailable-Reports h = h

    rejected-Reports : Reports (err ExecutionFault.gateway_rejected) submission.requests
    unfolding Reports
    rejected-Reports = tt

    authentication-Reports : Reports (err ExecutionFault.gateway_authentication) submission.requests
    unfolding Reports
    authentication-Reports = tt

    failed-Follows :
        (e : Exception)
        → answer_of sent.0 ≡ inl e
        → Tells sent.0 sent.1.requests
        → Follows (submission_failed K market i o.quantity o.client_order_id e sent_desk)
    unfolding submission_failed
    failed-Follows e h t =
        split_if Follows (is_not_accepted (classify_binance_failure e).submission_outcome)
          (λ refused.
            split_if Follows (classify_binance_failure e).retryable
              (λ _.
                fault-Follows ExecutionFault.gateway_unavailable
                  (unavailable-Reports (refused_requests sent.0 e sent.1.requests h t refused)))
              (λ _. fault-Follows ExecutionFault.gateway_rejected rejected-Reports))
          (λ _.
            split_if Follows (not (is_unknown K market e))
              (λ _.
                split_if Follows (is_authentication K market (classify_binance_failure e).category)
                  (λ _. fault-Follows ExecutionFault.gateway_authentication authentication-Reports)
                  (λ _. fault-Follows ExecutionFault.gateway_rejected rejected-Reports))
              (λ _.
                Ends-Follows 6 _ (omega arith)
                  (recovers-Ends K market i o.quantity o.client_order_id sent_desk)))

    submitted-Follows :
        (a : Answer (Payload K))
        → answer_of sent.0 ≡ a
        → Tells sent.0 sent.1.requests
        → Follows (submitted_with K market i o.quantity o.client_order_id (a, sent_desk))
    submitted-Follows (inl e) h t = failed-Follows e h t
    submitted-Follows (inr p) h t =
        Ends-Follows 5 _ (omega arith)
          (started-Ends K market i o.quantity o.client_order_id false p sent_desk)

    submit-Follows :
        is_policy market.policy ≡ true
        → Follows
            (submitted_with K market i o.quantity o.client_order_id (submit K market params desk))
    unfolding submit
    submit-Follows valid = submitted-Follows (answer_of sent.0) refl (
        submit-Tells market.policy (market.answers desk.runs) (record desk.world { requests = [] })
          valid refl)

    once : is_policy market.policy ≡ true → OnlyLastCounts submission.requests
    once valid =
        submit_once market.policy (market.answers desk.runs) (record desk.world { requests = [] })
          valid refl

  abbrev record_of : Text → K.D → Text → Prepared K market
  record_of symbol quantity client_order_id = record {
    symbol = symbol;
    quantity = quantity;
    client_order_id = client_order_id;
  }

  positive_decimal-parts :
      (value v : K.D)
      → positive_decimal K (some value) ≡ ok v
      → (K.is_finite value ≡ true) × (K.lt K.zero value ≡ true) × (value ≡ v)
  positive_decimal-parts value v h =
      let f = bind-parts (finite_decimal K (some value)) _ v h in
      let finite = refuse-parts (not (K.is_finite value)) _ _ f.0 f.1 in
      let same = ok-injective (ok value) value f.0 refl finite.1 in
      let p = refuse-parts (not (K.lt K.zero f.0)) _ _ v f.2 in
      let made = ok-injective (ok f.0) f.0 v refl p.1 in
      (
        not-false _ finite.0,
        subst (λ x. K.lt K.zero x ≡ true) (sym same) (not-false _ p.0),
        same ∙ made,
      )

  floor_quantity-Sized : (value q : K.D) → floor_quantity K rules value ≡ ok q → Sized value q
  unfolding floor_quantity
  floor_quantity-Sized value q h =
      let v = bind-parts (positive_decimal K (some value)) _ q h in
      let p = positive_decimal-parts value v.0 v.1 in
      let low = refuse-parts _ _ _ q v.2 in
      let high = refuse-parts _ _ _ q low.1 in
      let made = ok-injective (ok _) _ q refl high.1 in
      record {
        finite = p.0;
        positive = p.1;
        steps =
            sym made
            ∙ ap (λ x. K.mul (K.round_down (K.div x rules.step_size)) rules.step_size) (sym p.2);
        above = subst (λ x. K.lt x rules.min_quantity ≡ false) made low.0;
        below = subst (λ x. K.lt rules.max_quantity x ≡ false) made high.0;
      }

  -- What was prepared.
  record Prepares (i : OrderIntent K) (o : Prepared K market) : Type 0 where
    authorized : is_authorized network market.trading_enabled ≡ true
    sided : is_side i.direction ≡ true
    sized : Sized i.quantity o.quantity
    symbol : normalized_symbol i.symbol ≡ ok o.symbol
    identified : deterministic_client_order_id K market.sha256 i ≡ ok o.client_order_id

  prepare-Prepares :
      (i : OrderIntent K) (o : Prepared K market)
      → prepare K market rules network i ≡ ok o
      → Prepares i o
  unfolding prepare
  prepare-Prepares i o h =
      let a = refuse-parts (not (is_authorized network market.trading_enabled)) _ _ o h in
      let s = bind-parts (normalized_symbol i.symbol) _ o a.1 in
      let d = refuse-parts (not (is_side i.direction)) _ _ o s.2 in
      let n =
        refuse-parts (text_eq (strip i.decision_id) [] || ltb_ℤ i.ordinal (pos 0)) _ _ o d.1 in
      let q = bind-parts (floor_quantity K rules i.quantity) _ o n.1 in
      let c = bind-parts (deterministic_client_order_id K market.sha256 i) _ o q.2 in
      let made : record_of s.0 q.0 c.0 ≡ o = cc in
      subst (Prepares i) made (record {
        authorized = not-false _ a.0;
        sided = not-false _ d.0;
        sized = floor_quantity-Sized i.quantity q.0 q.1;
        symbol = s.1;
        identified = c.1;
      })

  trades-with :
      (i : OrderIntent K)
      → is_side i.direction ≡ true
      → sign_of (side_of K i) ≡ (if is_closing i.action then neg_ℤ i.direction else i.direction)
  unfolding side_of text_eq
  trades-with i h = elim (side_cases i.direction h) [
    | inl short ↦ rw short (short_trades i.action)
    | inr long ↦ rw long (long_trades i.action)
  ]

  places :
      (i : OrderIntent K) (o : Prepared K market) (desk : Desk K)
      → is_policy market.policy ≡ true
      → Prepares i o
      → Places i (submission i o desk)
  places i o desk valid p = record {
    authorized = p.authorized;
    trades = trades-with i p.sided;
    reduces = refl;
    sized = (o.quantity, refl, p.sized);
    symbol = p.symbol;
    identified = p.identified;
    once = once i o desk valid;
  }

  executed-Executes :
      (i : OrderIntent K) (desk : Desk K) (r : Result ExecutionFault (Prepared K market))
      → prepare K market rules network i ≡ r
      → is_policy market.policy ≡ true
      → Executes i desk (executed K market i r desk)
  unfolding Follows
  executed-Executes i desk (err f) h valid = nothing f refl
  executed-Executes i desk (ok o) h valid =
      let f = submit-Follows i o desk valid in
      submits (submission i o desk) f.0 (places i o desk valid (prepare-Prepares i o h)) f.1 f.2

  -- Whatever the exchange answers, and for a retry policy of at least one attempt, execute ends after
  -- at most seven runs of the retry executor. It raises without a request, or it makes one
  -- submission: one that is authorised, whose side trades with the intent if that opens or adds, and
  -- against it and reduce-only if it closes, whose symbol and client order ID are those of the intent,
  -- whose quantity is the whole steps of the symbol in the intent's positive quantity, not below the
  -- least and not above the greatest quantity of the symbol, and of whose requests none but the last
  -- may have been accepted. A result has a final status, and where
  -- it raises that the gateway is unavailable, the exchange said of every request that it was not
  -- accepted.
  pub execute-Executes :
      (i : OrderIntent K) (desk : Desk K)
      → is_policy market.policy ≡ true
      → Executes i desk (execute K market rules network i desk)
  unfolding execute
  execute-Executes i desk valid =
      executed-Executes i desk (prepare K market rules network i) refl valid
