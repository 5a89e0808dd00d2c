-- ===== src/Binance/Attempts.antt =====
-- binance_retry.py: what holds of all the attempts of one call of `run`.
use candle_mind.Binance.Classify.{classify_binance_failure}
use candle_mind.Binance.Failure.{Exception}
use candle_mind.Base.{refl, Option, ◌≤◌, ◌≢◌, zero, arith, ◌+◌, suc, none, inr, inl, some, ◌≡◌, ℕ}
use candle_mind.Binance.Executor.{
  cooled_on, answered_on, failed_on, Answer, after_failure, send, cool_down, Outcome, World,
  attempts, BinanceOperation, Outside, BinanceRetryPolicy,
}

module _ {T : Type 0} (policy : BinanceRetryPolicy) (out : Outside T) (operation : BinanceOperation)
    (started : ℕ) (Ready Cooled : ℕ → World → Type 0) (Failed : ℕ → Exception → World → Type 0)
    (Done : Outcome T × World → Type 0)
    (cool : (n : ℕ) (w w' : World)
      → Ready n w
      → cool_down policy out started w ≡ some w'
      → Cooled n w')
    (hot : (n : ℕ) (w : World) → Ready n w → Done (Outcome.cooldown_active, w))
    (fail : (n : ℕ) (w w' : World) (e : Exception)
      → Cooled n w
      → send out w ≡ (inl e, w')
      → Failed n e w')
    (done : (n : ℕ) (w w' : World) (v : T)
      → Cooled n w
      → send out w ≡ (inr v, w')
      → Done (Outcome.returned v, w'))
    (stop : (n : ℕ) (w w' : World) (e : Exception)
      → Failed n e w
      → after_failure policy out operation started n (classify_binance_failure e) w ≡ (none, w')
      → Done (Outcome.raised e, w'))
    (again_ready : (n : ℕ) (w w' w'' : World) (e : Exception)
      → Failed n e w
      → after_failure policy out operation started n (classify_binance_failure e) w ≡ (some w', w'')
      → n ≢ policy.max_attempts × Ready (suc n) w') where
  failed_rule :
      (n : ℕ) (again : World → Outcome T × World)
      → ((w : World) → n ≢ policy.max_attempts → Ready (suc n) w → Done (again w))
      → (e : Exception) (w : World) (r : Option World × World) → Failed n e w
      → after_failure policy out operation started n (classify_binance_failure e) w ≡ r
      → Done (failed_on policy out operation started again e r)
  failed_rule n again next e w (none, w') h eq = stop n w w' e h eq
  failed_rule n again next e w (some w', w'') h eq =
      let (more, ready) = again_ready n w w' w'' e h eq in next w' more ready

  answered_rule :
      (n : ℕ) (again : World → Outcome T × World)
      → ((w : World) → n ≢ policy.max_attempts → Ready (suc n) w → Done (again w))
      → (w : World) (r : Answer T × World) → Cooled n w
      → send out w ≡ r
      → Done (answered_on policy out operation started n again r)
  answered_rule n again next w (inr v, w') h eq = done n w w' v h eq
  answered_rule n again next w (inl e, w') h eq =
      failed_rule n again next e w' _ (fail n w w' e h eq) refl

  cooled_rule :
      (n : ℕ) (again : World → Outcome T × World)
      → ((w : World) → n ≢ policy.max_attempts → Ready (suc n) w → Done (again w))
      → (w : World) (o : Option World) → Ready n w
      → cool_down policy out started w ≡ o
      → Done (cooled_on policy out operation started n again w o)
  cooled_rule n again next w none h eq = hot n w h
  cooled_rule n again next w (some w') h eq =
      answered_rule n again next w' _ (cool n w w' h eq) refl

  -- The rule of the loop: `Ready` holds where an attempt starts, `Cooled` where its request is sent,
  -- `Failed` after a request that failed, and `Done` of the end. The attempts never run out.
  pub attempts_rule :
      (n left : ℕ) (w : World)
      → n + left ≡ suc policy.max_attempts
      → n ≤ policy.max_attempts
      → Ready n w
      → Done (attempts policy out operation started n left w)
  unfolding attempts
  attempts_rule n zero w e b r = ground arith
  attempts_rule n (suc left) w e b r =
      cooled_rule n (attempts policy out operation started (suc n) left)
        (λ w' more ready.
          attempts_rule (suc n) left w' (omega (arith, e)) (omega (arith, b, more)) ready)
        w _ r refl
