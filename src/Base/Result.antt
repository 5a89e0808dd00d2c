-- ===== src/Base/Result.antt =====
-- A value, or the exception that a call raises.
use candle_mind.Base.{refl, ◌≡◌}

pub data Result (E A : Type 0) : Type 0 where
  ok : A → Result E A
  err : E → Result E A

infixl 5 ◌>>=◌
abbrev pub ◌>>=◌ : {E A B : Type 0} → Result E A → (A → Result E B) → Result E B
ok a >>= f = f a
err e >>= f = err e

pub bind-parts :
    {E A B : Type 0} (r : Result E A) (g : A → Result E B) (y : B)
    → (r >>= g) ≡ ok y
    → (a : A) × (r ≡ ok a) × (g a ≡ ok y)
bind-parts (ok a) g y h = (a, refl, h)
bind-parts (err e) g y h = cc
