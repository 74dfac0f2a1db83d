-- ===== src/Floats.antt =====
-- The floats of app/core/quota.py: prices, limits and the spend of a day. None is negative, and each stands
-- as its rank among the non-negative floats (the number that its bits spell), so that 0.0 is 0 and
-- floats compare as their ranks do. The rounded arithmetic of Python and of Redis is a parameter.
use whatsapp_ai_bot.Prelude.{ℕ}

pub record Floats : Type 0 where
  -- Python's conversion of an integer, and its `*`, `+` and `/`
  pub of_int : ℕ → ℕ
  pub mul : ℕ → ℕ → ℕ
  pub add : ℕ → ℕ → ℕ
  pub div : ℕ → ℕ → ℕ
  -- what `INCRBYFLOAT` leaves of a value and an increment
  pub incr : ℕ → ℕ → ℕ
