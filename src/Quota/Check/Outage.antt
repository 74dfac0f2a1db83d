-- ===== src/Quota/Check/Outage.antt =====
-- `check` of app/core/quota.py while Redis is down.
use whatsapp_ai_bot.Prelude.{
  ℕ, String, Bool, true, false, not, ◌&&◌, Option, ◌≡◌, refl, Bool-cases, inl, inr, ◌⊎◌, ◌+◌,
  if◌then◌else◌,
}
use whatsapp_ai_bot.Redis.{Redis}
use whatsapp_ai_bot.Settings.{Settings}
use whatsapp_ai_bot.World.{M, World, Outside, Outcome, ok, raise, redis_down}
use whatsapp_ai_bot.World.Effects.{◌>>=◌, pure, catch, now, redis}
use whatsapp_ai_bot.Quota.Types.{Text, QuotaDecision, allowed}
use whatsapp_ai_bot.Quota.Spend.{check_spend, read_usage, passed_over}
use whatsapp_ai_bot.Quota.Customer.{check_customer, block_left}
use whatsapp_ai_bot.Quota.Check.{check, check_guarded, check_limits}

-- The outcome of the quota while Redis is down, before the exception is passed over.
abbrev Down : Outcome QuotaDecision × World → Type 0
Down r = (r.0 ≡ raise redis_down) ⊎ (r.0 ≡ ok allowed)

either :
    (b : Bool) (m n : M QuotaDecision) (w : World)
    → Down (m w)
    → Down (n w)
    → Down ((if b then m else n) w)
either true m n w hm hn = hm
either false m n w hm hn = hn

module _ (o : Outside) (down : (t : ℕ) → o.redis_fails t ≡ true)
    (alive : (t : ℕ) → o.dies t ≡ false) where
  redis_raises :
      {A : Type 0} (f : ℕ → Redis → A × Redis) (w : World)
      → redis o f w ≡ (raise redis_down, record w { tick = w.tick + 1 })
  unfolding redis
  redis_raises f w = rw (alive w.tick, down w.tick) refl

  -- A computation that begins with a round trip raises.
  begins_raising :
      {A B : Type 0} (f : ℕ → Redis → A × Redis) (k : A → M B) (w : World)
      → ((redis o f >>= k) w).0 ≡ raise redis_down
  unfolding ◌>>=◌
  begins_raising f k w = rw (redis_raises f w) refl

  module _ (s : Settings) (x : Text) (wa_id id : String) (text : Option String) where
    customer_raises : (w : World) → (check_customer o s x wa_id id text w).0 ≡ raise redis_down
    unfolding check_customer now ◌>>=◌
    customer_raises w = begins_raising (block_left wa_id) _ w

    spend_raises : (w : World) → (check_spend o s w).0 ≡ raise redis_down
    unfolding check_spend now ◌>>=◌
    spend_raises w = begins_raising (read_usage _) _ w

    limits_raise_or_allow :
        (w : World)
        → ((check_limits o s x wa_id id text w).0 ≡ raise redis_down)
          ⊎ ((check_limits o s x wa_id id text w).0 ≡ ok allowed)
    unfolding check_limits pure
    limits_raise_or_allow w =
        either s.customer_rate_limit_enabled _ (pure allowed) w (inl (customer_raises w)) (inr refl)

    bound_raises :
        {A B : Type 0} (m : M A) (k : A → M B) (w : World)
        → (m w).0 ≡ raise redis_down
        → ((m >>= k) w).0 ≡ raise redis_down
    unfolding ◌>>=◌
    bound_raises m k w h = rw h refl

    guarded_raises_or_allows :
        (w : World)
        → ((check_guarded o s x wa_id id text w).0 ≡ raise redis_down)
          ⊎ ((check_guarded o s x wa_id id text w).0 ≡ ok allowed)
    unfolding check_guarded
    guarded_raises_or_allows w =
        either s.spend_guard_enabled _ (check_limits o s x wa_id id text) w
          (inl (bound_raises (check_spend o s) _ w (spend_raises w))) (limits_raise_or_allow w)

    caught :
        (m : M QuotaDecision) (w : World)
        → ((m w).0 ≡ raise redis_down) ⊎ ((m w).0 ≡ ok allowed)
        → (catch m (passed_over allowed) w).0 ≡ ok allowed
    unfolding catch pure
    caught m w (inl h) = rw h refl
    caught m w (inr h) = rw h refl

-- While Redis is down and the worker lives, every message is allowed, whatever limits are set: the quota
-- fails open, and its outage is no fault of the delivery.
pub check_fails_open :
    (o : Outside) (s : Settings) (x : Text) (wa_id id : String) (text : Option String) (w : World)
    → ((t : ℕ) → o.redis_fails t ≡ true)
    → ((t : ℕ) → o.dies t ≡ false)
    → (check o s x wa_id id text w).0 ≡ ok allowed
unfolding check pure
check_fails_open o s x wa_id id text w down alive =
    elim (Bool-cases (not s.customer_rate_limit_enabled && not s.spend_guard_enabled)) [
      | inl off ↦ rw off refl
      | inr on ↦ rw on (
          caught o down alive s x wa_id id text (check_guarded o s x wa_id id text) w
            (guarded_raises_or_allows o down alive s x wa_id id text w))
    ]
