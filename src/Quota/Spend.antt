-- ===== src/Quota/Spend.antt =====
-- `_check_spend`, `_alert_once`, `record_usage` and the kill switch of app/core/quota.py.
pub mod Totals
use whatsapp_ai_bot.Prelude.{
  ℕ, ◌+◌, ◌*◌, ◌/◌, String, Bool, true, false, List, [], ◌∷◌, none, ◌==◌, leb, any, ◌&&◌,
  if◌then◌else◌, str_eq,
}
use whatsapp_ai_bot.Floats.{Floats}
use whatsapp_ai_bot.Redis.{Redis, counter}
use whatsapp_ai_bot.Settings.{Settings}
use whatsapp_ai_bot.World.{M, Outside, Fault, killed}
use whatsapp_ai_bot.World.Effects.{pure, throw, catch, ◌>>=◌, ◌>>◌, now, redis}
use whatsapp_ai_bot.Quota.Types.{
  QuotaDecision, allowed, refusal, spend_exceeded, tokens_exceeded, ai_disabled,
}

-- The kill switch, the spend and the tokens of a day.
pub record Usage : Type 0 where
  pub killed : Bool
  pub spend : ℕ
  pub tokens : ℕ

unfoldable pub read_usage : ℕ → ℕ → Redis → Usage × Redis
read_usage day server r = (
  record { killed = r.kill_switch; spend = counter day r.spend; tokens = counter day r.tokens },
  r,
)

-- `SET quota:alerted:<kind>:<day> NX`
unfoldable pub mark_alerted : String → ℕ → ℕ → Redis → Bool × Redis
mark_alerted kind day server r =
    if any (λ entry. str_eq entry.0 kind && entry.1 == day) r.alerted
    then (false, r)
    else (true, record r { alerted = (kind, day) ∷ r.alerted })

-- The seconds of a day, by which `_today` divides the clock.
abbrev pub day_seconds : ℕ
day_seconds = 86400

-- `except Exception`: whatever Redis raises is passed over.
abbrev pub passed_over : {A : Type 0} → A → Fault → M A
passed_over a killed = throw killed
passed_over a _ = pure a

-- `INCRBYFLOAT` and `INCRBY` of the counters of a day.
unfoldable pub add_usage : Floats → ℕ → ℕ → ℕ → ℕ → Redis → Unit {0} × Redis
add_usage f day cost tokens server r = (
  tt,
  record r {
    spend = (day, f.incr (counter day r.spend) cost) ∷ r.spend;
    tokens = (day, counter day r.tokens + tokens) ∷ r.tokens;
  },
)

-- The cost of a completion at the fallback prices of the settings.
unfoldable pub completion_cost : Floats → Settings → ℕ → ℕ → ℕ
completion_cost f s prompt_tokens completion_tokens =
    f.div
      (f.add (f.mul (f.of_int prompt_tokens) s.openai_input_price_per_1m)
        (f.mul (f.of_int completion_tokens) s.openai_output_price_per_1m))
      (f.of_int 1000000)

-- The decision on what was read; the alerts come beside it.
unfoldable pub judge_usage : Settings → Usage → QuotaDecision
judge_usage s u =
    if u.killed
    then refusal ai_disabled true none
    else if leb s.daily_spend_limit_usd u.spend
    then refusal spend_exceeded true none
    else if leb s.daily_token_limit u.tokens
    then refusal tokens_exceeded true none
    else allowed

-- The alerts that the reading calls for, in order. A count of tokens is compared with a float; below
-- 2^53 its conversion is exact.
unfoldable pub alerts_for : Floats → Settings → Usage → List String
alerts_for f s u =
    if u.killed
    then []
    else if leb s.daily_spend_limit_usd u.spend
    then "spend" ∷ []
    else if leb s.daily_token_limit u.tokens
    then "tokens" ∷ []
    else if leb (f.mul s.daily_spend_limit_usd s.spend_alert_threshold) u.spend
    then (if leb (f.mul (f.of_int s.daily_token_limit) s.spend_alert_threshold) (f.of_int u.tokens)
        then "spend-warn" ∷ "tokens-warn" ∷ []
        else "spend-warn" ∷ [])
    else if leb (f.mul (f.of_int s.daily_token_limit) s.spend_alert_threshold) (f.of_int u.tokens)
    then "tokens-warn" ∷ []
    else []

module _ (o : Outside) where
  -- `_alert_once`: a marker that could not be written is passed over.
  unfoldable pub alert_once : String → ℕ → M Bool
  alert_once kind day = catch (redis o (mark_alerted kind day)) (passed_over true)

  unfoldable pub alert_all : List String → ℕ → M (Unit {0})
  unfolding alert_once
  alert_all [] day = pure tt
  alert_all (kind ∷ kinds) day = alert_once kind day >>= λ first. alert_all kinds day

  unfoldable pub check_spend : Settings → M QuotaDecision
  check_spend s = do
    t ← now o
    u ← redis o (read_usage (t / day_seconds))
    alert_all (alerts_for o.floats s u) (t / day_seconds)
    pure (judge_usage s u)

  unfoldable pub record_usage : Settings → ℕ → ℕ → M (Unit {0})
  record_usage s prompt_tokens completion_tokens =
      if s.spend_guard_enabled
      then (if prompt_tokens + completion_tokens == 0
          then pure tt
          else now o >>= λ t.
              catch
                (redis o (
                  add_usage o.floats (t / day_seconds)
                    (completion_cost o.floats s prompt_tokens completion_tokens)
                    (prompt_tokens + completion_tokens)))
                (passed_over tt))
      else pure tt

  -- `set_ai_disabled`
  unfoldable pub set_ai_disabled : Bool → M (Unit {0})
  set_ai_disabled disabled = redis o (λ server r. (tt, record r { kill_switch = disabled }))
