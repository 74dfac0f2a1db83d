-- ===== src/Quota/Check.antt =====
-- `check` and `unblock` of app/core/quota.py.
pub mod Outage
use whatsapp_ai_bot.Prelude.{
  ℕ, String, Bool, true, false, not, ◌&&◌, [], Option, ltb, if◌then◌else◌,
}
use whatsapp_ai_bot.Redis.{Redis, without, messages, write_set}
use whatsapp_ai_bot.Settings.{Settings}
use whatsapp_ai_bot.World.{M, Outside}
use whatsapp_ai_bot.World.Effects.{pure, catch, ◌>>=◌, ◌>>◌, redis}
use whatsapp_ai_bot.Quota.Types.{QuotaDecision, allowed, Text}
use whatsapp_ai_bot.Quota.Spend.{check_spend, passed_over}
use whatsapp_ai_bot.Quota.Customer.{block_left, check_customer}

module _ (o : Outside) (s : Settings) (x : Text) where
  -- After the spend guard.
  unfoldable pub check_limits : String → String → Option String → M QuotaDecision
  check_limits wa_id wa_message_id text =
      if s.customer_rate_limit_enabled
      then check_customer o s x wa_id wa_message_id text
      else pure allowed

  -- The spend guard first; only its refusal ends the check.
  unfoldable pub check_guarded : String → String → Option String → M QuotaDecision
  check_guarded wa_id wa_message_id text =
      if s.spend_guard_enabled
      then (check_spend o s >>= λ decision.
          if decision.is_allowed then check_limits wa_id wa_message_id text else pure decision)
      else check_limits wa_id wa_message_id text

  unfoldable pub check : String → String → Option String → M QuotaDecision
  check wa_id wa_message_id text =
      if not s.customer_rate_limit_enabled && not s.spend_guard_enabled
      then pure allowed
      else catch (check_guarded wa_id wa_message_id text) (passed_over allowed)

-- `DEL quota:blocked:<wa_id>`: whether there was a block.
unfoldable pub delete_block : String → ℕ → Redis → Bool × Redis
unfolding block_left
delete_block wa_id server r =
    if ltb 0 (block_left wa_id server r).0
    then (true, record r { blocked = without wa_id r.blocked })
    else (false, r)

-- `DEL quota:msgs:<wa_id>`
unfoldable pub delete_messages : String → ℕ → Redis → Unit {0} × Redis
delete_messages wa_id server r =
    (tt, write_set (messages wa_id) (record { members = []; expires = 0 }) r)

-- `unblock`
unfoldable pub unblock : Outside → String → M Bool
unblock o wa_id = do
  removed ← redis o (delete_block wa_id)
  if removed then redis o (delete_messages wa_id) >> pure true else pure false
