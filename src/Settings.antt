-- ===== src/Settings.antt =====
-- The settings of app/config.py and app/core/inbound_config.py that the modelled code reads.
-- Durations are in seconds; the limit of the spend, its threshold and the prices are floats (Floats).
use whatsapp_ai_bot.Prelude.{ℕ, ◌*◌, String, Bool, max}

pub record Settings : Type 0 where
  pub customer_rate_limit_enabled : Bool
  pub customer_limit_per_minute : ℕ
  pub customer_limit_per_hour : ℕ
  pub customer_limit_per_day : ℕ
  pub flood_burst_messages : ℕ
  pub flood_burst_seconds : ℕ
  pub duplicate_message_limit : ℕ
  pub duplicate_message_window_seconds : ℕ
  pub abuse_block_seconds : ℕ
  pub spend_guard_enabled : Bool
  pub daily_spend_limit_usd : ℕ
  pub daily_token_limit : ℕ
  pub spend_alert_threshold : ℕ
  pub openai_input_price_per_1m : ℕ
  pub openai_output_price_per_1m : ℕ
  pub openai_model : String
  pub sales_phone : String
  pub company_name : String
  pub max_context_messages : ℕ
  pub max_context_tokens : ℕ
  pub enable_conversation_session : Bool
  pub conversation_idle_timeout_minutes : ℕ
  pub conversation_close_after_idle : Bool
  pub enable_conversation_closing_message : Bool
  pub conversation_reopen_window_minutes : ℕ
  pub new_session_after_hours : ℕ
  pub enable_welcome_on_new_session : Bool
  pub enable_repeat_welcome_after_new_session : Bool
  pub prevent_duplicate_welcome : Bool
  pub reset_idle_timer_on_outgoing_message : Bool
  pub conversation_closing_message : String
  pub reject_stale_inbound : Bool
  pub inbound_max_age_minutes : ℕ

-- `conversation_idle_timeout`, floored at one minute.
unfoldable pub conversation_idle_timeout : Settings → ℕ
conversation_idle_timeout s = 60 * max 1 s.conversation_idle_timeout_minutes

unfoldable pub conversation_reopen_window : Settings → ℕ
conversation_reopen_window s = 60 * s.conversation_reopen_window_minutes

unfoldable pub new_session_after : Settings → ℕ
unfolding conversation_reopen_window
new_session_after s = max (3600 * s.new_session_after_hours) (conversation_reopen_window s)
