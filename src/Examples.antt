-- ===== src/Examples.antt =====
-- A concrete service, its environment and a few messages, for the tests.
pub mod Witnesses
pub mod Sweeps
pub mod Documents
pub mod Payloads
pub mod Accounts
pub mod Operators
use Prim.Native.String.{count}
use whatsapp_ai_bot.Floats.{Floats}
use whatsapp_ai_bot.Prelude.{
  ℕ, ◌*◌, ◌+◌, ◌/◌, String, Bool, true, false, [], ◌∷◌, Option, none, some, ◌==◌,
}
use whatsapp_ai_bot.Json.{Json, obj, field, end, arr, cons, nil, str}
use whatsapp_ai_bot.Settings.{Settings}
use whatsapp_ai_bot.Redis.{Redis, fresh}
use whatsapp_ai_bot.Store.Rows.{Db, empty, whatsapp, Conversation, active, bot, human, User}
use whatsapp_ai_bot.World.{Outside, World, AiResult, generated, accepted, refused}
use whatsapp_ai_bot.Quota.Types.{Text}
use whatsapp_ai_bot.Chat.Service.{Service, Classifiers, Copy, domain}
use whatsapp_ai_bot.Webhook.{Delivery, text_message}

abbrev pub settings : Settings
settings = record {
  customer_rate_limit_enabled = true;
  customer_limit_per_minute = 10;
  customer_limit_per_hour = 60;
  customer_limit_per_day = 200;
  flood_burst_messages = 6;
  flood_burst_seconds = 10;
  duplicate_message_limit = 3;
  duplicate_message_window_seconds = 60;
  abuse_block_seconds = 900;
  spend_guard_enabled = true;
  daily_spend_limit_usd = 1000000;
  daily_token_limit = 5000;
  spend_alert_threshold = 800;
  openai_input_price_per_1m = 150;
  openai_output_price_per_1m = 600;
  openai_model = "gpt-4o-mini";
  sales_phone = "0100";
  company_name = "Acme";
  max_context_messages = 10;
  max_context_tokens = 3000;
  enable_conversation_session = true;
  conversation_idle_timeout_minutes = 20;
  conversation_close_after_idle = true;
  enable_conversation_closing_message = true;
  conversation_reopen_window_minutes = 30;
  new_session_after_hours = 24;
  enable_welcome_on_new_session = true;
  enable_repeat_welcome_after_new_session = true;
  prevent_duplicate_welcome = true;
  reset_idle_timer_on_outgoing_message = true;
  conversation_closing_message = "Goodbye";
  reject_stale_inbound = true;
  inbound_max_age_minutes = 10;
}

abbrev pub completion : AiResult
completion = record {
  text = "100";
  model = "gpt-4o-mini";
  prompt_tokens = some 40;
  completion_tokens = some 10;
  total_tokens = some 50;
  latency_ms = some 300;
}

abbrev pub response : Json
response = obj (field "messages" (arr (cons (obj (field "id" (str "wamid.out") end)) nil)) end)

-- Floats that are integers.
abbrev pub floats : Floats
floats = record {
  of_int = λ n. n;
  mul = λ a b. a * b;
  add = λ a b. a + b;
  div = λ a b. a / b;
  incr = λ a b. a + b;
}

-- Everything works, and the worker is killed at one tick.
abbrev pub killed_at : ℕ → Outside
killed_at n = record {
  clock = λ t. 1000;
  dies = λ t. t == n;
  redis_fails = λ t. false;
  send = λ t. accepted response;
  generate = λ t history. generated completion;
  floats = floats;
}

abbrev pub redis_is_down : Outside
redis_is_down = record {
  clock = λ t. 1000;
  dies = λ t. false;
  redis_fails = λ t. true;
  send = λ t. accepted response;
  generate = λ t history. generated completion;
  floats = floats;
}

abbrev pub texts : Text
texts = record { fingerprint = λ s. s; stamp = λ t. "t" }

abbrev pub classifiers : Classifiers
classifiers = record {
  is_negotiating = λ t. false;
  wants_human = λ t. false;
  is_sales_lead = λ t. false;
  is_courtesy_only = λ t. false;
  is_unintelligible = λ t. false;
  is_greeting_only = λ t. false;
  classify = λ t. domain;
  mentions_amount = λ t phone. count t == 3;
}

abbrev pub copy : Copy
copy = record {
  welcome = "Welcome";
  welcome_prefix = "Hello";
  not_understood = "Pardon";
  unsupported_message = "Not supported";
  service_busy = "Later please";
  handoff_ack = "One moment";
  rate_limit_message = "Slow down";
  abuse_message = "Stopped";
  closing = "Goodbye";
  capacity_message = λ phone. "Call us";
  sales_handoff_ack = λ phone. "Sales will call";
  deflection = λ phone. "Ask our sales";
  out_of_scope_reply = λ name. "Out of scope";
  service_ack = λ id. "Noted";
  label = λ id. "Label";
  media_note = λ type caption. "A picture";
}

abbrev pub service : Outside → Service
service o = record {
  outside = o;
  settings = settings;
  text = texts;
  copy = copy;
  classifiers = classifiers;
  channel = whatsapp;
  count_tokens = λ t. 5;
}

-- A world in which nothing has happened.
abbrev pub start : World
start = record {
  committed = empty;
  current = empty;
  redis = fresh;
  wire = [];
  events = [];
  tick = 0;
}

abbrev pub question : Delivery
question = text_message "201" (some "Sara") "wamid.1" (some "How much is it?")

abbrev pub session_of : ℕ → ℕ → ℕ → Conversation
session_of id user activity = record {
  id = id;
  user_id = user;
  channel = whatsapp;
  status = active;
  mode = bot;
  tag = none;
  assigned_operator = none;
  handoff_at = none;
  last_activity_at = activity;
  welcome_sent_at = none;
  closing_sent_at = none;
  closed_at = none;
  created_at = activity;
}

-- Two idle sessions and a busy one.
abbrev pub three_sessions : Db
three_sessions = record empty {
  conversations = session_of 3 30 990 ∷ session_of 2 20 100 ∷ session_of 1 10 200 ∷ [];
  next_conversation = 4;
}

abbrev pub sara : User
sara = record {
  id = 1;
  channel = whatsapp;
  external_id = "201";
  wa_id = some "201";
  name = some "Sara";
}

abbrev pub with_operator : Conversation
with_operator = record (session_of 1 1 900) { mode = human; assigned_operator = some "Omar" }

-- A world in which an operator answers Sara.
abbrev pub operator_answers : World
operator_answers = record start {
  committed = record empty {
    users = sara ∷ [];
    conversations = with_operator ∷ [];
    next_user = 2;
    next_conversation = 2;
  };
}
