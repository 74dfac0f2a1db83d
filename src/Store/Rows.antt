-- ===== src/Store/Rows.antt =====
-- The rows and tables of app/models/.
use whatsapp_ai_bot.Prelude.{
  ℕ, ◌+◌, String, Bool, true, false, List, [], Option, none, some, leb, if◌then◌else◌,
}

-- `STATUS_ACTIVE`, `STATUS_CLOSED`
pub data Status : Type 0 where
  active closed : Status

-- `MODE_BOT`, `MODE_HUMAN`
pub data Mode : Type 0 where
  bot human : Mode

pub data Direction : Type 0 where
  inbound outbound : Direction

abbrev pub is_active : Status → Bool
is_active active = true
is_active closed = false

abbrev pub is_human : Mode → Bool
is_human human = true
is_human bot = false

abbrev pub is_inbound : Direction → Bool
is_inbound inbound = true
is_inbound outbound = false

abbrev pub whatsapp : String
whatsapp = "whatsapp"

abbrev pub messenger : String
messenger = "messenger"

-- `TAG_SALES_LEAD`
abbrev pub sales_lead : String
sales_lead = "sales_lead"

pub record User : Type 0 where
  pub id : ℕ
  pub channel : String
  pub external_id : String
  pub wa_id : Option String
  pub name : Option String

pub record Conversation : Type 0 where
  pub id : ℕ
  pub user_id : ℕ
  pub channel : String
  pub status : Status
  pub mode : Mode
  pub tag : Option String
  pub assigned_operator : Option String
  pub handoff_at : Option ℕ
  pub last_activity_at : ℕ
  pub welcome_sent_at : Option ℕ
  pub closing_sent_at : Option ℕ
  pub closed_at : Option ℕ
  pub created_at : ℕ

pub record Message : Type 0 where
  pub id : ℕ
  pub conversation_id : ℕ
  pub wa_message_id : Option String
  pub reply_to_wa_message_id : Option String
  pub direction : Direction
  pub type : String
  pub content : Option String
  pub media_id : Option String
  pub status : Option String
  pub created_at : ℕ

pub record AiLog : Type 0 where
  pub conversation_id : Option ℕ
  pub model : String
  pub prompt_tokens : ℕ
  pub completion_tokens : ℕ
  pub total_tokens : ℕ
  pub latency_ms : ℕ
  pub error : Option String

pub record Db : Type 0 where
  pub users : List User
  pub conversations : List Conversation
  pub messages : List Message
  pub ai_logs : List AiLog
  pub next_user : ℕ
  pub next_conversation : ℕ
  pub next_message : ℕ

abbrev pub empty : Db
empty = record {
  users = [];
  conversations = [];
  messages = [];
  ai_logs = [];
  next_user = 1;
  next_conversation = 1;
  next_message = 1;
}

-- The session states that operators see.
pub data SessionState : Type 0 where
  active_bot active_human waiting_idle closing session_closed : SessionState

-- `derive_session_state`; `last_activity_at` is never null.
unfoldable pub derive_session_state : Conversation → ℕ → ℕ → SessionState
derive_session_state c idle_after now = elim c.status [
  | closed ↦ session_closed
  | active ↦ elim c.closing_sent_at [
    | some t ↦ closing
    | none ↦ elim c.mode [
      | human ↦ active_human
      | bot ↦ if leb (c.last_activity_at + idle_after) now then waiting_idle else active_bot
    ]
  ]
]
