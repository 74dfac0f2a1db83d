-- ===== src/World.antt =====
-- The process that handles one delivery, and what surrounds it. The database session
-- (app/db/session.py) holds an open transaction, `current`, above the durable database,
-- `committed`: `commit` makes the first durable, and a rollback, an escaping exception or the
-- death of the worker returns to the second. `wire` lists the calls of a channel's send methods,
-- `events` what app/core/events.py published, `tick` counts the effects so far.
-- What the environment answers at each tick is a parameter: the clock, whether the worker is
-- killed there (or the database raises), whether Redis is reachable, and what the APIs return.
pub mod Effects
pub mod Keeps
pub mod Leads
pub mod Runs
use whatsapp_ai_bot.Floats.{Floats}
use whatsapp_ai_bot.Prelude.{ℕ, String, Bool, List, Option}
use whatsapp_ai_bot.Json.{Json}
use whatsapp_ai_bot.Store.Rows.{Db, Mode}
use whatsapp_ai_bot.Redis.{Redis}
use whatsapp_ai_bot.Tokens.{Turn}

-- `external_service` is `ExternalServiceError`, `redis_down` an exception of the Redis client,
-- `killed` the death of the worker or an exception that no handler of the program names, such as
-- `ConflictError`.
pub data Fault : Type 0 where
  external_service redis_down killed : Fault

pub data Outcome {ℓ} (A : Type ℓ) : Type ℓ where
  ok : A → Outcome A
  raise : Fault → Outcome A

-- One call of a send method. `answering` is the `reply_to` under which `_send_once` made it, and
-- `closing` the session that it says goodbye to: the API sees neither. `accepted` says that the
-- call returned.
pub record Wire : Type 0 where
  pub recipient : String
  pub text : String
  pub answering : Option String
  pub closing : Option ℕ
  pub accepted : Bool

-- The events of app/core/events.py.
pub data Event : Type 0 where
  activity : ℕ → Bool → Event
  handoff : ℕ → Mode → Option String → String → Option String → Event
  conversation_closed : ℕ → Event
  reopened : ℕ → String → Event

pub record World : Type 0 where
  pub committed : Db
  pub current : Db
  pub redis : Redis
  pub wire : List Wire
  pub events : List Event
  pub tick : ℕ

-- What a send method does: it returns a response, raises `ExternalServiceError`, or raises
-- something else.
pub data SendResult : Type 0 where
  accepted : Json → SendResult
  refused broken : SendResult

-- `AIResult` of app/integrations/openai.py; a missing token count is `none`.
pub record AiResult : Type 0 where
  pub text : String
  pub model : String
  pub prompt_tokens : Option ℕ
  pub completion_tokens : Option ℕ
  pub total_tokens : Option ℕ
  pub latency_ms : Option ℕ

-- What `generate_reply` does: it returns a result, or raises `ExternalServiceError` with a text.
pub data GenerateResult : Type 0 where
  generated : AiResult → GenerateResult
  failed : String → GenerateResult

pub record Outside : Type 0 where
  pub clock : ℕ → ℕ
  pub dies : ℕ → Bool
  pub redis_fails : ℕ → Bool
  pub send : ℕ → SendResult
  pub generate : ℕ → List Turn → GenerateResult
  pub floats : Floats

abbrev pub M : Type 0 → Type 0
M A = World → Outcome A × World
