-- ===== src/Chat/Generate.antt =====
-- `ChatService._generate_and_send`, and `build_history` of app/services/conversation_service.py. The
-- documents that retrieval finds and the instructions that app/services/prompt_builder.py writes
-- only reach the model, whose answer is a parameter: they are left out.
use Prim.Native.String.{◌++◌ as append_text}
use whatsapp_ai_bot.Prelude.{
  ℕ, ◌*◌, String, Bool, List, map, Option, none, some, if◌then◌else◌, str_eq,
}
use whatsapp_ai_bot.Tokens.{Turn, trim_history}
use whatsapp_ai_bot.Redis.{CachedGeneration}
use whatsapp_ai_bot.Store.Rows.{Message, is_inbound, AiLog}
use whatsapp_ai_bot.Store.Messages
use whatsapp_ai_bot.World.{M, AiResult, GenerateResult, generated, failed}
use whatsapp_ai_bot.World.Effects.{pure, ◌>>=◌, ◌>>◌, statement, rollback, call_generate}
use whatsapp_ai_bot.Quota.Spend.{record_usage}
use whatsapp_ai_bot.Chat.Idempotency.{get_cached_generation, store_generation, clear_generation}
use whatsapp_ai_bot.Chat.Service.{Service, paragraphs, text_or}
use whatsapp_ai_bot.Chat.Send.{change, query, plain, send_once, record_welcome, announce}

abbrev pub count_or_0 : Option ℕ → ℕ
count_or_0 none = 0
count_or_0 (some n) = n

unfoldable pub turn_of : Message → Turn
turn_of m = record {
  role = if is_inbound m.direction then "user" else "assistant";
  content = text_or m.content (append_text "[" (append_text m.type " message]"));
}

-- What the reply is made of: its text, the completion that is logged, or the error.
pub record Draft : Type 0 where
  pub reply_text : String
  pub generation : Option CachedGeneration
  pub error : Option String

module _ (v : Service) where
  unfoldable pub build_history : ℕ → M (List Turn)
  unfolding turn_of
  build_history conversation_id = statement v.outside (
      query (λ db.
        trim_history v.count_tokens
          (map turn_of (Messages.recent conversation_id (v.settings.max_context_messages * 2) db))
          v.settings.max_context_messages v.settings.max_context_tokens))

  -- `result.text or FALLBACK_REPLY`, and the counts that the API gave.
  unfoldable pub generation_of : AiResult → CachedGeneration
  generation_of r = record {
    text = if str_eq r.text "" then v.copy.service_busy else r.text;
    model = r.model;
    prompt_tokens = count_or_0 r.prompt_tokens;
    completion_tokens = count_or_0 r.completion_tokens;
    total_tokens = count_or_0 r.total_tokens;
    latency_ms = count_or_0 r.latency_ms;
  }

  abbrev pub draft_of : CachedGeneration → Draft
  draft_of g = record { reply_text = g.text; generation = some g; error = none }

  abbrev pub store_for : Option String → CachedGeneration → M (Unit {0})
  store_for none g = pure tt
  store_for (some id) g = store_generation v.outside id g

  unfoldable pub keep_result : Option String → CachedGeneration → M Draft
  keep_result reply_to g = do
    store_for reply_to g
    record_usage v.outside v.settings g.prompt_tokens g.completion_tokens
    pure (draft_of g)

  unfoldable pub draft_from : Option String → GenerateResult → M Draft
  draft_from reply_to (generated r) = keep_result reply_to (generation_of r)
  draft_from reply_to (failed message) =
      pure (record { reply_text = v.copy.service_busy; generation = none; error = some message })

  -- No cached completion: release the connection, and ask the model.
  unfoldable pub generate_draft : List Turn → Option String → M Draft
  generate_draft history reply_to = do
    rollback v.outside
    result ← call_generate v.outside history
    draft_from reply_to result

  abbrev pub cached_for : Option String → M (Option CachedGeneration)
  cached_for none = pure none
  cached_for (some id) = get_cached_generation v.outside id

  unfoldable pub draft : List Turn → Option String → M Draft
  draft history reply_to = do
    cached ← cached_for reply_to
    elim cached [ some g ↦ pure (draft_of g) | none ↦ generate_draft history reply_to ]

  -- The last gate before a reply is sent.
  unfoldable pub without_amount : String → String
  without_amount text =
      if v.classifiers.mentions_amount text v.settings.sales_phone
      then v.copy.deflection v.settings.sales_phone
      else text

  unfoldable pub reply_body : Bool → String → String
  unfolding without_amount
  reply_body welcome text =
      if welcome
      then paragraphs v.copy.welcome_prefix (without_amount text)
      else without_amount text

  abbrev pub log_of : ℕ → CachedGeneration → AiLog
  log_of conversation_id g = record {
    conversation_id = some conversation_id;
    model = g.model;
    prompt_tokens = g.prompt_tokens;
    completion_tokens = g.completion_tokens;
    total_tokens = g.total_tokens;
    latency_ms = g.latency_ms;
    error = none;
  }

  abbrev pub error_log : ℕ → String → AiLog
  error_log conversation_id message = record {
    conversation_id = some conversation_id;
    model = v.settings.openai_model;
    prompt_tokens = 0;
    completion_tokens = 0;
    total_tokens = 0;
    latency_ms = 0;
    error = some message;
  }

  abbrev pub write_log : AiLog → M (Unit {0})
  write_log log = statement v.outside (change (λ t. Messages.create_ai_log log))

  abbrev pub log_error : ℕ → Option String → M (Unit {0})
  log_error conversation_id none = pure tt
  log_error conversation_id (some message) = write_log (error_log conversation_id message)

  unfoldable pub log_draft : ℕ → Draft → M (Unit {0})
  log_draft conversation_id d = elim d.generation [
    | some g ↦ write_log (log_of conversation_id g)
    | none ↦ log_error conversation_id d.error
  ]

  abbrev pub clear_for : Option String → M (Unit {0})
  clear_for none = pure tt
  clear_for (some id) = clear_generation v.outside id

  unfoldable pub after_send : ℕ → Option String → Bool → Bool → M (Unit {0})
  after_send conversation_id reply_to welcome sent =
      if sent
      then (if welcome then record_welcome v conversation_id else pure tt)
        >> clear_for reply_to
        >> announce v conversation_id
      else pure tt

  unfoldable pub generate_and_send : String → ℕ → List Turn → Option String → Bool → M (Unit {0})
  generate_and_send wa_id conversation_id history reply_to welcome = do
    d ← draft history reply_to
    log_draft conversation_id d
    sent ← send_once v plain wa_id conversation_id (reply_body welcome d.reply_text) reply_to
    after_send conversation_id reply_to welcome sent
