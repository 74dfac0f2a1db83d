-- ===== src/Sessions.antt =====
-- The sweep of app/services/session_service.py, from `closing_text` to `_send_closing`, and its task
-- `_sweep_idle_sessions` of app/workers/tasks.py. The WhatsApp client is always there, as the task
-- builds it. An adapter is resolved from the channel settings, which do not change during a sweep:
-- resolving it again gives what the cache holds. Closing the adapters has no effect on the model.
pub mod Goodbye
pub mod Closing
use whatsapp_ai_bot.Prelude.{
  ℕ, ◌+◌, ◌-◌, String, Bool, true, false, not, List, [], ◌∷◌, Option, none, some, ltb,
  if◌then◌else◌, str_eq, length,
}
use whatsapp_ai_bot.Json.{Json}
use whatsapp_ai_bot.Settings.{conversation_idle_timeout}
use whatsapp_ai_bot.Store.Rows.{Conversation}
use whatsapp_ai_bot.Store.Messages
use whatsapp_ai_bot.Store.Conversations
use whatsapp_ai_bot.Store.Users.{IdleSession, idle_targets}
use whatsapp_ai_bot.World.{M, World, Outcome, Outside, activity, conversation_closed}
use whatsapp_ai_bot.World.Effects.{
  pure, catch, ◌>>=◌, ◌>>◌, now, statement, commit, call_send, publish,
}
use whatsapp_ai_bot.Channels.{ChannelSettings, or_text}
use whatsapp_ai_bot.Channels.Outbound.{Resolved, adapter, unavailable, outbound_adapter}
use whatsapp_ai_bot.Chat.Service.{Service, text_or}
use whatsapp_ai_bot.Chat.Send.{outbound_id, change, or_raise, query, always, when_refused}

-- What `SessionService` is constructed with, and Python's `str.strip`.
pub record Sweeper : Type 0 where
  pub service : Service
  pub channels : ChannelSettings
  pub strip : String → String

-- `SWEEP_BATCH_SIZE`
abbrev pub sweep_batch_size : ℕ
sweep_batch_size = 200

-- `CUSTOMER_SERVICE_WINDOW`
abbrev pub customer_service_window : ℕ
customer_service_window = 86400

module _ (s : Sweeper) where
  abbrev pub outside : Outside
  outside = s.service.outside

  unfoldable pub closing_text : String
  closing_text =
      or_text (s.strip s.service.settings.conversation_closing_message) s.service.copy.closing

  abbrev pub within_window : Option ℕ → M Bool
  within_window none = pure false
  within_window (some last_inbound) =
      now outside >>= λ t. pure (not (ltb (last_inbound + customer_service_window) t))

  -- `_should_send_closing`
  unfoldable pub should_send_closing : IdleSession → M Bool
  unfolding closing_text
  should_send_closing target =
      if not s.service.settings.enable_conversation_closing_message
      then pure false
      else if str_eq (s.strip closing_text) ""
      then pure false
      else if str_eq (text_or target.recipient_id "") ""
      then pure false
      else (statement outside (query (Messages.last_inbound_at target.conversation_id))
          >>= within_window)

  unfoldable pub record_closing : ℕ → Option Json → M (Unit {0})
  unfolding closing_text
  record_closing conversation_id none = pure tt
  record_closing conversation_id (some result) = do
    statement outside (λ t db.
        or_raise
          (Messages.create t conversation_id closing_text (outbound_id result) Messages.sent db) db)
    publish outside (activity conversation_id false)

  -- `_send_closing`
  unfoldable pub send_closing : IdleSession → M (Unit {0})
  unfolding closing_text record_closing
  send_closing target =
      catch
        (call_send outside (text_or target.recipient_id "") closing_text none
            (some target.conversation_id)
          >>= λ result. pure (some result))
        (when_refused s.service (pure none))
      >>= record_closing target.conversation_id

  -- What `_finish` does with the adapter that `_adapter_for` finds.
  unfoldable pub send_through : Resolved → IdleSession → M (Unit {0})
  unfolding send_closing
  send_through (adapter channel) target = send_closing target
  send_through (unavailable reason) target = pure tt

  abbrev pub announce_row : Option Conversation → M (Unit {0})
  announce_row none = pure tt
  announce_row (some c) = publish outside (conversation_closed c.id)

  abbrev pub refresh_row : Option Conversation → M (Unit {0})
  refresh_row none = pure tt
  refresh_row (some c) = statement outside (query (Conversations.get c.id)) >>= announce_row

  -- `_announce_closed`: the row is read, and read again.
  unfoldable pub announce_closed : ℕ → M (Unit {0})
  announce_closed conversation_id =
      statement outside (query (Conversations.get conversation_id)) >>= refresh_row

  -- `_finish`
  unfoldable pub finish_session : IdleSession → M (Unit {0})
  unfolding should_send_closing send_through announce_closed
  finish_session target = do
    allowed ← should_send_closing target
    (if allowed
        then send_through (outbound_adapter s.strip s.channels target.channel) target
        else pure tt)
    statement outside (change (λ t. Conversations.close t target.conversation_id))
    commit outside
    announce_closed target.conversation_id

  unfoldable pub finish_sessions : List IdleSession → M (Unit {0})
  unfolding finish_session
  finish_sessions [] = pure tt
  finish_sessions (target ∷ targets) = finish_session target >> finish_sessions targets

  -- From the claim on: commit it, finish each session, and count them.
  unfoldable pub finish_claimed : List ℕ → M ℕ
  unfolding finish_sessions
  finish_claimed [] = pure 0
  finish_claimed (id ∷ ids) = do
    targets ← statement outside (query (λ db. idle_targets (id ∷ ids) db db.conversations))
    commit outside
    finish_sessions targets
    pure (length targets)

  abbrev pub idle_bound : ℕ → ℕ
  idle_bound t = t - conversation_idle_timeout s.service.settings

  -- `close_idle_sessions`
  unfoldable pub close_idle_sessions : M ℕ
  unfolding finish_claimed
  close_idle_sessions =
      if not s.service.settings.enable_conversation_session
      then pure 0
      else if not s.service.settings.conversation_close_after_idle
      then pure 0
      else (now outside >>= λ t.
          statement outside (λ later db.
            always (Conversations.claim_idle_sessions later (idle_bound t) sweep_batch_size db))
          >>= finish_claimed)

  -- `_sweep_idle_sessions`: one run of the task, in a session of its own.
  unfoldable pub sweep : World → Outcome ℕ × World
  unfolding close_idle_sessions
  sweep w = close_idle_sessions (record w { current = w.committed })

-- The runs of the task and its retries, each with an environment of its own.
unfoldable pub sweeps : List Sweeper → World → World
unfolding sweep
sweeps [] w = w
sweeps (s ∷ rest) w = sweeps rest (sweep s w).1
