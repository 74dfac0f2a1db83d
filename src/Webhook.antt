-- ===== src/Webhook.antt =====
-- app/services/webhook_processor.py and app/services/stale_inbound.py: from an event that a channel's
-- adapter has parsed to the handler that answers it, and the freshness gate before it. The parsing
-- of the payloads of the channels other than WhatsApp is not modelled.
pub mod Tolerance
pub mod Once
pub mod Redelivery
pub mod Amounts
pub mod Handoff
pub mod Payload
pub mod Process
use whatsapp_ai_bot.Prelude.{
  ℕ, ◌-◌, ◌*◌, String, Bool, true, false, not, ◌&&◌, ◌||◌, List, [], ◌∷◌, Option, none, some, leb,
  ltb, if◌then◌else◌, str_eq,
}
use whatsapp_ai_bot.Settings.{Settings}
use whatsapp_ai_bot.Store.Rows.{Db, whatsapp}
use whatsapp_ai_bot.Store.Users
use whatsapp_ai_bot.Store.Conversations
use whatsapp_ai_bot.Store.Messages
use whatsapp_ai_bot.World.{M, World, Outcome}
use whatsapp_ai_bot.World.Effects.{pure, ◌>>=◌, ◌>>◌, now, statement, rollback, commit}
use whatsapp_ai_bot.Chat.Service.{Service, text_or}
use whatsapp_ai_bot.Chat.Send.{always, announce}
use whatsapp_ai_bot.Chat.Handlers.{
  reopen_within, handle_text_message, handle_interactive_message, handle_media_message,
  handle_unsupported_message, handle_status_update,
}

-- `InboundEvent` of app/channels/events.py, less what only the adapters read.
pub record InboundEvent : Type 0 where
  pub sender_id : String
  pub provider_message_id : String
  pub kind : String
  pub sender_name : Option String
  pub text : Option String
  pub selection_id : Option String
  pub selection_title : Option String
  pub media_type : Option String
  pub media_id : Option String
  pub caption : Option String
  pub sent_at : Option ℕ

-- `bool(self.sender_id and self.provider_message_id)`
unfoldable pub routable : InboundEvent → Bool
routable e = not (str_eq e.sender_id "") && not (str_eq e.provider_message_id "")

-- `age > inbound_max_age`; a message from the future is as old as one of this moment.
unfoldable pub is_too_old : Settings → ℕ → Option ℕ → Bool
is_too_old s t none = false
is_too_old s t (some sent_at) = ltb (60 * s.inbound_max_age_minutes) (t - sent_at)

-- `enforced` of app/core/inbound_config.py
unfoldable pub is_enforced : Settings → Bool
is_enforced s = s.reject_stale_inbound && ltb 0 s.inbound_max_age_minutes

module _ (v : Service) where
  unfoldable pub event_is_stale : InboundEvent → M Bool
  event_is_stale e =
      if is_enforced v.settings
      then (now v.outside >>= λ t. pure (is_too_old v.settings t e.sent_at))
      else pure false

  unfoldable pub dispatch_selection : InboundEvent → Option String → M (Unit {0})
  dispatch_selection e none =
      handle_unsupported_message v e.sender_id e.sender_name e.provider_message_id "interactive"
  dispatch_selection e (some id) =
      if str_eq id ""
      then handle_unsupported_message v e.sender_id e.sender_name e.provider_message_id
          "interactive"
      else handle_interactive_message v e.sender_id e.sender_name e.provider_message_id id
          (text_or e.selection_title "")

  -- `_dispatch_event`
  unfoldable pub dispatch_event : InboundEvent → M (Unit {0})
  dispatch_event e =
      if not (routable e)
      then pure tt
      else if str_eq e.kind "text"
      then handle_text_message v e.sender_id e.sender_name e.provider_message_id
          (some (text_or e.text ""))
      else if str_eq e.kind "selection"
      then dispatch_selection e e.selection_id
      else if str_eq e.kind "media"
      then handle_media_message v e.sender_id e.sender_name e.provider_message_id
          (text_or e.media_type "media") e.media_id e.caption
      else handle_unsupported_message v e.sender_id e.sender_name e.provider_message_id e.kind

  -- The loop of `process_meta_payload` over the events of a private channel.
  unfoldable pub process_events : List InboundEvent → M (Unit {0})
  unfolding dispatch_event
  process_events [] = pure tt
  process_events (e ∷ es) = event_is_stale e >>= λ stale.
      (if stale then pure tt else dispatch_event e) >> process_events es

  -- `record_without_answering`
  unfoldable pub record_without_answering :
      String → Option String → String → String → Option String → M (Unit {0})
  record_without_answering wa_id name wa_message_id type content = do
    user ← statement v.outside (λ t. Users.get_or_create wa_id name)
    c ←
        statement v.outside
          (λ t. Conversations.get_or_create_active t user.id (reopen_within v) whatsapp)
    claimed ←
        statement v.outside
          (λ t db. always (Messages.claim_inbound t c.id wa_message_id type content none db))
    elim claimed [ none ↦ rollback v.outside | some id ↦ commit v.outside >> announce v c.id ]

-- What a worker is given: one message of a WhatsApp delivery, as `_dispatch_message` or
-- `_handled_as_stale` passes it on, a receipt, or the events of another channel.
pub data Delivery : Type 0 where
  text_message : String → Option String → String → Option String → Delivery
  interactive_message : String → Option String → String → String → String → Delivery
  media_message :
      String → Option String → String → String → Option String → Option String → Delivery
  unsupported_message : String → Option String → String → String → Delivery
  stale_message : String → Option String → String → String → Option String → Delivery
  status_update : String → String → Delivery
  channel_events : List InboundEvent → Delivery

unfoldable pub handle : Service → Delivery → M (Unit {0})
handle v (text_message wa_id name id text) = handle_text_message v wa_id name id text
handle v (interactive_message wa_id name id selection_id title) =
    handle_interactive_message v wa_id name id selection_id title
handle v (media_message wa_id name id type media_id caption) =
    handle_media_message v wa_id name id type media_id caption
handle v (unsupported_message wa_id name id type) = handle_unsupported_message v wa_id name id type
handle v (stale_message wa_id name id type content) =
    record_without_answering v wa_id name id type content
handle v (status_update id status) = handle_status_update v id status
handle v (channel_events events) = process_events v events

-- One attempt of a task of app/workers/tasks.py, in a session of its own: what was not committed before
-- it is gone.
unfoldable pub attempt : Service → Delivery → World → Outcome (Unit {0}) × World
attempt v d w = handle v d (record w { current = w.committed })

-- The attempts of the workers, one after the other: deliveries and their retries, each with an
-- environment of its own.
unfoldable pub attempts : List (Service × Delivery) → World → World
unfolding attempt
attempts [] w = w
attempts ((v, d) ∷ rest) w = attempts rest (attempt v d w).1
