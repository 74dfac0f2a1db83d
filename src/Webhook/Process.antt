-- ===== src/Webhook/Process.antt =====
-- The loops of `process_webhook_payload` of app/services/webhook_processor.py, with the freshness gate
-- before each message.
use whatsapp_ai_bot.Prelude.{
  ℕ, String, Bool, true, false, not, ◌&&◌, [], ◌∷◌, List, Option, none, some, if◌then◌else◌,
}
use whatsapp_ai_bot.Json.{Json, Fields, lookup}
use whatsapp_ai_bot.World.{M, World, Outcome}
use whatsapp_ai_bot.World.Effects.{pure, ◌>>=◌, ◌>>◌, now}
use whatsapp_ai_bot.Chat.Service.{Service}
use whatsapp_ai_bot.Chat.Handlers.{handle_status_update}
use whatsapp_ai_bot.Webhook.{is_enforced, is_too_old, record_without_answering, handle}
use whatsapp_ai_bot.Webhook.Payload.{
  Python, is_set, Contacts, contacts_from, name_of, delivery_of, content_of, as_text, as_object,
  as_list, as_nullable, and_then, or_throw, fields_of, each,
}

-- What `_handled_as_stale` passes to `record_without_answering`.
pub record Late : Type 0 where
  pub wa_id : String
  pub wa_message_id : String
  pub type : String
  pub content : Option String

-- `if not wa_id or not wa_message_id`
abbrev pub has_ids : Fields → Bool
has_ids message = is_set (lookup "from" message) && is_set (lookup "id" message)

module _ (p : Python) (v : Service) where
  unfoldable pub late_of : Fields → Option Late
  unfolding content_of
  late_of message = and_then (as_text (lookup "from" message) "") (λ wa_id.
      and_then (as_text (lookup "id" message) "") (λ id.
        and_then (as_text (lookup "type" message) "unknown") (λ type.
          and_then (content_of p type message) (λ content.
            some (record { wa_id = wa_id; wa_message_id = id; type = type; content = content })))))

  -- The timestamp of `_message_age`.
  abbrev pub timestamp_of : Fields → Option ℕ
  timestamp_of message = elim (lookup "timestamp" message) [ none ↦ none | some raw ↦ p.int_of raw ]

  unfoldable pub record_late : Contacts → Fields → M Bool
  unfolding late_of
  record_late contacts message = or_throw (late_of message) >>= λ late.
      or_throw (as_nullable (name_of late.wa_id contacts)) >>= λ name.
      record_without_answering v late.wa_id name late.wa_message_id late.type late.content
      >> pure true

  -- `_handled_as_stale`
  unfoldable pub handled_as_stale : Contacts → Fields → M Bool
  unfolding record_late
  handled_as_stale contacts message =
      if not (is_enforced v.settings)
      then pure false
      else (now v.outside >>= λ t.
          if is_too_old v.settings t (timestamp_of message) && has_ids message
          then record_late contacts message
          else pure false)

  unfoldable pub process_message : Contacts → Json → M (Unit {0})
  unfolding handled_as_stale
  process_message contacts j = or_throw (fields_of j) >>= λ message.
      handled_as_stale contacts message >>= λ done.
      if done then pure tt else (or_throw (delivery_of p contacts message) >>= handle v)

  -- `if wa_message_id and new_status`
  unfoldable pub process_status : Json → M (Unit {0})
  process_status j = or_throw (fields_of j) >>= λ fields.
      if is_set (lookup "id" fields) && is_set (lookup "status" fields)
      then (or_throw (as_text (lookup "id" fields) "") >>= λ id.
          or_throw (as_text (lookup "status" fields) "") >>= λ status.
          handle_status_update v id status)
      else pure tt

  -- One `value`: its messages, and then its statuses.
  unfoldable pub process_value : Fields → M (Unit {0})
  unfolding process_message process_status
  process_value value =
      or_throw (and_then (as_list (lookup "contacts" value)) (λ cs. contacts_from cs []))
      >>= λ contacts. or_throw (as_list (lookup "messages" value)) >>= λ messages.
          each (process_message contacts) messages
          >> (or_throw (as_list (lookup "statuses" value)) >>= each process_status)

  unfoldable pub process_change : Json → M (Unit {0})
  unfolding process_value
  process_change j = or_throw (fields_of j) >>= λ change.
      or_throw (as_object (lookup "value" change)) >>= process_value

  unfoldable pub process_entry : Json → M (Unit {0})
  unfolding process_change
  process_entry j = or_throw (fields_of j) >>= λ entry.
      or_throw (as_list (lookup "changes" entry)) >>= each process_change

  -- `process_webhook_payload`
  unfoldable pub process_webhook_payload : Json → M (Unit {0})
  unfolding process_entry
  process_webhook_payload j = or_throw (fields_of j) >>= λ payload.
      or_throw (as_list (lookup "entry" payload)) >>= each process_entry

  -- One attempt of the task, in a session of its own.
  unfoldable pub payload_attempt : Json → World → Outcome (Unit {0}) × World
  unfolding process_webhook_payload
  payload_attempt j w = process_webhook_payload j (record w { current = w.committed })

-- Attempts at payloads, each with an environment of its own.
unfoldable pub payload_attempts : Python → List (Service × Json) → World → World
unfolding payload_attempt
payload_attempts p [] w = w
payload_attempts p ((v, j) ∷ rest) w = payload_attempts p rest (payload_attempt p v j w).1
