-- ===== src/Chat/Send.antt =====
-- The sending half of `ChatService`: `_outbound_id`, `_buttons_sender`, `_send_once`, `_send_fixed`,
-- `_begin_handoff`, `_handled_by_human`, `_within_quota` and the welcome of app/services/session_service.py.
use whatsapp_ai_bot.Prelude.{
  ℕ, String, Bool, true, false, not, ◌&&◌, Option, none, some, leb, if◌then◌else◌, str_eq,
}
use whatsapp_ai_bot.Json.{Json, str, arr, obj, cons, Fields, lookup}
use whatsapp_ai_bot.Store.Rows.{Db, Conversation, human, is_human, whatsapp, sales_lead}
use whatsapp_ai_bot.Store.Messages
use whatsapp_ai_bot.Store.Conversations
use whatsapp_ai_bot.World.{M, Fault, external_service, activity, handoff}
use whatsapp_ai_bot.World.Effects.{
  pure, throw, catch, ◌>>=◌, ◌>>◌, statement, commit, rollback, call_send, call_receipt, publish,
}
use whatsapp_ai_bot.Quota.Check.{check}
use whatsapp_ai_bot.Chat.Service.{Service, message_for}

-- `str(value)` of an id: the ids of the APIs are texts, and others are not read.
abbrev pub text_of : Option Json → Option String
text_of none = none
text_of (some (str s)) = if str_eq s "" then none else some s
text_of (some _) = none

abbrev pub first_id : Option Json → Option String
first_id (some (arr (cons (obj fields) rest))) = text_of (lookup "id" fields)
first_id _ = none

abbrev pub or_message_id : Option String → Fields → Option String
or_message_id (some id) fields = some id
or_message_id none fields = text_of (lookup "message_id" fields)

-- `_outbound_id`; the response of a send is an object.
unfoldable pub outbound_id : Json → Option String
outbound_id (obj fields) = or_message_id (first_id (lookup "messages" fields)) fields
outbound_id _ = none

-- An update that returns nothing.
abbrev pub change : (ℕ → Db → Db) → ℕ → Db → Option (Unit {0}) × Db
change f t db = (some tt, f t db)

-- A statement that raises when the database refuses it.
abbrev pub or_raise : Option Db → Db → Option (Unit {0}) × Db
or_raise none db = (none, db)
or_raise (some db') db = (some tt, db')

-- A query.
abbrev pub query : {A : Type 0} → (Db → A) → ℕ → Db → Option A × Db
query f t db = (some (f db), db)

abbrev pub always : {A : Type 0} → A × Db → Option A × Db
always (a, db) = (some a, db)

-- How a reply leaves: as a text, or with buttons that fall back to a text.
pub data Sender : Type 0 where
  plain buttons : Sender

module _ (v : Service) where
  -- One call of `send_text`, `send_buttons` or `send_quick_replies`.
  abbrev pub send_call : String → String → Option String → M Json
  send_call wa_id text reply_to = call_send v.outside wa_id text reply_to none

  -- `except ExternalServiceError`
  abbrev pub when_refused : {A : Type 0} → M A → Fault → M A
  when_refused handler external_service = handler
  when_refused handler e = throw e

  -- `_buttons_sender`: the second call is the plain text.
  unfoldable pub send_with : Sender → String → String → Option String → M Json
  send_with plain wa_id text reply_to = send_call wa_id text reply_to
  send_with buttons wa_id text reply_to =
      catch (send_call wa_id text reply_to) (when_refused (send_call wa_id text reply_to))

  -- `touch` of app/services/session_service.py
  unfoldable pub touch : ℕ → Bool → M (Unit {0})
  touch conversation_id outgoing =
      if not v.settings.enable_conversation_session
      then pure tt
      else if outgoing && not v.settings.reset_idle_timer_on_outgoing_message
      then pure tt
      else statement v.outside (change (λ t. Conversations.touch t conversation_id))

  -- `_announce`
  unfoldable pub announce : ℕ → M (Unit {0})
  announce conversation_id = publish v.outside (activity conversation_id true)

  unfoldable pub mark_read : String → M (Unit {0})
  mark_read id = if str_eq v.channel whatsapp then call_receipt v.outside else pure tt

  -- What `_send_once` does with the outcome of the send: record it as sent, and reset the timer.
  unfoldable pub confirm_sent : ℕ → ℕ → Json → M Bool
  confirm_sent conversation_id reserved_id result = do
    statement v.outside (λ t db.
        or_raise (Messages.confirm_reply reserved_id (outbound_id result) Messages.sent db) db)
    touch conversation_id true
    commit v.outside
    pure true

  unfoldable pub confirm_unsent : ℕ → M Bool
  confirm_unsent reserved_id = do
    statement v.outside
        (λ t db. or_raise (Messages.confirm_reply reserved_id none Messages.unconfirmed db) db)
    commit v.outside
    pure false

  -- The send of a reserved reply.
  unfoldable pub send_reserved : Sender → String → ℕ → String → String → ℕ → M Bool
  send_reserved sender wa_id conversation_id text reply_to reserved_id = do
    touch conversation_id true
    commit v.outside
    sent_or_not ←
        catch (send_with sender wa_id text (some reply_to) >>= λ result. pure (some result))
          (when_refused (pure none))
    elim sent_or_not [
      | none ↦ confirm_unsent reserved_id
      | some result ↦ confirm_sent conversation_id reserved_id result
    ]

  -- `_send_once` for the answer to an inbound message: reserve, commit, send, confirm.
  unfoldable pub send_reply : Sender → String → ℕ → String → String → M Bool
  send_reply sender wa_id conversation_id text reply_to = do
    reservation ←
        statement v.outside
          (λ t db. always (Messages.reserve_reply t conversation_id reply_to text db))
    elim reservation [
      | none ↦ rollback v.outside >> pure false
      | some reserved_id ↦ send_reserved sender wa_id conversation_id text reply_to reserved_id
    ]

  -- `_send_once` without an inbound message.
  unfoldable pub send_unprompted : Sender → String → ℕ → String → M Bool
  send_unprompted sender wa_id conversation_id text = do
    result ← send_with sender wa_id text none
    statement v.outside (λ t db.
        or_raise (Messages.create t conversation_id text (outbound_id result) Messages.sent db) db)
    touch conversation_id true
    commit v.outside
    pure true

  unfoldable pub send_once : Sender → String → ℕ → String → Option String → M Bool
  send_once sender wa_id conversation_id text none =
      send_unprompted sender wa_id conversation_id text
  send_once sender wa_id conversation_id text (some reply_to) =
      send_reply sender wa_id conversation_id text reply_to

  -- `_record_welcome`
  unfoldable pub record_welcome : ℕ → M (Unit {0})
  record_welcome conversation_id = do
    statement v.outside (change (λ t. Conversations.mark_welcome_sent t conversation_id))
    commit v.outside

  -- `_send_fixed`
  unfoldable pub send_fixed : Sender → String → ℕ → String → Option String → Bool → M (Unit {0})
  send_fixed sender wa_id conversation_id text reply_to welcome = do
    sent ← send_once sender wa_id conversation_id text reply_to
    if sent
        then (if welcome then record_welcome conversation_id else pure tt)
          >> announce conversation_id
        else pure tt

  -- `_begin_handoff`
  unfoldable pub begin_handoff :
      String → Conversation → String → String → Option String → Option String → M (Unit {0})
  begin_handoff wa_id c ack reason tag reply_to = do
    statement v.outside (change (λ t. Conversations.set_mode t c.id human none tag))
    commit v.outside
    publish v.outside (handoff c.id human none reason (Conversations.or_else tag c.tag))
    sent ← send_once plain wa_id c.id ack reply_to
    announce c.id

  -- `_handled_by_human`: whether the message must not reach the model.
  unfoldable pub handled_by_human : String → Conversation → Option String → Option String → M Bool
  handled_by_human wa_id c text reply_to =
      if is_human c.mode
      then pure true
      else if v.classifiers.is_negotiating text
      then begin_handoff wa_id c (v.copy.sales_handoff_ack v.settings.sales_phone)
          "customer_started_negotiating" (some sales_lead) reply_to
        >> pure true
      else if v.classifiers.wants_human text
      then begin_handoff wa_id c v.copy.handoff_ack "customer_asked_for_a_human"
          (if v.classifiers.is_sales_lead text then some sales_lead else none) reply_to
        >> pure true
      else pure false

  -- `_within_quota`
  unfoldable pub within_quota : String → ℕ → String → Option String → M Bool
  within_quota wa_id conversation_id wa_message_id text = do
    decision ← check v.outside v.settings v.text wa_id wa_message_id text
    if decision.is_allowed
        then pure true
        else if decision.notify
        then send_fixed plain wa_id conversation_id
            (message_for v.copy decision v.settings.sales_phone) (some wa_message_id) false
          >> pure false
        else pure false

  -- `should_welcome` of app/services/session_service.py
  unfoldable pub should_welcome : Conversation → M Bool
  should_welcome c =
      if not v.settings.enable_conversation_session
      then pure false
      else if not v.settings.enable_welcome_on_new_session
      then pure false
      else if v.settings.prevent_duplicate_welcome && not (Conversations.is_null c.welcome_sent_at)
      then pure false
      else if v.settings.enable_repeat_welcome_after_new_session
      then pure true
      else statement v.outside (query (λ db. leb (Conversations.count_for_user c.user_id db) 1))
