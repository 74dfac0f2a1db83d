-- ===== src/Replies.antt =====
-- app/services/reply_service.py: `revive_for_operator` and `ReplyService.send_manual_reply`. Its errors
-- are values; a failing send raises. The attribution of a reply to an operator is left out.
pub mod Reopening
pub mod Views
pub mod Reviving
pub mod Steps
pub mod Outcomes
use whatsapp_ai_bot.Prelude.{
  ℕ, ◌+◌, String, Bool, true, false, not, ◌&&◌, Option, none, some, ltb, ◌==◌, if◌then◌else◌, find,
}
use whatsapp_ai_bot.Json.{Json}
use whatsapp_ai_bot.Store.Rows.{Conversation, User, active, closed}
use whatsapp_ai_bot.Store.Messages
use whatsapp_ai_bot.Store.Conversations
use whatsapp_ai_bot.Store.Users.{recipient_id}
use whatsapp_ai_bot.World.{M, Outside, activity, reopened}
use whatsapp_ai_bot.World.Effects.{pure, ◌>>=◌, ◌>>◌, now, statement, commit, call_send, publish}
use whatsapp_ai_bot.Channels.Outbound.{Resolved, adapter, unavailable, outbound_adapter}
use whatsapp_ai_bot.Chat.Send.{outbound_id, change, or_raise, query, always}
use whatsapp_ai_bot.Sessions.{Sweeper, outside, customer_service_window}

-- `NotFoundError` of the conversation and of the user, `ConversationSupersededError`,
-- `UnsupportedChannelError`, `ChannelUnavailableError` and `OutsideServiceWindowError`.
pub data ReplyError : Type 0 where
  no_conversation no_user superseded unsupported_channel channel_unavailable : ReplyError
  outside_service_window : ReplyError

pub data Reply : Type 0 where
  replied : Reply
  declined : ReplyError → Reply

-- The service is constructed with what `Sweeper` holds.
module _ (s : Sweeper) where
  abbrev pub announce_reopened : Option Conversation → M (Option Conversation)
  announce_reopened none = pure none
  announce_reopened (some c) =
      commit (outside s) >> (publish (outside s) (reopened c.id "operator") >> pure (some c))

  -- `revive_for_operator`; `none` is the `ConversationSupersededError`.
  unfoldable pub revive_for_operator : Conversation → M (Option Conversation)
  revive_for_operator c = elim c.status [
    | active ↦ pure (some c)
    | closed ↦
        statement (outside s) (λ t db. always (Conversations.reopen t c.id db))
        >>= announce_reopened
  ]

  -- `_resets_idle_timer`
  unfoldable pub resets_idle_timer : Bool
  resets_idle_timer =
      s.service.settings.enable_conversation_session
      && s.service.settings.reset_idle_timer_on_outgoing_message

  -- From the accepted send on.
  unfoldable pub record_reply : ℕ → String → Json → M Reply
  unfolding resets_idle_timer
  record_reply conversation_id text response = do
    statement (outside s) (λ t db.
        or_raise (Messages.create t conversation_id text (outbound_id response) Messages.sent db)
          db)
    (if resets_idle_timer
        then statement (outside s) (change (λ t. Conversations.touch t conversation_id))
        else pure tt)
    commit (outside s)
    publish (outside s) (activity conversation_id false)
    pure replied

  unfoldable pub send_and_record : ℕ → String → String → M Reply
  unfolding record_reply
  send_and_record conversation_id recipient text =
      call_send (outside s) recipient text none none >>= record_reply conversation_id text

  -- The check of the service window.
  abbrev pub within_service_window : ℕ → String → String → Option ℕ → M Reply
  within_service_window conversation_id recipient text none = pure (declined outside_service_window)
  within_service_window conversation_id recipient text (some last_inbound) =
      now (outside s) >>= λ t.
      if ltb (last_inbound + customer_service_window) t
      then pure (declined outside_service_window)
      else send_and_record conversation_id recipient text

  abbrev pub reply_through : ℕ → String → String → Resolved → M Reply
  reply_through conversation_id recipient text (unavailable reason) =
      pure (declined channel_unavailable)
  reply_through conversation_id recipient text (adapter channel) =
      statement (outside s) (query (Messages.last_inbound_at conversation_id))
      >>= within_service_window conversation_id recipient text

  abbrev pub reply_to_recipient : Conversation → String → Option String → M Reply
  reply_to_recipient c text none = pure (declined unsupported_channel)
  reply_to_recipient c text (some recipient) =
      reply_through c.id recipient text (outbound_adapter s.strip s.channels c.channel)

  abbrev pub reply_to_user : Conversation → String → Option User → M Reply
  reply_to_user c text none = pure (declined no_user)
  reply_to_user c text (some u) = reply_to_recipient c text (recipient_id u)

  abbrev pub reply_in : String → Option Conversation → M Reply
  reply_in text none = pure (declined superseded)
  reply_in text (some c) =
      statement (outside s) (query (λ db. find (λ u. u.id == c.user_id) db.users))
      >>= reply_to_user c text

  abbrev pub reply_found : String → Option Conversation → M Reply
  reply_found text none = pure (declined no_conversation)
  reply_found text (some c) = revive_for_operator c >>= reply_in text

  -- `send_manual_reply`
  unfoldable pub send_manual_reply : ℕ → String → M Reply
  unfolding revive_for_operator send_and_record
  send_manual_reply conversation_id text =
      statement (outside s) (query (Conversations.get conversation_id)) >>= reply_found text
