-- ===== src/Invites.antt =====
-- app/services/comment_invite.py: the private invitation that follows a public comment, and what it
-- reads of app/channels/config.py. The default texts of the invitation are a parameter.
pub mod Views
pub mod Once
use Prim.Native.String.{◌++◌ as append_text}
use whatsapp_ai_bot.Prelude.{
  ℕ, String, Bool, true, false, not, ◌||◌, List, [], ◌∷◌, Option, none, some, if◌then◌else◌, str_eq,
}
use whatsapp_ai_bot.Json.{Json}
use whatsapp_ai_bot.Store.Users
use whatsapp_ai_bot.Store.Messages
use whatsapp_ai_bot.Store.Conversations
use whatsapp_ai_bot.World.{M, World, Outcome, Outside}
use whatsapp_ai_bot.World.Effects.{pure, catch, ◌>>=◌, ◌>>◌, statement, commit, rollback, call_send}
use whatsapp_ai_bot.Channels.{
  ChannelSettings, facebook_comment, instagram_comment, dm_invite_enabled, or_text,
}
use whatsapp_ai_bot.Chat.Service.{Service}
use whatsapp_ai_bot.Chat.Send.{outbound_id, or_raise, always, when_refused}
use whatsapp_ai_bot.Chat.Handlers.{reopen_within}
use whatsapp_ai_bot.Webhook.{InboundEvent}

-- `RESERVATION_PREFIX` and `reservation_key`
unfoldable pub reservation_key : String → String
reservation_key comment_id = append_text "dm_invite:" comment_id

-- The comment surface and its settings, and Python's `str.strip`.
pub record Inviter : Type 0 where
  pub service : Service
  pub channels : ChannelSettings
  pub channel : String
  pub default_invite : String → String
  pub strip : String → String

module _ (i : Inviter) where
  abbrev pub outside : Outside
  outside = i.service.outside

  -- `dm_invite_message`
  unfoldable pub dm_invite_message : String → String
  dm_invite_message channel =
      if str_eq channel facebook_comment
      then or_text (i.strip i.channels.facebook_comment_dm_invite_message)
          (i.default_invite channel)
      else if str_eq channel instagram_comment
      then or_text (i.strip i.channels.instagram_comment_dm_invite_message)
          (i.default_invite channel)
      else ""

  unfoldable pub confirm_invite : ℕ → Option Json → M Bool
  confirm_invite reserved_id none =
      statement outside
        (λ t db. or_raise (Messages.confirm_reply reserved_id none Messages.unconfirmed db) db)
      >> (commit outside >> pure false)
  confirm_invite reserved_id (some result) =
      statement outside (λ t db.
        or_raise (Messages.confirm_reply reserved_id (outbound_id result) Messages.sent db) db)
      >> (commit outside >> pure true)

  abbrev pub call_invite : String → String → M Json
  call_invite comment_id text =
      call_send outside comment_id text (some (reservation_key comment_id)) none

  -- From the reservation on.
  unfoldable pub send_invite : String → String → Option ℕ → M Bool
  unfolding confirm_invite
  send_invite comment_id text none = rollback outside >> pure false
  send_invite comment_id text (some reserved_id) =
      commit outside
      >> (catch (call_invite comment_id text >>= λ result. pure (some result))
            (when_refused i.service (pure none))
          >>= confirm_invite reserved_id)

  unfoldable pub reserve_and_invite : InboundEvent → String → M Bool
  unfolding send_invite reservation_key
  reserve_and_invite e text =
      statement outside (λ t. Users.get_or_create_by_channel i.channel e.sender_id e.sender_name)
      >>= λ user.
          statement outside
            (λ t. Conversations.get_or_create_active t user.id (reopen_within i.service) i.channel)
          >>= λ c.
              statement outside (λ t db. always (
                Messages.reserve_typed "dm_invite" t c.id (reservation_key e.provider_message_id)
                  text db))
              >>= send_invite e.provider_message_id text

  -- `invite_after_comment`
  unfoldable pub invite_after_comment : InboundEvent → M Bool
  unfolding dm_invite_message reserve_and_invite
  invite_after_comment e =
      if not (dm_invite_enabled i.channels i.channel)
      then pure false
      else if str_eq (i.strip (dm_invite_message i.channel)) ""
      then pure false
      else if str_eq e.provider_message_id "" || str_eq e.sender_id ""
      then pure false
      else reserve_and_invite e (dm_invite_message i.channel)

  -- One attempt, in a session of its own.
  unfoldable pub invite_attempt : InboundEvent → World → Outcome Bool × World
  unfolding invite_after_comment
  invite_attempt e w = invite_after_comment e (record w { current = w.committed })

unfoldable pub invite_attempts : List (Inviter × InboundEvent) → World → World
unfolding invite_attempt
invite_attempts [] w = w
invite_attempts ((i, e) ∷ rest) w = invite_attempts rest (invite_attempt i e w).1
