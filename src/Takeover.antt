-- ===== src/Takeover.antt =====
-- app/services/admin_service.py: `take_over` and `resume_ai`, by which operators change who answers a
-- conversation. Its errors are values. The account of the operator (`assigned_operator_id`) is left out.
pub mod Steps
pub mod Outcomes
pub mod Returns
use whatsapp_ai_bot.Prelude.{ℕ, String, Option, none, some}
use whatsapp_ai_bot.Store.Rows.{Conversation, Mode, human, bot}
use whatsapp_ai_bot.Store.Conversations
use whatsapp_ai_bot.World.{M, handoff}
use whatsapp_ai_bot.World.Effects.{pure, ◌>>=◌, ◌>>◌, statement, commit, publish}
use whatsapp_ai_bot.Chat.Send.{change, query}
use whatsapp_ai_bot.Sessions.{Sweeper, outside}
use whatsapp_ai_bot.Replies.{ReplyError, no_conversation, superseded, revive_for_operator}

pub data ModeSwitch : Type 0 where
  switched_to : Conversation → ModeSwitch
  not_switched : ReplyError → ModeSwitch

module _ (s : Sweeper) (mode : Mode) (operator : Option String) (reason : String) where
  -- From the revived conversation on. The row is read again after the commit.
  unfoldable pub switch_revived : Conversation → M ModeSwitch
  switch_revived c = do
    statement (outside s) (change (λ t. Conversations.set_mode t c.id mode operator none))
    commit (outside s)
    row ← statement (outside s) (λ t db. (Conversations.get c.id db, db))
    publish (outside s) (handoff row.id row.mode row.assigned_operator reason none)
    pure (switched_to row)

  abbrev pub switch_in : Option Conversation → M ModeSwitch
  switch_in none = pure (not_switched superseded)
  switch_in (some c) = switch_revived c

  abbrev pub switch_found : Option Conversation → M ModeSwitch
  switch_found none = pure (not_switched no_conversation)
  switch_found (some c) = revive_for_operator s c >>= switch_in

  -- `_switch_mode`
  unfoldable pub switch_mode : ℕ → M ModeSwitch
  unfolding switch_revived
  switch_mode conversation_id =
      statement (outside s) (query (Conversations.get conversation_id)) >>= switch_found

module _ (s : Sweeper) where
  unfoldable pub take_over : ℕ → Option String → M ModeSwitch
  unfolding switch_mode
  take_over conversation_id operator =
      switch_mode s human operator "operator_took_over" conversation_id

  unfoldable pub resume_ai : ℕ → M ModeSwitch
  unfolding switch_mode
  resume_ai conversation_id = switch_mode s bot none "operator_resumed_ai" conversation_id
