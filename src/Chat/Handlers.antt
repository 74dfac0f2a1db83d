-- ===== src/Chat/Handlers.antt =====
-- The handlers of `ChatService`, and `get_context` and `get_channel_context` of
-- app/services/conversation_service.py.
use Prim.Native.String.{◌++◌ as append_text}
use whatsapp_ai_bot.Prelude.{
  ℕ, String, Bool, true, false, not, ◌&&◌, [], ◌∷◌, ◌++◌, Option, none, some, if◌then◌else◌, str_eq,
  ltb,
}
use whatsapp_ai_bot.Settings.{conversation_reopen_window}
use whatsapp_ai_bot.Store.Rows.{Db, User, Conversation, whatsapp, sales_lead}
use whatsapp_ai_bot.Store.Messages
use whatsapp_ai_bot.Store.Conversations
use whatsapp_ai_bot.Store.Users
use whatsapp_ai_bot.World.{M}
use whatsapp_ai_bot.World.Effects.{pure, ◌>>=◌, ◌>>◌, statement, commit, rollback}
use whatsapp_ai_bot.Menu
use whatsapp_ai_bot.Chat.Service.{Service, Scope, paragraphs, received, text_or}
use whatsapp_ai_bot.Chat.Send.{
  change, always, plain, buttons, touch, announce, mark_read, send_fixed, begin_handoff,
  handled_by_human, within_quota, should_welcome,
}
use whatsapp_ai_bot.Chat.Generate.{build_history, generate_and_send}

module _ (v : Service) where
  -- `_reopen_within`
  unfoldable pub reopen_within : Option ℕ
  reopen_within =
      if v.settings.enable_conversation_session && ltb 0 (conversation_reopen_window v.settings)
      then some (conversation_reopen_window v.settings)
      else none

  unfoldable pub find_user : String → Option String → Db → Option User × Db
  find_user external_id name db =
      if str_eq v.channel whatsapp
      then Users.get_or_create external_id name db
      else Users.get_or_create_by_channel v.channel external_id name db

  -- `_context`
  unfoldable pub context : String → Option String → M Conversation
  context external_id name = do
    user ← statement v.outside (λ t. find_user external_id name)
    statement v.outside (λ t. Conversations.get_or_create_active t user.id reopen_within v.channel)

  -- How every handler begins once it has the conversation: claim the message, reset the timer,
  -- commit, announce. `false` is the early return on a delivery that was stored before.
  unfoldable pub take_in : ℕ → String → String → Option String → Option String → M Bool
  take_in conversation_id wa_message_id type content media_id = do
    claimed ← statement v.outside (λ t db.
        always (Messages.claim_inbound t conversation_id wa_message_id type content media_id db))
    elim claimed [
      | none ↦ rollback v.outside >> pure false
      | some id ↦
          touch v conversation_id false
          >> commit v.outside
          >> announce v conversation_id
          >> pure true
    ]

  -- Handoff, then quota: whether the message goes on to an answer.
  unfoldable pub goes_on : String → Conversation → String → Option String → M Bool
  goes_on wa_id c wa_message_id text = do
    handled ← handled_by_human v wa_id c text (some wa_message_id)
    if handled then pure false else within_quota v wa_id c.id wa_message_id text

  -- With the welcome in front when it is owed.
  unfoldable pub with_prefix : Bool → String → String
  with_prefix first text = if first then paragraphs v.copy.welcome_prefix text else text

  -- The message is neither a greeting nor unreadable: classify it and answer.
  unfoldable pub answer_text : String → ℕ → String → String → Bool → M (Unit {0})
  answer_text wa_id conversation_id wa_message_id text first = elim (v.classifiers.classify text) [
    | Scope.out_of_scope ↦
        send_fixed v plain wa_id conversation_id
          (with_prefix first (v.copy.out_of_scope_reply v.settings.company_name))
          (some wa_message_id) first
    | _ ↦ build_history v conversation_id >>= λ history.
        generate_and_send v wa_id conversation_id history (some wa_message_id) first
  ]

  -- The opening of a session, when a welcome is owed and the message is no courtesy.
  unfoldable pub open_text : String → ℕ → String → String → Bool → M (Unit {0})
  open_text wa_id conversation_id wa_message_id text first =
      if first && v.classifiers.is_unintelligible text
      then send_fixed v plain wa_id conversation_id
          (paragraphs v.copy.welcome v.copy.not_understood) (some wa_message_id) true
      else if first && v.classifiers.is_greeting_only text
      then send_fixed v plain wa_id conversation_id v.copy.welcome (some wa_message_id) true
      else answer_text wa_id conversation_id wa_message_id text first

  unfoldable pub reply_text : String → Conversation → String → String → M (Unit {0})
  reply_text wa_id c wa_message_id text = do
    owed ← should_welcome v c
    open_text wa_id c.id wa_message_id text (owed && not (v.classifiers.is_courtesy_only text))

  -- A text that is null is stored as null; `classify` and the other classifiers take it as an empty text.
  unfoldable pub handle_text_message :
      String → Option String → String → Option String → M (Unit {0})
  handle_text_message wa_id name wa_message_id text = do
    c ← context wa_id name
    fresh ← take_in c.id wa_message_id "text" text none
    if fresh
        then (do
          mark_read v wa_message_id
          on ← goes_on wa_id c wa_message_id text
          if on then reply_text wa_id c wa_message_id (text_or text "") else pure tt)
        else pure tt

  -- `menu.LABELS.get(selection_id) or title or selection_id`
  unfoldable pub label_of : String → String → String
  label_of selection_id title =
      if Menu.is_known selection_id && not (str_eq (v.copy.label selection_id) "")
      then v.copy.label selection_id
      else if str_eq title ""
      then selection_id
      else title

  -- The routing of a selection, on its id.
  unfoldable pub route_selection :
      String → Conversation → String → String → String → Bool → M (Unit {0})
  route_selection wa_id c wa_message_id selection_id label first =
      if Menu.is_sales selection_id
      then begin_handoff v wa_id c (v.copy.sales_handoff_ack v.settings.sales_phone)
          (append_text "menu_" selection_id) (some sales_lead) (some wa_message_id)
      else if str_eq selection_id Menu.talk_to_employee
      then begin_handoff v wa_id c v.copy.handoff_ack (append_text "menu_" selection_id) none
          (some wa_message_id)
      else if Menu.is_service selection_id
      then send_fixed v buttons wa_id c.id (with_prefix first (v.copy.service_ack selection_id))
          (some wa_message_id) first
      else (build_history v c.id >>= λ history.
          generate_and_send v wa_id c.id history (some wa_message_id) first)

  unfoldable pub handle_interactive_message :
      String → Option String → String → String → String → M (Unit {0})
  handle_interactive_message wa_id name wa_message_id selection_id title = do
    c ← context wa_id name
    fresh ← take_in c.id wa_message_id "interactive" (some (label_of selection_id title)) none
    if fresh
        then (do
          mark_read v wa_message_id
          on ← goes_on wa_id c wa_message_id (some (label_of selection_id title))
          if on
              then should_welcome v c
                >>= route_selection wa_id c wa_message_id selection_id (label_of selection_id title)
              else pure tt)
        else pure tt

  -- The media of a customer are described to the model, which cannot see them.
  unfoldable pub answer_media :
      String → Conversation → String → String → Option String → M (Unit {0})
  answer_media wa_id c wa_message_id type caption = do
    first ← should_welcome v c
    history ← build_history v c.id
    generate_and_send v wa_id c.id
        (history ++ record { role = "user"; content = v.copy.media_note type caption } ∷ [])
        (some wa_message_id) first

  unfoldable pub handle_media_message :
      String → Option String → String → String → Option String → Option String → M (Unit {0})
  handle_media_message wa_id name wa_message_id type media_id caption = do
    c ← context wa_id name
    fresh ← take_in c.id wa_message_id type (some (text_or caption (received type))) media_id
    if fresh
        then (do
          mark_read v wa_message_id
          on ← goes_on wa_id c wa_message_id caption
          if on then answer_media wa_id c wa_message_id type caption else pure tt)
        else pure tt

  unfoldable pub decline : String → Conversation → String → M (Unit {0})
  decline wa_id c wa_message_id = do
    first ← should_welcome v c
    send_fixed v plain wa_id c.id (with_prefix first v.copy.unsupported_message)
        (some wa_message_id) first

  unfoldable pub handle_unsupported_message :
      String → Option String → String → String → M (Unit {0})
  handle_unsupported_message wa_id name wa_message_id type = do
    c ← context wa_id name
    fresh ← take_in c.id wa_message_id type (some (received type)) none
    if fresh
        then (do
          handled ← handled_by_human v wa_id c none (some wa_message_id)
          if handled then pure tt else decline wa_id c wa_message_id)
        else pure tt

  unfoldable pub handle_status_update : String → String → M (Unit {0})
  handle_status_update wa_message_id status = do
    statement v.outside (change (λ t. Messages.update_status_by_wa_id wa_message_id status))
    commit v.outside
