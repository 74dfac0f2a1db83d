-- ===== src/Chat/Tolerance/Handlers.antt =====
-- Every handler of app/services/chat_service.py keeps a tolerant view.
use whatsapp_ai_bot.Prelude.{
  ℕ, ◌&&◌, String, Bool, true, false, not, List, Option, none, some, ◌∙◌, str_eq, if◌then◌else◌,
}
use whatsapp_ai_bot.Tokens.{Turn}
use whatsapp_ai_bot.Store.Rows.{Conversation, is_human}
use whatsapp_ai_bot.Store.Messages.Laws.{reserved-update_status}
use whatsapp_ai_bot.World.Effects.{pure, ◌>>=◌, ◌>>◌}
use whatsapp_ai_bot.World.Keeps.{View, Keeps, Keeps-pure, Keeps-bind, Keeps-if}
use whatsapp_ai_bot.Quota.Types.{QuotaDecision}
use whatsapp_ai_bot.Quota.Keeps.{Keeps-check}
use whatsapp_ai_bot.Menu
use whatsapp_ai_bot.Chat.Service.{
  Service, message_for, Scope, company, domain, out_of_scope, text_or,
}
use whatsapp_ai_bot.Chat.Send
use whatsapp_ai_bot.Chat.Send.{Sender, plain, buttons, change, query, always}
use whatsapp_ai_bot.Chat.Generate
use whatsapp_ai_bot.Chat.Generate.{Draft, reply_body}
use whatsapp_ai_bot.Chat.Handlers
use whatsapp_ai_bot.Chat.Tolerance.{Tolerant, Vocabulary}
use whatsapp_ai_bot.Chat.Tolerance.Steps.{
  Keeps-after_send, Keeps-begin_handoff, Keeps-build_history, Keeps-context, Keeps-draft,
  Keeps-log_draft, Keeps-mark_read, Keeps-send_fixed, Keeps-should_welcome, Keeps-take_in,
}

module _ {P : View} {Admitted : String → Type 0} (v : Service) (h : Tolerant v P Admitted)
    (words : Vocabulary v Admitted) where
  Keeps-generate_and_send :
      (wa_id : String) (c : ℕ) (history : List Turn) (reply_to : Option String) (welcome : Bool)
      → Keeps P (Generate.generate_and_send v wa_id c history reply_to welcome)
  unfolding Generate.generate_and_send
  Keeps-generate_and_send wa_id c history reply_to welcome =
      Keeps-bind _ _ (Keeps-draft v h history reply_to) (λ d.
        Keeps-bind _ _ (Keeps-log_draft v h c d) (λ a.
          Keeps-bind _ _ (h.sending plain wa_id c _ reply_to (words.body welcome d.reply_text))
            (Keeps-after_send v h c reply_to welcome)))

  Keeps-handled_by_human :
      (wa_id : String) (c : Conversation) (text reply_to : Option String)
      → Keeps P (Send.handled_by_human v wa_id c text reply_to)
  unfolding Send.handled_by_human
  Keeps-handled_by_human wa_id c text reply_to = Keeps-if (is_human c.mode) _ _ (Keeps-pure true) (
      Keeps-if (v.classifiers.is_negotiating text) _ _
        (Keeps-bind _ _ (Keeps-begin_handoff v h wa_id c _ _ _ reply_to words.sales)
          (λ a. Keeps-pure true))
        (Keeps-if (v.classifiers.wants_human text) _ _
          (Keeps-bind _ _ (Keeps-begin_handoff v h wa_id c _ _ _ reply_to words.handoff)
            (λ a. Keeps-pure true))
          (Keeps-pure false)))

  Keeps-judged :
      (wa_id : String) (c : ℕ) (id : String) (d : QuotaDecision)
      → Keeps P (
          if d.is_allowed
          then pure true
          else if d.notify
          then Send.send_fixed v plain wa_id c
              (message_for v.copy d v.settings.sales_phone)
              (some id)
              false
            >> pure false
          else pure false)
  Keeps-judged wa_id c id d = Keeps-if d.is_allowed _ _ (Keeps-pure true) (
      Keeps-if d.notify _ _
        (Keeps-bind _ _ (Keeps-send_fixed v h plain wa_id c _ (some id) false (words.quota d))
          (λ a. Keeps-pure false))
        (Keeps-pure false))

  Keeps-goes_on :
      (wa_id : String) (c : Conversation) (id : String) (text : Option String)
      → Keeps P (Handlers.goes_on v wa_id c id text)
  unfolding Handlers.goes_on Send.within_quota
  Keeps-goes_on wa_id c id text =
      Keeps-bind _ _ (Keeps-handled_by_human wa_id c text (some id)) (λ handled.
        Keeps-if handled _ _ (Keeps-pure false) (
          Keeps-bind _ _ (Keeps-check h.durable v.outside v.settings v.text wa_id id text)
            (Keeps-judged wa_id c.id id)))

  -- What follows the claim of a message, in the four handlers.
  Keeps-answer :
      (wa_id : String) (c : ℕ) (id : String) (first : Bool)
      → Keeps P (
          Generate.build_history v c >>= λ history.
          Generate.generate_and_send v wa_id c history (some id) first)
  Keeps-answer wa_id c id first =
      Keeps-bind _ _ (Keeps-build_history v h c)
        (λ history. Keeps-generate_and_send wa_id c history (some id) first)

  Keeps-answer_text :
      (wa_id : String) (c : ℕ) (id text : String) (first : Bool)
      → Keeps P (Handlers.answer_text v wa_id c id text first)
  unfolding Handlers.answer_text
  Keeps-answer_text wa_id c id text first = go (v.classifiers.classify text)
    where
      go :
          (s : Scope)
          → Keeps P (elim s [
            | Scope.out_of_scope ↦
                Send.send_fixed v plain wa_id c
                  (Handlers.with_prefix v first (v.copy.out_of_scope_reply v.settings.company_name))
                  (some id)
                  first
            | _ ↦ Generate.build_history v c >>= λ history.
                Generate.generate_and_send v wa_id c history (some id) first
          ])
      go company = Keeps-answer wa_id c id first
      go domain = Keeps-answer wa_id c id first
      go out_of_scope = Keeps-send_fixed v h plain wa_id c _ (some id) first (words.refusal first)

  Keeps-open_text :
      (wa_id : String) (c : ℕ) (id text : String) (first : Bool)
      → Keeps P (Handlers.open_text v wa_id c id text first)
  unfolding Handlers.open_text
  Keeps-open_text wa_id c id text first =
      Keeps-if (first && v.classifiers.is_unintelligible text) _ _
        (Keeps-send_fixed v h plain wa_id c _ (some id) true words.opening)
        (Keeps-if (first && v.classifiers.is_greeting_only text) _ _
          (Keeps-send_fixed v h plain wa_id c _ (some id) true words.welcome)
          (Keeps-answer_text wa_id c id text first))

  pub Keeps-handle_text_message :
      (wa_id : String) (name : Option String) (id : String) (text : Option String)
      → Keeps P (Handlers.handle_text_message v wa_id name id text)
  unfolding Handlers.handle_text_message Handlers.reply_text
  Keeps-handle_text_message wa_id name id text = Keeps-bind _ _ (Keeps-context v h wa_id name) (λ c.
      Keeps-bind _ _ (Keeps-take_in v h c.id id "text" text none) (λ fresh.
        Keeps-if fresh _ _
          (Keeps-bind _ _ (Keeps-mark_read v h id) (λ a.
            Keeps-bind _ _ (Keeps-goes_on wa_id c id text) (λ on.
              Keeps-if on _ _
                (Keeps-bind _ _ (Keeps-should_welcome v h c) (λ owed.
                  Keeps-open_text wa_id c.id id (text_or text "")
                    (owed && not (v.classifiers.is_courtesy_only (text_or text "")))))
                (Keeps-pure tt))))
          (Keeps-pure tt)))

  Keeps-route_selection :
      (wa_id : String) (c : Conversation) (id selection_id label : String) (first : Bool)
      → Keeps P (Handlers.route_selection v wa_id c id selection_id label first)
  unfolding Handlers.route_selection
  Keeps-route_selection wa_id c id selection_id label first =
      Keeps-if (Menu.is_sales selection_id) _ _
        (Keeps-begin_handoff v h wa_id c _ _ _ (some id) words.sales)
        (Keeps-if (str_eq selection_id Menu.talk_to_employee) _ _
          (Keeps-begin_handoff v h wa_id c _ _ _ (some id) words.handoff)
          (Keeps-if (Menu.is_service selection_id) _ _
            (Keeps-send_fixed v h buttons wa_id c.id _ (some id) first
              (words.service first selection_id))
            (Keeps-answer wa_id c.id id first)))

  pub Keeps-handle_interactive_message :
      (wa_id : String) (name : Option String) (id selection_id title : String)
      → Keeps P (Handlers.handle_interactive_message v wa_id name id selection_id title)
  unfolding Handlers.handle_interactive_message
  Keeps-handle_interactive_message wa_id name id selection_id title =
      Keeps-bind _ _ (Keeps-context v h wa_id name) (λ c.
        Keeps-bind _ _ (Keeps-take_in v h c.id id "interactive" _ none) (λ fresh.
          Keeps-if fresh _ _
            (Keeps-bind _ _ (Keeps-mark_read v h id) (λ a.
              Keeps-bind _ _ (Keeps-goes_on wa_id c id _) (λ on.
                Keeps-if on _ _
                  (Keeps-bind _ _ (Keeps-should_welcome v h c)
                    (Keeps-route_selection wa_id c id selection_id _))
                  (Keeps-pure tt))))
            (Keeps-pure tt)))

  pub Keeps-handle_media_message :
      (wa_id : String) (name : Option String) (id type : String) (media_id caption : Option String)
      → Keeps P (Handlers.handle_media_message v wa_id name id type media_id caption)
  unfolding Handlers.handle_media_message Handlers.answer_media
  Keeps-handle_media_message wa_id name id type media_id caption =
      Keeps-bind _ _ (Keeps-context v h wa_id name) (λ c.
        Keeps-bind _ _ (Keeps-take_in v h c.id id type _ media_id) (λ fresh.
          Keeps-if fresh _ _
            (Keeps-bind _ _ (Keeps-mark_read v h id) (λ a.
              Keeps-bind _ _ (Keeps-goes_on wa_id c id caption) (λ on.
                Keeps-if on _ _
                  (Keeps-bind _ _ (Keeps-should_welcome v h c) (λ first.
                    Keeps-bind _ _ (Keeps-build_history v h c.id)
                      (λ history. Keeps-generate_and_send wa_id c.id _ (some id) first)))
                  (Keeps-pure tt))))
            (Keeps-pure tt)))

  pub Keeps-handle_unsupported_message :
      (wa_id : String) (name : Option String) (id type : String)
      → Keeps P (Handlers.handle_unsupported_message v wa_id name id type)
  unfolding Handlers.handle_unsupported_message Handlers.decline
  Keeps-handle_unsupported_message wa_id name id type =
      Keeps-bind _ _ (Keeps-context v h wa_id name) (λ c.
        Keeps-bind _ _ (Keeps-take_in v h c.id id type _ none) (λ fresh.
          Keeps-if fresh _ _
            (Keeps-bind _ _ (Keeps-handled_by_human wa_id c none (some id)) (λ handled.
              Keeps-if handled _ _ (Keeps-pure tt) (
                Keeps-bind _ _ (Keeps-should_welcome v h c) (λ first.
                  Keeps-send_fixed v h plain wa_id c.id _ (some id) first
                    (words.unsupported first)))))
            (Keeps-pure tt)))

  pub Keeps-handle_status_update :
      (id status : String) → Keeps P (Handlers.handle_status_update v id status)
  unfolding Handlers.handle_status_update
  Keeps-handle_status_update id status =
      Keeps-bind _ _ (h.stating _ (λ m t db e. reserved-update_status m id status db ∙ e))
        (λ a. h.committing)
