-- ===== src/Webhook/Tolerance.antt =====
-- A tolerant view is kept by every delivery.
use whatsapp_ai_bot.Prelude.{ℕ, String, List, [], ◌∷◌, Option, none, some, ◌∙◌}
use whatsapp_ai_bot.Store.Messages.Laws.{reserved-claim_inbound}
use whatsapp_ai_bot.World.Effects.{◌>>◌, commit, rollback}
use whatsapp_ai_bot.World.Keeps.{
  View, Keeps, Keeps-pure, Keeps-bind, Keeps-if, Keeps-now, Keeps-rollback,
}
use whatsapp_ai_bot.Chat.Service.{Service}
use whatsapp_ai_bot.Chat.Send.{announce}
use whatsapp_ai_bot.Chat.Tolerance.{Tolerant, Vocabulary}
use whatsapp_ai_bot.Chat.Tolerance.Steps.{reserved_of_same, Keeps-announce}
use whatsapp_ai_bot.Chat.Tolerance.Handlers.{
  Keeps-handle_text_message, Keeps-handle_interactive_message, Keeps-handle_media_message,
  Keeps-handle_unsupported_message, Keeps-handle_status_update,
}
use whatsapp_ai_bot.Chat.Reservation.Tables.{messages-get_or_create, messages-get_or_create_active}
use whatsapp_ai_bot.Webhook.{
  InboundEvent, event_is_stale, dispatch_selection, dispatch_event, process_events,
  record_without_answering, Delivery, text_message, interactive_message, media_message,
  unsupported_message, stale_message, status_update, channel_events, handle,
}

module _ {P : View} {Admitted : String → Type 0} (v : Service) (h : Tolerant v P Admitted)
    (words : Vocabulary v Admitted) where
  Keeps-dispatch_selection :
      (e : InboundEvent) (id : Option String) → Keeps P (dispatch_selection v e id)
  unfolding dispatch_selection
  Keeps-dispatch_selection e none = Keeps-handle_unsupported_message v h words _ _ _ _
  Keeps-dispatch_selection e (some id) =
      Keeps-if _ _ _ (Keeps-handle_unsupported_message v h words _ _ _ _)
        (Keeps-handle_interactive_message v h words _ _ _ _ _)

  Keeps-dispatch_event : (e : InboundEvent) → Keeps P (dispatch_event v e)
  unfolding dispatch_event
  Keeps-dispatch_event e = Keeps-if _ _ _ (Keeps-pure tt) (
      Keeps-if _ _ _ (Keeps-handle_text_message v h words _ _ _ _) (
        Keeps-if _ _ _ (Keeps-dispatch_selection e e.selection_id) (
          Keeps-if _ _ _ (Keeps-handle_media_message v h words _ _ _ _ _ _)
            (Keeps-handle_unsupported_message v h words _ _ _ _))))

  Keeps-process_events : (es : List InboundEvent) → Keeps P (process_events v es)
  unfolding process_events event_is_stale
  Keeps-process_events [] = Keeps-pure tt
  Keeps-process_events (e ∷ es) =
      Keeps-bind _ _
        (Keeps-if _ _ _ (Keeps-bind _ _ (Keeps-now h.durable v.outside) (λ t. Keeps-pure _))
          (Keeps-pure _))
        (λ stale.
          Keeps-bind _ _ (Keeps-if _ _ _ (Keeps-pure tt) (Keeps-dispatch_event e))
            (λ a. Keeps-process_events es))

  Keeps-recorded :
      (c : ℕ) (claimed : Option ℕ)
      → Keeps P
          (elim claimed [ none ↦ rollback v.outside | some id ↦ commit v.outside >> announce v c ])
  Keeps-recorded c none = Keeps-rollback h.durable v.outside
  Keeps-recorded c (some id) = Keeps-bind _ _ h.committing (λ a. Keeps-announce v h c)

  pub Keeps-record_without_answering :
      (wa_id : String) (name : Option String) (id type : String) (content : Option String)
      → Keeps P (record_without_answering v wa_id name id type content)
  unfolding record_without_answering
  Keeps-record_without_answering wa_id name id type content =
      Keeps-bind _ _
        (h.stating _ (λ m t db. reserved_of_same m db _ (messages-get_or_create wa_id name db)))
        (λ user.
          Keeps-bind _ _
            (h.stating _
              (λ m t db. reserved_of_same m db _ (messages-get_or_create_active t user.id _ _ db)))
            (λ c.
              Keeps-bind _ _
                (h.stating _
                  (λ m t db e. reserved-claim_inbound m t c.id id type content none db ∙ e))
                (Keeps-recorded c.id)))

  pub Keeps-handle : (d : Delivery) → Keeps P (handle v d)
  unfolding handle
  Keeps-handle (text_message wa_id name id text) =
      Keeps-handle_text_message v h words wa_id name id text
  Keeps-handle (interactive_message wa_id name id selection_id title) =
      Keeps-handle_interactive_message v h words wa_id name id selection_id title
  Keeps-handle (media_message wa_id name id type media_id caption) =
      Keeps-handle_media_message v h words wa_id name id type media_id caption
  Keeps-handle (unsupported_message wa_id name id type) =
      Keeps-handle_unsupported_message v h words wa_id name id type
  Keeps-handle (stale_message wa_id name id type content) =
      Keeps-record_without_answering wa_id name id type content
  Keeps-handle (status_update id status) = Keeps-handle_status_update v h words id status
  Keeps-handle (channel_events es) = Keeps-process_events es
