-- ===== src/Chat/Tolerance/Steps.antt =====
-- The steps of the handlers of app/services/chat_service.py keep a tolerant view.
use whatsapp_ai_bot.Prelude.{
  ℕ, ◌&&◌, String, Bool, true, false, not, List, Option, none, some, ◌≡◌, refl, ◌∙◌, ap, any, leb,
}
use whatsapp_ai_bot.Tokens.{Turn}
use whatsapp_ai_bot.Redis.{CachedGeneration}
use whatsapp_ai_bot.Store.Rows.{Db, Conversation}
use whatsapp_ai_bot.Store.Messages
use whatsapp_ai_bot.Store.Messages.Laws.{reserved-claim_inbound}
use whatsapp_ai_bot.Store.Conversations
use whatsapp_ai_bot.World.{GenerateResult, generated, failed}
use whatsapp_ai_bot.World.Effects.{pure, ◌>>◌, statement, rollback, commit}
use whatsapp_ai_bot.World.Keeps.{
  View, Keeps, Keeps-pure, Keeps-bind, Keeps-if, Keeps-rollback, Keeps-publish, Keeps-call_generate,
  Keeps-call_receipt,
}
use whatsapp_ai_bot.Quota.Keeps.{Keeps-attempt, Keeps-record_usage}
use whatsapp_ai_bot.Chat.Idempotency.{get_cached_generation, store_generation, clear_generation}
use whatsapp_ai_bot.Chat.Service.{Service}
use whatsapp_ai_bot.Chat.Send
use whatsapp_ai_bot.Chat.Send.{Sender, plain, buttons, change, query, always}
use whatsapp_ai_bot.Chat.Generate
use whatsapp_ai_bot.Chat.Generate.{Draft, reply_body}
use whatsapp_ai_bot.Chat.Handlers
use whatsapp_ai_bot.Chat.Reservation.Tables.{messages-find_user, messages-get_or_create_active}
use whatsapp_ai_bot.Chat.Tolerance.{Tolerant}

-- A statement that leaves the messages loses no reservation.
pub reserved_of_same :
    (m : String) (db after : Db)
    → after.messages ≡ db.messages
    → Messages.reserved m db ≡ true
    → Messages.reserved m after ≡ true
unfolding Messages.reserved
reserved_of_same m db after e h = ap (any (λ x. Messages.holds x.reply_to_wa_message_id m)) e ∙ h

module _ {P : View} {Admitted : String → Type 0} (v : Service) (h : Tolerant v P Admitted) where
  pub Keeps-query : {A : Type 0} (f : Db → A) → Keeps P (statement v.outside (query f))
  Keeps-query f = h.stating (query f) (λ m t db e. e)

  -- A statement on the tables of users and conversations.
  pub Keeps-change :
      (f : ℕ → Db → Db)
      → ((t : ℕ) (db : Db) → (f t db).messages ≡ db.messages)
      → Keeps P (statement v.outside (change f))
  Keeps-change f k = h.stating (change f) (λ m t db. reserved_of_same m db (f t db) (k t db))

  pub Keeps-touch : (id : ℕ) (outgoing : Bool) → Keeps P (Send.touch v id outgoing)
  unfolding Send.touch Conversations.touch
  Keeps-touch id outgoing =
      Keeps-if _ _ _ (Keeps-pure tt)
        (Keeps-if _ _ _ (Keeps-pure tt) (Keeps-change _ (λ t db. refl)))

  pub Keeps-announce : (id : ℕ) → Keeps P (Send.announce v id)
  unfolding Send.announce
  Keeps-announce id = Keeps-publish h.durable v.outside _

  pub Keeps-mark_read : (id : String) → Keeps P (Send.mark_read v id)
  unfolding Send.mark_read
  Keeps-mark_read id = Keeps-if _ _ _ (Keeps-call_receipt h.durable v.outside) (Keeps-pure tt)

  pub Keeps-record_welcome : (id : ℕ) → Keeps P (Send.record_welcome v id)
  unfolding Send.record_welcome Conversations.mark_welcome_sent
  Keeps-record_welcome id = Keeps-bind _ _ (Keeps-change _ (λ t db. refl)) (λ a. h.committing)

  pub Keeps-send_fixed :
      (sender : Sender) (wa_id : String) (c : ℕ) (text : String) (reply_to : Option String)
      (welcome : Bool)
      → Admitted text
      → Keeps P (Send.send_fixed v sender wa_id c text reply_to welcome)
  unfolding Send.send_fixed
  Keeps-send_fixed sender wa_id c text reply_to welcome ok =
      Keeps-bind _ _ (h.sending sender wa_id c text reply_to ok) (λ sent.
        Keeps-if _ _ _
          (Keeps-bind _ _ (Keeps-if _ _ _ (Keeps-record_welcome c) (Keeps-pure tt))
            (λ a. Keeps-announce c))
          (Keeps-pure tt))

  pub Keeps-begin_handoff :
      (wa_id : String) (c : Conversation) (ack reason : String) (tag reply_to : Option String)
      → Admitted ack
      → Keeps P (Send.begin_handoff v wa_id c ack reason tag reply_to)
  unfolding Send.begin_handoff Conversations.set_mode
  Keeps-begin_handoff wa_id c ack reason tag reply_to ok =
      Keeps-bind _ _ (Keeps-change _ (λ t db. refl)) (λ a. Keeps-bind _ _ h.committing (λ b.
        Keeps-bind _ _ (Keeps-publish h.durable v.outside _) (λ d.
          Keeps-bind _ _ (h.sending plain wa_id c.id ack reply_to ok) (λ e. Keeps-announce c.id))))

  pub Keeps-should_welcome : (c : Conversation) → Keeps P (Send.should_welcome v c)
  unfolding Send.should_welcome
  Keeps-should_welcome c =
      Keeps-if (not v.settings.enable_conversation_session) _ _ (Keeps-pure false) (
        Keeps-if (not v.settings.enable_welcome_on_new_session) _ _ (Keeps-pure false) (
          Keeps-if
            (v.settings.prevent_duplicate_welcome && not (Conversations.is_null c.welcome_sent_at))
            _ _ (Keeps-pure false)
            (Keeps-if v.settings.enable_repeat_welcome_after_new_session _ _ (Keeps-pure true)
              (Keeps-query (λ db. leb (Conversations.count_for_user c.user_id db) 1)))))

  pub Keeps-context : (id : String) (name : Option String) → Keeps P (Handlers.context v id name)
  unfolding Handlers.context
  Keeps-context id name =
      Keeps-bind _ _
        (h.stating _ (λ m t db. reserved_of_same m db _ (messages-find_user v id name db)))
        (λ user. h.stating _ (λ m t db.
          reserved_of_same m db _
            (messages-get_or_create_active t user.id (Handlers.reopen_within v) v.channel db)))

  pub Keeps-claimed :
      (c : ℕ) (r : Option ℕ)
      → Keeps P (elim r [
        | none ↦ rollback v.outside >> pure false
        | some id ↦ Send.touch v c false >> commit v.outside >> Send.announce v c >> pure true
      ])
  Keeps-claimed c none = Keeps-bind _ _ (Keeps-rollback h.durable v.outside) (λ a. Keeps-pure _)
  Keeps-claimed c (some id) =
      Keeps-bind _ _
        (Keeps-bind _ _ (Keeps-bind _ _ (Keeps-touch c false) (λ a. h.committing))
          (λ a. Keeps-announce c))
        (λ a. Keeps-pure _)

  pub Keeps-take_in :
      (c : ℕ) (id type : String) (content media : Option String)
      → Keeps P (Handlers.take_in v c id type content media)
  unfolding Handlers.take_in
  Keeps-take_in c id type content media =
      Keeps-bind _ _
        (h.stating _ (λ m t db e. reserved-claim_inbound m t c id type content media db ∙ e))
        (Keeps-claimed c)

  pub Keeps-build_history : (c : ℕ) → Keeps P (Generate.build_history v c)
  unfolding Generate.build_history
  Keeps-build_history c = Keeps-query _

  pub Keeps-cached_for : (id : Option String) → Keeps P (Generate.cached_for v id)
  unfolding get_cached_generation
  Keeps-cached_for none = Keeps-pure none
  Keeps-cached_for (some id) =
      Keeps-if _ _ _ (Keeps-pure none) (Keeps-attempt h.durable v.outside _ none)

  pub Keeps-store_for :
      (id : Option String) (g : CachedGeneration) → Keeps P (Generate.store_for v id g)
  unfolding store_generation
  Keeps-store_for none g = Keeps-pure tt
  Keeps-store_for (some id) g =
      Keeps-if _ _ _ (Keeps-pure tt) (Keeps-attempt h.durable v.outside _ tt)

  pub Keeps-clear_for : (id : Option String) → Keeps P (Generate.clear_for v id)
  unfolding clear_generation
  Keeps-clear_for none = Keeps-pure tt
  Keeps-clear_for (some id) =
      Keeps-if _ _ _ (Keeps-pure tt) (Keeps-attempt h.durable v.outside _ tt)

  pub Keeps-draft_from :
      (reply_to : Option String) (r : GenerateResult) → Keeps P (Generate.draft_from v reply_to r)
  unfolding Generate.draft_from Generate.keep_result
  Keeps-draft_from reply_to (generated r) = Keeps-bind _ _ (Keeps-store_for reply_to _) (λ a.
      Keeps-bind _ _ (Keeps-record_usage h.durable v.outside v.settings _ _) (λ b. Keeps-pure _))
  Keeps-draft_from reply_to (failed message) = Keeps-pure _

  pub Keeps-generate_draft :
      (history : List Turn) (reply_to : Option String)
      → Keeps P (Generate.generate_draft v history reply_to)
  unfolding Generate.generate_draft
  Keeps-generate_draft history reply_to = Keeps-bind _ _ (Keeps-rollback h.durable v.outside) (λ a.
      Keeps-bind _ _ (Keeps-call_generate h.durable v.outside history) (Keeps-draft_from reply_to))

  pub Keeps-drafted :
      (history : List Turn) (reply_to : Option String) (cached : Option CachedGeneration)
      → Keeps P (elim cached [
        | some g ↦ pure (Generate.draft_of v g)
        | none ↦ Generate.generate_draft v history reply_to
      ])
  Keeps-drafted history reply_to none = Keeps-generate_draft history reply_to
  Keeps-drafted history reply_to (some g) = Keeps-pure _

  pub Keeps-draft :
      (history : List Turn) (reply_to : Option String) → Keeps P (Generate.draft v history reply_to)
  unfolding Generate.draft
  Keeps-draft history reply_to =
      Keeps-bind _ _ (Keeps-cached_for reply_to) (Keeps-drafted history reply_to)

  pub Keeps-log_draft : (c : ℕ) (d : Draft) → Keeps P (Generate.log_draft v c d)
  unfolding Generate.log_draft Messages.create_ai_log
  Keeps-log_draft c d = go d.generation d.error
    where
      go :
          (g : Option CachedGeneration) (e : Option String)
          → Keeps P (elim g [
            | some g ↦ Generate.write_log v (Generate.log_of v c g)
            | none ↦ Generate.log_error v c e
          ])
      go none none = Keeps-pure tt
      go none (some message) = Keeps-change _ (λ t db. refl)
      go (some g) e = Keeps-change _ (λ t db. refl)

  pub Keeps-after_send :
      (c : ℕ) (reply_to : Option String) (welcome sent : Bool)
      → Keeps P (Generate.after_send v c reply_to welcome sent)
  unfolding Generate.after_send
  Keeps-after_send c reply_to welcome sent =
      Keeps-if _ _ _
        (Keeps-bind _ _
          (Keeps-bind _ _ (Keeps-if _ _ _ (Keeps-record_welcome c) (Keeps-pure tt))
            (λ a. Keeps-clear_for reply_to))
          (λ a. Keeps-announce c))
        (Keeps-pure tt)
