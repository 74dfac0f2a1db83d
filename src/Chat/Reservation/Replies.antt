-- ===== src/Chat/Reservation/Replies.antt =====
-- `_send_once`: the reservation of a reply, its send, and what is recorded of it.
use whatsapp_ai_bot.Prelude.{
  ℕ, String, Bool, true, false, Option, none, some, ◌≡◌, refl, ◌∙◌, str_eq,
}
use whatsapp_ai_bot.Json.{Json}
use whatsapp_ai_bot.Store.Rows.{Db}
use whatsapp_ai_bot.Store.Conversations
use whatsapp_ai_bot.Store.Messages.{holds, reserved, confirm_reply, create, sent, unconfirmed}
use whatsapp_ai_bot.Store.Messages.Laws.{
  reserved-create, reserved-confirm_reply, reserved-reserve_reply,
}
use whatsapp_ai_bot.World.{M, Fault, external_service, redis_down, killed}
use whatsapp_ai_bot.World.Effects.{pure, ◌>>◌, statement, commit, rollback}
use whatsapp_ai_bot.World.Keeps.{
  Keeps, Keeps-pure, Keeps-throw, Keeps-bind, Keeps-catch, Keeps-if, Keeps-statement, Keeps-commit,
  Keeps-rollback, Keeps-call_send,
}
use whatsapp_ai_bot.Chat.Service.{Service}
use whatsapp_ai_bot.Chat.Send.{
  Sender, plain, buttons, or_raise, outbound_id, touch, send_with, confirm_sent, confirm_unsent,
  send_reserved, send_reply, send_unprompted, when_refused, send_call,
}
use whatsapp_ai_bot.Chat.Reservation.Views.{
  Once, Once-Durable, Once-of_grown, Once-of_committed, Once-of_other,
}

module _ (m : String) (v : Service) where
  -- Statements and commits.
  pub Once-statement :
      {A : Type 0} (f : ℕ → Db → Option A × Db)
      → ((t : ℕ) (db : Db) → reserved m db ≡ true → reserved m (f t db).1 ≡ true)
      → Keeps (Once m) (statement v.outside f)
  Once-statement f g = Keeps-statement (Once-Durable m) v.outside f (λ t committed current wire.
      Once-of_grown m committed current (f t current).1 wire (g t current))

  pub Once-commit : Keeps (Once m) (commit v.outside)
  Once-commit = Keeps-commit (Once-Durable m) v.outside (Once-of_committed m)

  pub Once-touch : (id : ℕ) (outgoing : Bool) → Keeps (Once m) (touch v id outgoing)
  unfolding touch Conversations.touch reserved
  Once-touch id outgoing =
      Keeps-if _ _ _ (Keeps-pure tt)
        (Keeps-if _ _ _ (Keeps-pure tt) (Once-statement _ (λ t db e. e)))

  raised_keeps :
      (r : Db → Option Db)
      → ((db db' : Db) → r db ≡ some db' → reserved m db' ≡ reserved m db)
      → (db : Db) → reserved m db ≡ true
      → reserved m (or_raise (r db) db).1 ≡ true
  raised_keeps r h db e = go (r db) (h db) e
    where
      go :
          (x : Option Db)
          → ((db' : Db) → x ≡ some db' → reserved m db' ≡ reserved m db)
          → reserved m db ≡ true
          → reserved m (or_raise x db).1 ≡ true
      go none k e = e
      go (some db') k e = k db' refl ∙ e

  Once-confirm_sent : (c id : ℕ) (result : Json) → Keeps (Once m) (confirm_sent v c id result)
  unfolding confirm_sent
  Once-confirm_sent c id result =
      Keeps-bind _ _
        (Once-statement _ (λ t.
          raised_keeps (confirm_reply id (outbound_id result) sent)
            (reserved-confirm_reply m id (outbound_id result) sent)))
        (λ a.
          Keeps-bind _ _ (Once-touch c true)
            (λ b. Keeps-bind _ _ Once-commit (λ d. Keeps-pure true)))

  Once-confirm_unsent : (id : ℕ) → Keeps (Once m) (confirm_unsent v id)
  unfolding confirm_unsent
  Once-confirm_unsent id =
      Keeps-bind _ _
        (Once-statement _ (λ t.
          raised_keeps (confirm_reply id none unconfirmed)
            (reserved-confirm_reply m id none unconfirmed)))
        (λ a. Keeps-bind _ _ Once-commit (λ d. Keeps-pure false))

  pub Once-after :
      (c id : ℕ) (r : Option Json)
      → Keeps
          (Once m)
          (elim r [ none ↦ confirm_unsent v id | some result ↦ confirm_sent v c id result ])
  Once-after c id none = Once-confirm_unsent id
  Once-after c id (some result) = Once-confirm_sent c id result

  pub Once-when_refused :
      {A : Type 0} (handler : M A)
      → Keeps (Once m) handler
      → (e : Fault) → Keeps (Once m) (when_refused v handler e)
  Once-when_refused handler k external_service = k
  Once-when_refused handler k redis_down = Keeps-throw redis_down
  Once-when_refused handler k killed = Keeps-throw killed

  -- The sends of a reply to another message, or to none.
  module _ (wa_id text : String) (answering : Option String)
      (apart : holds answering m ≡ false) where
    Once-call : Keeps (Once m) (send_call v wa_id text answering)
    Once-call =
        Keeps-call_send (Once-Durable m) v.outside wa_id text answering none
          (λ committed current wire taken.
            Once-of_other m committed current wire taken wa_id text answering none apart)

    Once-send_with : (sender : Sender) → Keeps (Once m) (send_with v sender wa_id text answering)
    unfolding send_with
    Once-send_with plain = Once-call
    Once-send_with buttons = Keeps-catch _ _ Once-call (Once-when_refused _ Once-call)

  pub Once-send_unprompted :
      (sender : Sender) (wa_id : String) (c : ℕ) (text : String)
      → Keeps (Once m) (send_unprompted v sender wa_id c text)
  unfolding send_unprompted
  Once-send_unprompted sender wa_id c text =
      Keeps-bind _ _ (Once-send_with wa_id text none refl sender) (λ result.
        Keeps-bind _ _
          (Once-statement _ (λ t.
            raised_keeps (create t c text (outbound_id result) sent)
              (reserved-create m t c text (outbound_id result) sent)))
          (λ a.
            Keeps-bind _ _ (Once-touch c true)
              (λ b. Keeps-bind _ _ Once-commit (λ d. Keeps-pure true))))

  pub Once-rolled_back : Keeps (Once m) (rollback v.outside >> pure false)
  Once-rolled_back =
      Keeps-bind _ _ (Keeps-rollback (Once-Durable m) v.outside) (λ a. Keeps-pure false)

  -- The reply to another message.
  module _ (sender : Sender) (wa_id text reply_to : String) (c : ℕ)
      (apart : str_eq reply_to m ≡ false) where
    Once-send_reserved_other :
        (id : ℕ) → Keeps (Once m) (send_reserved v sender wa_id c text reply_to id)
    unfolding send_reserved
    Once-send_reserved_other id = Keeps-bind _ _ (Once-touch c true) (λ a.
        Keeps-bind _ _ Once-commit (λ b.
          Keeps-bind _ _
            (Keeps-catch _ _
              (Keeps-bind _ _ (Once-send_with wa_id text (some reply_to) apart sender)
                (λ r. Keeps-pure (some r)))
              (Once-when_refused _ (Keeps-pure none)))
            (Once-after c id)))

    Once-reply_other :
        (r : Option ℕ)
        → Keeps (Once m) (elim r [
          | none ↦ rollback v.outside >> pure false
          | some id ↦ send_reserved v sender wa_id c text reply_to id
        ])
    Once-reply_other none = Once-rolled_back
    Once-reply_other (some id) = Once-send_reserved_other id

    pub Once-send_reply_other : Keeps (Once m) (send_reply v sender wa_id c text reply_to)
    unfolding send_reply
    Once-send_reply_other =
        Keeps-bind _ _ (Once-statement _ (λ t. reserved-reserve_reply m t c reply_to text))
          Once-reply_other
