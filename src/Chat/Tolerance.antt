-- ===== src/Chat/Tolerance.antt =====
-- An invariant of the service: a view that the session, the statements of the handlers and the
-- sends of admitted texts keep. Every handler then keeps it, on every path: whether it returns,
-- raises or dies.
pub mod Steps
pub mod Handlers
use whatsapp_ai_bot.Prelude.{ℕ, String, Bool, Option, none, ◌≡◌, true}
use whatsapp_ai_bot.Store.Rows.{Db}
use whatsapp_ai_bot.Store.Messages.{reserved}
use whatsapp_ai_bot.World.Effects.{statement, commit}
use whatsapp_ai_bot.World.Keeps.{View, Keeps, Durable}
use whatsapp_ai_bot.Quota.Types.{QuotaDecision}
use whatsapp_ai_bot.Chat.Service.{Service, paragraphs, message_for}
use whatsapp_ai_bot.Chat.Send.{Sender, send_once}
use whatsapp_ai_bot.Chat.Generate.{reply_body}
use whatsapp_ai_bot.Chat.Handlers.{with_prefix}

-- A statement that loses no reservation.
abbrev pub Grows : {A : Type 0} → (ℕ → Db → Option A × Db) → Type 0
Grows f = (m : String) (t : ℕ) (db : Db) → reserved m db ≡ true → reserved m (f t db).1 ≡ true

pub record Tolerant (v : Service) (P : View) (Admitted : String → Type 0) : Type 1 where
  pub durable : Durable P
  pub committing : Keeps P (commit v.outside)
  pub stating :
      {A : Type 0} (f : ℕ → Db → Option A × Db) → Grows f → Keeps P (statement v.outside f)
  pub sending :
      (sender : Sender) (wa_id : String) (c : ℕ) (text : String) (reply_to : Option String)
      → Admitted text
      → Keeps P (send_once v sender wa_id c text reply_to)

-- The texts that the handlers send.
pub record Vocabulary (v : Service) (Admitted : String → Type 0) : Type 0 where
  pub welcome : Admitted v.copy.welcome
  pub opening : Admitted (paragraphs v.copy.welcome v.copy.not_understood)
  pub refusal :
      (first : Bool)
      → Admitted (with_prefix v first (v.copy.out_of_scope_reply v.settings.company_name))
  pub handoff : Admitted v.copy.handoff_ack
  pub sales : Admitted (v.copy.sales_handoff_ack v.settings.sales_phone)
  pub quota : (d : QuotaDecision) → Admitted (message_for v.copy d v.settings.sales_phone)
  pub service :
      (first : Bool) (id : String) → Admitted (with_prefix v first (v.copy.service_ack id))
  pub unsupported : (first : Bool) → Admitted (with_prefix v first v.copy.unsupported_message)
  pub body : (first : Bool) (text : String) → Admitted (reply_body v first text)
