-- ===== src/Webhook/Amounts.antt =====
-- The price policy (app/services/price_policy.py), over the texts that an attempt sends.
use whatsapp_ai_bot.Prelude.{
  ℕ, String, Bool, true, false, List, Option, none, some, ◌≡◌, All, if◌then◌else◌, Bool-cases, inl,
  inr,
}
use whatsapp_ai_bot.Json.{Json}
use whatsapp_ai_bot.Store.Rows.{Db}
use whatsapp_ai_bot.World.{Wire, World, M, Fault, external_service, redis_down, killed}
use whatsapp_ai_bot.World.Effects.{pure, ◌>>◌, statement, rollback, commit}
use whatsapp_ai_bot.World.Keeps.{
  Keeps, Durable, Keeps-pure, Keeps-throw, Keeps-bind, Keeps-catch, Keeps-if, Keeps-statement,
  Keeps-commit, Keeps-rollback, Keeps-call_send,
}
use whatsapp_ai_bot.Quota.Types.{QuotaDecision}
use whatsapp_ai_bot.Chat.Service.{Service, paragraphs, message_for, blocked_for_cost, for_abuse}
use whatsapp_ai_bot.Chat.Send.{
  Sender, plain, buttons, touch, send_call, send_with, confirm_sent, confirm_unsent, send_reserved,
  send_reply, send_unprompted, send_once, when_refused,
}
use whatsapp_ai_bot.Chat.Generate.{without_amount, reply_body}
use whatsapp_ai_bot.Chat.Handlers.{with_prefix}
use whatsapp_ai_bot.Chat.Tolerance.{Tolerant, Vocabulary}
use whatsapp_ai_bot.Webhook.{Delivery, attempt}
use whatsapp_ai_bot.Webhook.Tolerance.{Keeps-handle}

-- The texts without an amount, for the sales number of the settings.
abbrev pub IsClean : Service → String → Type 0
IsClean v text = v.classifiers.mentions_amount text v.settings.sales_phone ≡ false

-- Every call of a send method had a text that satisfies a predicate.
pub record Clean (Admitted : String → Type 0) (committed current : Db) (wire : List Wire)
    : Type 0 where
  pub every : All (λ (x : Wire). Admitted x.text) wire

module _ {Admitted : String → Type 0} where
  Clean-Durable : Durable (Clean Admitted)
  Clean-Durable = record { lost = λ committed current wire h. record { every = h.every } }

  module _ (v : Service) where
    Clean-statement :
        {A : Type 0} (f : ℕ → Db → Option A × Db) → Keeps (Clean Admitted) (statement v.outside f)
    Clean-statement f =
        Keeps-statement Clean-Durable v.outside f
          (λ t committed current wire h. record { every = h.every })

    Clean-commit : Keeps (Clean Admitted) (commit v.outside)
    Clean-commit =
        Keeps-commit Clean-Durable v.outside
          (λ committed current wire h. record { every = h.every })

    Clean-touch : (id : ℕ) (outgoing : Bool) → Keeps (Clean Admitted) (touch v id outgoing)
    unfolding touch
    Clean-touch id outgoing =
        Keeps-if _ _ _ (Keeps-pure tt) (Keeps-if _ _ _ (Keeps-pure tt) (Clean-statement _))

    Clean-when_refused :
        {A : Type 0} (handler : M A)
        → Keeps (Clean Admitted) handler
        → (e : Fault) → Keeps (Clean Admitted) (when_refused v handler e)
    Clean-when_refused handler k external_service = k
    Clean-when_refused handler k redis_down = Keeps-throw redis_down
    Clean-when_refused handler k killed = Keeps-throw killed

    Clean-confirmed :
        (c id : ℕ) (r : Option Json)
        → Keeps
            (Clean Admitted)
            (elim r [ none ↦ confirm_unsent v id | some result ↦ confirm_sent v c id result ])
    unfolding confirm_unsent confirm_sent
    Clean-confirmed c id none =
        Keeps-bind _ _ (Clean-statement _) (λ a. Keeps-bind _ _ Clean-commit (λ b. Keeps-pure _))
    Clean-confirmed c id (some result) = Keeps-bind _ _ (Clean-statement _) (λ a.
        Keeps-bind _ _ (Clean-touch c true) (λ b. Keeps-bind _ _ Clean-commit (λ d. Keeps-pure _)))

    module _ (wa_id text : String) (ok : Admitted text) where
      Clean-send_call :
          (reply_to : Option String) → Keeps (Clean Admitted) (send_call v wa_id text reply_to)
      Clean-send_call reply_to =
          Keeps-call_send Clean-Durable v.outside wa_id text reply_to none
            (λ committed current wire taken h. record { every = (ok, h.every) })

      Clean-send_with :
          (sender : Sender) (reply_to : Option String)
          → Keeps (Clean Admitted) (send_with v sender wa_id text reply_to)
      unfolding send_with
      Clean-send_with plain reply_to = Clean-send_call reply_to
      Clean-send_with buttons reply_to =
          Keeps-catch _ _ (Clean-send_call reply_to)
            (Clean-when_refused _ (Clean-send_call reply_to))

      Clean-replied :
          (sender : Sender) (c : ℕ) (reply_to : String) (r : Option ℕ)
          → Keeps (Clean Admitted) (elim r [
            | none ↦ rollback v.outside >> pure false
            | some id ↦ send_reserved v sender wa_id c text reply_to id
          ])
      unfolding send_reserved
      Clean-replied sender c reply_to none =
          Keeps-bind _ _ (Keeps-rollback Clean-Durable v.outside) (λ a. Keeps-pure false)
      Clean-replied sender c reply_to (some id) = Keeps-bind _ _ (Clean-touch c true) (λ a.
          Keeps-bind _ _ Clean-commit (λ b.
            Keeps-bind _ _
              (Keeps-catch _ _
                (Keeps-bind _ _ (Clean-send_with sender (some reply_to)) (λ r. Keeps-pure (some r)))
                (Clean-when_refused _ (Keeps-pure none)))
              (Clean-confirmed c id)))

      Clean-send_once :
          (sender : Sender) (c : ℕ) (reply_to : Option String)
          → Keeps (Clean Admitted) (send_once v sender wa_id c text reply_to)
      unfolding send_once send_unprompted send_reply
      Clean-send_once sender c none = Keeps-bind _ _ (Clean-send_with sender none) (λ result.
          Keeps-bind _ _ (Clean-statement _) (λ a.
            Keeps-bind _ _ (Clean-touch c true)
              (λ b. Keeps-bind _ _ Clean-commit (λ d. Keeps-pure true))))
      Clean-send_once sender c (some id) =
          Keeps-bind _ _ (Clean-statement _) (Clean-replied sender c id)

    Clean-Tolerant : Tolerant v (Clean Admitted) Admitted
    Clean-Tolerant = record {
      durable = Clean-Durable;
      committing = Clean-commit;
      stating = λ f grows. Clean-statement f;
      sending = λ sender wa_id c text reply_to ok. Clean-send_once wa_id text ok sender c reply_to;
    }

-- The fixed texts mention no amount, and the welcome in front of a text adds none.
pub record CleanCopy (v : Service) : Type 0 where
  pub welcome : IsClean v v.copy.welcome
  pub opening : IsClean v (paragraphs v.copy.welcome v.copy.not_understood)
  pub out_of_scope : IsClean v (v.copy.out_of_scope_reply v.settings.company_name)
  pub handoff : IsClean v v.copy.handoff_ack
  pub sales : IsClean v (v.copy.sales_handoff_ack v.settings.sales_phone)
  pub capacity : IsClean v (v.copy.capacity_message v.settings.sales_phone)
  pub abuse : IsClean v v.copy.abuse_message
  pub rate_limit : IsClean v v.copy.rate_limit_message
  pub service : (id : String) → IsClean v (v.copy.service_ack id)
  pub unsupported : IsClean v v.copy.unsupported_message
  pub deflection : IsClean v (v.copy.deflection v.settings.sales_phone)
  pub prefix : (text : String) → IsClean v text → IsClean v (paragraphs v.copy.welcome_prefix text)

module _ (v : Service) (k : CleanCopy v) where
  with_prefix-clean :
      (first : Bool) (text : String) → IsClean v text → IsClean v (with_prefix v first text)
  unfolding with_prefix
  with_prefix-clean true text h = k.prefix text h
  with_prefix-clean false text h = h

  without_amount-clean : (text : String) → IsClean v (without_amount v text)
  unfolding without_amount
  without_amount-clean text =
      elim (Bool-cases (v.classifiers.mentions_amount text v.settings.sales_phone)) [
        | inl mentioned ↦ rw mentioned k.deflection
        | inr not_there ↦ rw not_there not_there
      ]

  reply_body-clean : (first : Bool) (text : String) → IsClean v (reply_body v first text)
  unfolding reply_body
  reply_body-clean true text = k.prefix _ (without_amount-clean text)
  reply_body-clean false text = without_amount-clean text

  message_for-clean : (d : QuotaDecision) → IsClean v (message_for v.copy d v.settings.sales_phone)
  unfolding message_for
  message_for-clean d = go (blocked_for_cost d.reason) (for_abuse d.reason)
    where
      go :
          (cost abuse : Bool)
          → IsClean v (
              if cost
              then v.copy.capacity_message v.settings.sales_phone
              else if abuse
              then v.copy.abuse_message
              else v.copy.rate_limit_message)
      go true abuse = k.capacity
      go false true = k.abuse
      go false false = k.rate_limit

  clean_words : Vocabulary v (IsClean v)
  clean_words = record {
    welcome = k.welcome;
    opening = k.opening;
    refusal = λ first. with_prefix-clean first _ k.out_of_scope;
    handoff = k.handoff;
    sales = k.sales;
    quota = message_for-clean;
    service = λ first id. with_prefix-clean first _ (k.service id);
    unsupported = λ first. with_prefix-clean first _ k.unsupported;
    body = reply_body-clean;
  }

-- Where the fixed texts of the service mention no amount, the welcome in front of a text adds none, and
-- no text sent so far mentions one: after an attempt at a delivery no sent text mentions one, whatever
-- the model wrote and on whichever path the attempt ends.
pub attempt_sends_no_amount :
    (v : Service) (d : Delivery) (w : World)
    → CleanCopy v
    → All (λ (x : Wire). IsClean v x.text) w.wire
    → All (λ (x : Wire). IsClean v x.text) (attempt v d w).1.wire
unfolding attempt
attempt_sends_no_amount v d w k h =
    ((Keeps-handle v (Clean-Tolerant v) (clean_words v k) d).at _ (record { every = h })).every
