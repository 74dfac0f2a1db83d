-- ===== src/Chat/Service.antt =====
-- What `ChatService` is constructed with, and what it takes from other modules as given: the
-- texts of app/services/persona.py and menu.py, and the classifiers of price_policy.py, handoff.py,
-- greeting.py, persona.py and intent.py, which run Python's regular expressions.
use Prim.Native.String.{◌++◌ as append_text}
use whatsapp_ai_bot.Prelude.{
  ℕ, String, Bool, true, false, Option, none, some, if◌then◌else◌, str_eq,
}
use whatsapp_ai_bot.Settings.{Settings}
use whatsapp_ai_bot.World.{Outside}
use whatsapp_ai_bot.Quota.Types.{Text, QuotaDecision, Reason}

-- `COMPANY`, `DOMAIN` and `OUT` of app/services/intent.py
pub data Scope : Type 0 where
  company domain out_of_scope : Scope

pub record Classifiers : Type 0 where
  pub is_negotiating : Option String → Bool
  pub wants_human : Option String → Bool
  pub is_sales_lead : Option String → Bool
  pub is_courtesy_only : String → Bool
  pub is_unintelligible : String → Bool
  pub is_greeting_only : String → Bool
  pub classify : String → Scope
  pub mentions_amount : String → String → Bool

pub record Copy : Type 0 where
  pub welcome : String
  pub welcome_prefix : String
  pub not_understood : String
  pub unsupported_message : String
  pub service_busy : String
  pub handoff_ack : String
  pub rate_limit_message : String
  pub abuse_message : String
  pub closing : String
  pub capacity_message : String → String
  pub sales_handoff_ack : String → String
  pub deflection : String → String
  pub out_of_scope_reply : String → String
  pub service_ack : String → String
  pub label : String → String
  pub media_note : String → Option String → String

pub record Service : Type 0 where
  pub outside : Outside
  pub settings : Settings
  pub text : Text
  pub copy : Copy
  pub classifiers : Classifiers
  pub channel : String
  pub count_tokens : String → ℕ

-- f"{first}\n\n{second}"
abbrev pub paragraphs : String → String → String
paragraphs first second = append_text first (append_text "\n\n" second)

-- f"[{type} received]"
abbrev pub received : String → String
received type = append_text "[" (append_text type " received]")

-- `text or other`, for a nullable text: the empty text is false.
abbrev pub text_or : Option String → String → String
text_or none other = other
text_or (some t) other = if str_eq t "" then other else t

abbrev pub blocked_for_cost : Option Reason → Bool
blocked_for_cost (some Reason.spend_exceeded) = true
blocked_for_cost (some Reason.tokens_exceeded) = true
blocked_for_cost (some Reason.ai_disabled) = true
blocked_for_cost _ = false

abbrev pub for_abuse : Option Reason → Bool
for_abuse (some Reason.flooding) = true
for_abuse (some Reason.spamming) = true
for_abuse (some Reason.blocked) = true
for_abuse _ = false

-- `message_for` of app/core/quota.py
unfoldable pub message_for : Copy → QuotaDecision → String → String
message_for copy d sales_phone =
    if blocked_for_cost d.reason
    then copy.capacity_message sales_phone
    else if for_abuse d.reason
    then copy.abuse_message
    else copy.rate_limit_message
