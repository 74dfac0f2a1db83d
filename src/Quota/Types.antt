-- ===== src/Quota/Types.antt =====
-- The decisions of app/core/quota.py, and the functions that it takes from Python's library.
use whatsapp_ai_bot.Prelude.{ℕ, String, Bool, true, false, Option, none, some}

pub data Reason : Type 0 where
  rate_limited flooding spamming blocked spend_exceeded tokens_exceeded ai_disabled : Reason

pub record QuotaDecision : Type 0 where
  pub is_allowed : Bool
  pub reason : Option Reason
  pub notify : Bool
  pub retry_after_seconds : Option ℕ

-- `ALLOWED`
abbrev pub allowed : QuotaDecision
allowed = record { is_allowed = true; reason = none; notify = false; retry_after_seconds = none }

abbrev pub refusal : Reason → Bool → Option ℕ → QuotaDecision
refusal reason notify retry_after = record {
  is_allowed = false;
  reason = some reason;
  notify = notify;
  retry_after_seconds = retry_after;
}

pub record Text : Type 0 where
  pub fingerprint : String → String
  pub stamp : ℕ → String
