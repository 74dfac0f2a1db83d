-- ===== src/Webhook/Once.antt =====
-- The answers to one inbound message, over sequences of attempts.
use whatsapp_ai_bot.Prelude.{◌≤◌, String, false, List, [], ◌∷◌, ◌≡◌, arith}
use whatsapp_ai_bot.Store.Messages.{reserved}
use whatsapp_ai_bot.World.{World}
use whatsapp_ai_bot.World.Keeps.{At}
use whatsapp_ai_bot.Chat.Service.{Service}
use whatsapp_ai_bot.Chat.Tolerance.{Tolerant, Vocabulary}
use whatsapp_ai_bot.Chat.Reservation.Views.{
  Once, Once-Durable, answers, accepted_answers, accepted-answers,
}
use whatsapp_ai_bot.Chat.Reservation.Replies.{Once-statement, Once-commit}
use whatsapp_ai_bot.Chat.Reservation.Own.{Once-send_once}
use whatsapp_ai_bot.Webhook.{Delivery, attempt, attempts}
use whatsapp_ai_bot.Webhook.Tolerance.{Keeps-handle}

abbrev pub AnyText : String → Type 0
AnyText text = Unit

module _ (m : String) where
  pub Once-Tolerant : (v : Service) → Tolerant v (Once m) AnyText
  Once-Tolerant v = record {
    durable = Once-Durable m;
    committing = Once-commit m v;
    stating = λ f grows. Once-statement m v f (grows m);
    sending = λ sender wa_id c text reply_to ok. Once-send_once m v sender wa_id c text reply_to;
  }

  pub every_text : (v : Service) → Vocabulary v AnyText
  every_text v = record {
    welcome = tt;
    opening = tt;
    refusal = λ first. tt;
    handoff = tt;
    sales = tt;
    quota = λ d. tt;
    service = λ first id. tt;
    unsupported = λ first. tt;
    body = λ first text. tt;
  }

  Once-attempt :
      (v : Service) (d : Delivery) (w : World) → At (Once m) w → At (Once m) (attempt v d w).1
  unfolding attempt
  Once-attempt v d w h =
      (Keeps-handle v (Once-Tolerant v) (every_text v) d).at _
        ((Once-Durable m).lost w.committed w.current w.wire h)

  Once-attempts :
      (tasks : List (Service × Delivery)) (w : World)
      → At (Once m) w
      → At (Once m) (attempts tasks w)
  unfolding attempts
  Once-attempts [] w h = h
  Once-attempts ((v, d) ∷ tasks) w h = Once-attempts tasks (attempt v d w).1 (Once-attempt v d w h)

-- From a database without a reservation for the inbound message `m`, and with no call made to answer
-- it: after any sequence of attempts, each with its own settings, clock, failures and moment of
-- death, at most one call to answer `m` was accepted, and at most two were made.
pub attempts_answer_once :
    (tasks : List (Service × Delivery)) (w : World) (m : String)
    → reserved m w.committed ≡ false
    → answers m w.wire ≡ 0
    → (accepted_answers m (attempts tasks w).wire ≤ 1) × (answers m (attempts tasks w).wire ≤ 2)
attempts_answer_once tasks w m unreserved silent =
    let start : At (Once m) w = record {
      stays = λ e. absurd (cc (e, unreserved));
      few = omega (arith, silent);
      one = omega (arith, silent, accepted-answers m w.wire);
      unanswered = λ e. silent;
    } in
    let kept = Once-attempts m tasks w start in (kept.one, kept.few)
