-- ===== src/Replies/Outcomes.antt =====
-- What an operator's reply leaves behind, on every path of `send_manual_reply` of
-- app/services/reply_service.py.
use whatsapp_ai_bot.Prelude.{ℕ, suc, ◌+◌, ◌≤◌, String, true, ◌≡◌, refl, ap, length}
use whatsapp_ai_bot.World.{World, Outcome, ok, raise}
use whatsapp_ai_bot.World.Leads.{Post}
use whatsapp_ai_bot.Sessions.{Sweeper}
use whatsapp_ai_bot.Sessions.Closing.{is_still_open}
use whatsapp_ai_bot.Replies.{Reply, replied, declined, send_manual_reply}
use whatsapp_ai_bot.Replies.Views.{After, Accounted, accepted_calls}
use whatsapp_ai_bot.Replies.Steps.{replies}

-- What holds after a reply to a conversation, for each way in which it can end.
pub Told : ℕ → World → Outcome Reply × World → Type 0
Told j before (ok replied, after) =
    (accepted_calls after.wire ≡ suc (accepted_calls before.wire))
    × (length after.committed.messages ≡ suc (length before.committed.messages))
    × (is_still_open j after.committed ≡ true)
Told j before (ok (declined e), after) =
    (after.wire ≡ before.wire) × (after.committed.messages ≡ before.committed.messages)
Told j before (raise fault, after) =
    length after.committed.messages + accepted_calls before.wire
    ≤ length before.committed.messages + accepted_calls after.wire

told :
    (j : ℕ) (before : World) (r : Outcome Reply × World)
    → Post
        (After j before.committed.messages before.wire)
        (Accounted j before.committed.messages before.wire)
        r
    → Told j before r
unfolding Told
told j before (ok replied, after) h = (h.one, h.kept_messages, h.open_session)
told j before (ok (declined e), after) h = (h.unsent, h.kept_messages)
told j before (raise fault, after) h = h.kept_messages

-- In a new transaction, an operator's reply ends in one of three ways. It is sent: one call was accepted,
-- one message was stored, and the conversation is durably open. It is declined: nothing was sent, and
-- no message was stored. Or it raises: no more messages were stored than calls were accepted.
pub reply-Told :
    (s : Sweeper) (j : ℕ) (text : String) (w : World)
    → w.current ≡ w.committed
    → Told j w (send_manual_reply s j text w)
reply-Told s j text w fresh = told j w _ (
    (replies j w.committed.messages w.wire s text).at w
      (record { unsent = refl; kept_messages = refl; written = ap (λ db. db.messages) fresh }))
