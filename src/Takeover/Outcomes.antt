-- ===== src/Takeover/Outcomes.antt =====
-- What `take_over` and `resume_ai` of app/services/admin_service.py leave behind.
use whatsapp_ai_bot.Prelude.{ℕ, String, Option, none, some, true, ◌≡◌, refl, ap, ◌∙◌, if◌then◌else◌}
use whatsapp_ai_bot.Store.Rows.{Mode, human, bot, is_human}
use whatsapp_ai_bot.Store.Conversations
use whatsapp_ai_bot.World.{World, Outcome, ok, raise}
use whatsapp_ai_bot.World.Leads.{Post}
use whatsapp_ai_bot.Sessions.{Sweeper}
use whatsapp_ai_bot.Sessions.Closing.{is_still_open}
use whatsapp_ai_bot.Replies.Views.{Quiet}
use whatsapp_ai_bot.Takeover.{ModeSwitch, switched_to, not_switched, take_over, resume_ai}
use whatsapp_ai_bot.Takeover.Steps.{Ends, switched_ends}

-- What holds after a change of the side that answers, for each way in which it can end.
unfoldable pub Handed : ℕ → Mode → Option String → World → Outcome ModeSwitch × World → Type 0
Handed j mode operator before (ok (switched_to c), after) =
    (after.wire ≡ before.wire)
    × (after.committed.messages ≡ before.committed.messages)
    × (is_still_open j after.committed ≡ true)
    × (Conversations.get j after.committed ≡ some c)
    × (c.mode ≡ mode)
    × (c.assigned_operator ≡ operator)
Handed j mode operator before (ok (not_switched e), after) =
    (after.wire ≡ before.wire) × (after.committed.messages ≡ before.committed.messages)
Handed j mode operator before (raise fault, after) =
    (after.wire ≡ before.wire) × (after.committed.messages ≡ before.committed.messages)

handed :
    (j : ℕ) (mode : Mode) (operator owner : Option String) (before : World)
    (r : Outcome ModeSwitch × World)
    → (if is_human mode then operator else none) ≡ owner
    → Post
        (Ends j before.committed.messages before.wire mode operator)
        (Quiet j before.committed.messages before.wire)
        r
    → Handed j mode owner before r
unfolding Handed
handed j mode operator owner before (ok (switched_to c), after) same h =
    let owned = h.0.owner c h.1 in
    (
      h.0.unsent,
      h.0.kept_messages,
      h.0.open_session,
      h.1,
      owned.same_mode,
      owned.same_operator ∙ same,
    )
handed j mode operator owner before (ok (not_switched e), after) same h =
    (h.unsent, h.kept_messages)
handed j mode operator owner before (raise fault, after) same h = (h.unsent, h.kept_messages)

-- In a new transaction, taking a conversation over and handing it back to the bot send nothing and store
-- no message, however they end. When they return a conversation, it is the durable row of the id that was
-- asked for, the session of that id is durably open, and it is answered by a human with the label that
-- was given, or by the bot with no operator.
pub take_over-Handed :
    (s : Sweeper) (j : ℕ) (operator : Option String) (w : World)
    → w.current ≡ w.committed
    → Handed j human operator w (take_over s j operator w) × Handed j bot none w (resume_ai s j w)
unfolding take_over resume_ai
take_over-Handed s j operator w fresh =
    let quiet : Quiet j w.committed.messages w.wire w.committed w.current w.wire = record {
      unsent = refl;
      kept_messages = refl;
      written = ap (λ db. db.messages) fresh;
    } in
    (
      handed j human operator operator w _ refl (
          (switched_ends j w.committed.messages w.wire human operator s "operator_took_over").at w
            quiet),
      handed j bot none none w _ refl (
          (switched_ends j w.committed.messages w.wire bot none s "operator_resumed_ai").at w
            quiet),
    )
