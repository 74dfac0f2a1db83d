-- ===== src/Examples/Operators.antt =====
-- The replies of operators at concrete inputs.
use whatsapp_ai_bot.Prelude.{◌≡◌, refl, find, some, none, [], ◌∷◌}
use whatsapp_ai_bot.Store.Rows.{Db, closed, human, bot}
use whatsapp_ai_bot.Store.Messages.{claim_inbound}
use whatsapp_ai_bot.World.{World}
use whatsapp_ai_bot.Replies.{send_manual_reply}
use whatsapp_ai_bot.Replies.Outcomes.{Told, reply-Told}
use whatsapp_ai_bot.Takeover.{switched_to, take_over, resume_ai}
use whatsapp_ai_bot.Takeover.Returns.{take_over_returns}
use whatsapp_ai_bot.World.{ok}
use whatsapp_ai_bot.Store.Rows.{Conversation}
use whatsapp_ai_bot.Store.Conversations
use whatsapp_ai_bot.Takeover.Outcomes.{Handed, take_over-Handed}
use whatsapp_ai_bot.Examples.{killed_at, start, with_operator, operator_answers}
use whatsapp_ai_bot.Examples.Sweeps.{sweeper, refusing}

-- Sara has written, and the session with the operator was closed since.
abbrev written : Db
written =
    (claim_inbound 950 1 "wamid.1" "text" (some "Hello") none (record operator_answers.committed {
      conversations = record with_operator { status = closed; closed_at = some 980 } ∷ [];
    })).1

abbrev answering : World
answering = record start { committed = written; current = written }

reply-Told_example :
    Told 1 answering (send_manual_reply (sweeper (killed_at 99)) 1 "Here is the offer." answering)
reply-Told_example = reply-Told (sweeper (killed_at 99)) 1 "Here is the offer." answering refl

take_over-Handed_example :
    Handed 1 human
      (some "Mona")
      answering
      (take_over (sweeper (killed_at 99)) 1 (some "Mona") answering)
    × Handed 1 bot none answering (resume_ai (sweeper (killed_at 99)) 1 answering)
take_over-Handed_example = take_over-Handed (sweeper (killed_at 99)) 1 (some "Mona") answering refl

-- An operator answers Sara, in a new transaction.
abbrev answered : World
answered = record operator_answers { current = operator_answers.committed }

take_over_returns_example :
    ((r : Conversation) × ((take_over (sweeper refusing) 1 (some "Mona") answered).0
        ≡ ok (switched_to r))
      × (r.mode ≡ human))
    × ((r : Conversation) × ((resume_ai (sweeper refusing) 1 answered).0 ≡ ok (switched_to r))
        × (r.mode ≡ bot))
unfolding Conversations.get find
take_over_returns_example =
    take_over_returns (sweeper refusing) 1 (some "Mona") with_operator answered (λ t. refl) refl
      refl refl
