-- ===== src/Replies/Reviving.antt =====
-- `revive_for_operator` of app/services/reply_service.py, which both a manual reply and a change of the
-- answering side use.
use whatsapp_ai_bot.Prelude.{
  ℕ, true, List, Option, none, some, ◌==◌, ◌≡◌, refl, ap, subst, ◌∙◌, arith,
}
use whatsapp_ai_bot.Store.Rows.{Db, Conversation, Message, active, closed, is_active, Status}
use whatsapp_ai_bot.Store.Conversations
use whatsapp_ai_bot.World.{Wire, reopened}
use whatsapp_ai_bot.World.Effects.{pure, ◌>>=◌, statement}
use whatsapp_ai_bot.World.Keeps.{View}
use whatsapp_ai_bot.World.Leads.{
  Leads, Leads-bind, Leads-pure, Leads-commit, Leads-publish, Leads-statement,
}
use whatsapp_ai_bot.Chat.Send.{always, query}
use whatsapp_ai_bot.Sessions.{Sweeper, outside}
use whatsapp_ai_bot.Sessions.Closing.{is_still_open}
use whatsapp_ai_bot.Replies.{announce_reopened, revive_for_operator}
use whatsapp_ai_bot.Replies.Reopening.{find-passes, get_open, reopen_opens, messages-reopen}
use whatsapp_ai_bot.Replies.Views
use whatsapp_ai_bot.Replies.Views.{
  Quiet-back, Quiet-lost, Sent-lost, Stored-lost, Accounted-refused, still_open_rows, touch_open,
  written_one, accepted_calls,
}

module _ (j : ℕ) (m : List Message) (x : List Wire) where
  abbrev Quiet : View
  Quiet = Views.Quiet j m x

  abbrev Found : Conversation → View
  Found = Views.Found j m x

  abbrev Live : Conversation → View
  Live = Views.Live j m x

  abbrev pub Revived : Option Conversation → View
  Revived none = Quiet
  Revived (some c) = Live c

  abbrev pub Maybe : Option Conversation → View
  Maybe none = Quiet
  Maybe (some c) = Found c

  module _ (s : Sweeper) where
    pub Found-row :
        (t : ℕ) (committed current : Db) (wire : List Wire) (c : Conversation)
        → Quiet committed current wire
        → Conversations.get j current ≡ some c
        → Found c committed current wire
    unfolding Conversations.get
    Found-row t committed current wire c h e = record {
      quiet = h;
      same = equal c.id j (find-passes (λ d. d.id == j) current.conversations c e);
      opens = λ a. get_open j current c e a;
    }
      where
        equal : (a b : ℕ) → (a == b) ≡ true → a ≡ b
        equal a b h = ground arith

    reopen_Revived :
        (t i : ℕ) (committed current : Db) (wire : List Wire) (o : Option Conversation)
        → i ≡ j
        → Quiet committed current wire
        → (Conversations.reopen t i current).0 ≡ o
        → Revived o committed (Conversations.reopen t i current).1 wire
    reopen_Revived t i committed current wire none same h e = record {
      unsent = h.unsent;
      kept_messages = h.kept_messages;
      written = messages-reopen t i current ∙ h.written;
    }
    reopen_Revived t i committed current wire (some c) same h e =
        let opened = reopen_opens t i current c e in
        record {
          quiet = record {
            unsent = h.unsent;
            kept_messages = h.kept_messages;
            written = messages-reopen t i current ∙ h.written;
          };
          same = opened.0 ∙ same;
          open_session =
              subst (λ k. is_still_open k (Conversations.reopen t i current).1 ≡ true) same
                opened.1;
        }

    announced : (o : Option Conversation) → Leads (Revived o) Revived Quiet (announce_reopened s o)
    announced none = Leads-pure none Revived (λ a b w h. h)
    announced (some c) =
        Leads-bind (λ u. Live c) Revived _ _
          (Leads-commit (outside s) (λ a b w h. Quiet-back j m x a b w h.quiet) (Live c)
            (λ a b w h. record {
              quiet = record {
                unsent = h.quiet.unsent;
                kept_messages = h.quiet.written;
                written = h.quiet.written;
              };
              same = h.same;
              open_session = h.open_session;
            }))
          (λ u.
            Leads-bind (λ v. Live c) Revived _ _
              (Leads-publish (outside s) (λ a b w h. Quiet-back j m x a b w h.quiet)
                (reopened c.id "operator"))
              (λ v. Leads-pure (some c) Revived (λ a b w h. h)))

    revives_status :
        (c : Conversation) (status : Status)
        → c.status ≡ status
        → Leads (Found c) Revived Quiet (elim status [
          | active ↦ pure (some c)
          | closed ↦
              statement (outside s) (λ t db. always (Conversations.reopen t c.id db))
              >>= announce_reopened s
        ])
    revives_status c active e = Leads-pure (some c) Revived (λ a b w h. record {
      quiet = h.quiet;
      same = h.same;
      open_session = h.opens (ap is_active e);
    })
    revives_status c closed e =
        Leads-bind Revived Revived _ _
          (Leads-statement (outside s) (λ a b w h. Quiet-back j m x a b w h.quiet) Revived _
            (λ t a b w o h e. reopen_Revived t c.id a b w o h.same h.quiet (cc e)))
          announced

    pub revives : (c : Conversation) → Leads (Found c) Revived Quiet (revive_for_operator s c)
    unfolding revive_for_operator
    revives c = revives_status c c.status refl

    first_found :
        (t : ℕ) (a b : Db) (w : List Wire) (o : Option Conversation)
        → Quiet a b w
        → Conversations.get j b ≡ o
        → Maybe o a b w
    first_found t a b w none h e = h
    first_found t a b w (some c) h e = Found-row t a b w c h e

    -- The lookup that both begin with.
    pub finds : Leads Quiet Maybe Quiet (statement (outside s) (query (Conversations.get j)))
    finds =
        Leads-statement (outside s) (Quiet-back j m x) Maybe _
          (λ t a b w o h e. first_found t a b w o h (cc e))
