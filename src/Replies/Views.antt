-- ===== src/Replies/Views.antt =====
-- What holds between the steps of `send_manual_reply` of app/services/reply_service.py.
use whatsapp_ai_bot.Prelude.{
  ℕ, suc, ◌+◌, ◌≤◌, String, Bool, true, false, ◌&&◌, List, ◌∷◌, Option, none, some, ◌==◌, ◌≡◌, refl,
  ap, ◌∙◌, arith, if◌then◌else◌, select, any, any-update_where, length,
}
use whatsapp_ai_bot.Store.Rows.{Db, Conversation, Message, is_active}
use whatsapp_ai_bot.Store.Messages
use whatsapp_ai_bot.Store.Messages.{insert_message, taken}
use whatsapp_ai_bot.Store.Conversations
use whatsapp_ai_bot.World.{Wire}
use whatsapp_ai_bot.World.Effects.{wire_of}
use whatsapp_ai_bot.World.Keeps.{View}
use whatsapp_ai_bot.Chat.Send.{or_raise}
use whatsapp_ai_bot.Sessions.Closing.{is_still_open}
use whatsapp_ai_bot.Replies.{Reply, replied, declined}

-- The calls that an API accepted.
unfoldable pub accepted_calls : List Wire → ℕ
accepted_calls wire = length (select (λ x. x.accepted) wire)

written_if :
    (b : Bool) (msg : Message) (db : Db) (u : Unit {0})
    → (or_raise (if b then none else some (insert_message msg db)) db).0 ≡ some u
    → length (or_raise (if b then none else some (insert_message msg db)) db).1.messages
      ≡ suc (length db.messages)
unfolding insert_message
written_if true msg db u e = absurd (cc e)
written_if false msg db u e = refl

-- The statement that records the reply writes one message, or raises.
pub written_one :
    (t c : ℕ) (text : String) (id : Option String) (status : String) (db : Db) {u : Unit {0}}
    → (or_raise (Messages.create t c text id status db) db).0 ≡ some u
    → length (or_raise (Messages.create t c text id status db) db).1.messages
      ≡ suc (length db.messages)
unfolding Messages.create
written_one t c text id status db {u = u} e = written_if (taken id db.next_message db) _ db u e

module _ (j : ℕ) (m : List Message) (x : List Wire) where
  -- Nothing was written to the transcript and nothing was sent.
  pub record Quiet (committed current : Db) (wire : List Wire) : Type 0 where
    pub unsent : wire ≡ x
    pub kept_messages : committed.messages ≡ m
    pub written : current.messages ≡ m

  -- No more messages were stored than calls accepted.
  pub record Accounted (committed current : Db) (wire : List Wire) : Type 0 where
    pub kept_messages :
        length committed.messages + accepted_calls x ≤ length m + accepted_calls wire

  -- One call was accepted, and `n` messages are written, in an open session.
  pub record Sent (n : ℕ) (committed current : Db) (wire : List Wire) : Type 0 where
    pub one : accepted_calls wire ≡ suc (accepted_calls x)
    pub kept_messages : committed.messages ≡ m
    pub written : length current.messages ≡ n + length m
    pub open_session : is_still_open j current ≡ true

  pub record Stored (committed current : Db) (wire : List Wire) : Type 0 where
    pub one : accepted_calls wire ≡ suc (accepted_calls x)
    pub kept_messages : length committed.messages ≡ suc (length m)
    pub open_session : is_still_open j committed ≡ true

  pub record Found (c : Conversation) (committed current : Db) (wire : List Wire) : Type 0 where
    pub quiet : Quiet committed current wire
    pub same : c.id ≡ j
    pub opens : is_active c.status ≡ true → is_still_open j current ≡ true

  -- The session is open, and nothing was sent.
  pub record Live (c : Conversation) (committed current : Db) (wire : List Wire) : Type 0 where
    pub quiet : Quiet committed current wire
    pub same : c.id ≡ j
    pub open_session : is_still_open j current ≡ true

  abbrev pub After : Reply → View
  After replied = Stored
  After (declined e) = Quiet

  pub Quiet-Accounted :
      (committed current : Db) (wire : List Wire)
      → Quiet committed current wire
      → Accounted committed current wire
  Quiet-Accounted committed current wire h = record {
    kept_messages =
        omega (arith, ap (λ ms. length ms) h.kept_messages, ap (λ y. accepted_calls y) h.unsent);
  }

  pub Quiet-back :
      (committed current : Db) (wire : List Wire)
      → Quiet committed current wire
      → Quiet committed committed wire
  Quiet-back committed current wire h = record {
    unsent = h.unsent;
    kept_messages = h.kept_messages;
    written = h.kept_messages;
  }

  pub Quiet-lost :
      (committed current : Db) (wire : List Wire)
      → Quiet committed current wire
      → Accounted committed committed wire
  Quiet-lost committed current wire h = record {
    kept_messages = (Quiet-Accounted committed current wire h).kept_messages;
  }

  pub Sent-lost :
      (n : ℕ) (committed current : Db) (wire : List Wire)
      → Sent n committed current wire
      → Accounted committed committed wire
  Sent-lost n committed current wire h = record {
    kept_messages = omega (arith, ap (λ ms. length ms) h.kept_messages, h.one);
  }

  pub Stored-lost :
      (committed current : Db) (wire : List Wire)
      → Stored committed current wire
      → Accounted committed committed wire
  Stored-lost committed current wire h = record {
    kept_messages = omega (arith, h.kept_messages, h.one);
  }

  pub Accounted-refused :
      (committed current : Db) (wire : List Wire) (recipient : String) {text : String}
      → Quiet committed current wire
      → Accounted committed current (wire_of false recipient text none none ∷ wire)
  unfolding accepted_calls select
  Accounted-refused committed current wire recipient h = record {
    kept_messages = (Quiet-Accounted committed current wire h).kept_messages;
  }

  pub still_open_rows :
      (db after : Db)
      → after.conversations ≡ db.conversations
      → is_still_open j db ≡ true
      → is_still_open j after ≡ true
  unfolding is_still_open
  still_open_rows db after e h = ap (λ cs. any (λ c. c.id == j && is_active c.status) cs) e ∙ h

  pub touch_open :
      (t i : ℕ) (db : Db)
      → is_still_open j db ≡ true
      → is_still_open j (Conversations.touch t i db) ≡ true
  unfolding is_still_open Conversations.touch
  touch_open t i db h = any-update_where _ _ _ db.conversations (λ c. refl) ∙ h
