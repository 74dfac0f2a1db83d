-- ===== src/Sessions/Closing.antt =====
-- A sweep in which nothing dies, for app/services/session_service.py: which sessions it leaves open,
-- and the rows that say so.
pub mod Steps
pub mod Live
use whatsapp_ai_bot.Prelude.{
  ℕ, ◌+◌, ◌≤◌, String, Bool, true, false, not, ◌&&◌, ◌||◌, List, [], ◌∷◌, Option, none, some, ◌==◌,
  ◌≡◌, refl, ap, sym, subst, ◌⊎◌, inl, inr, arith, if◌then◌else◌, select, any, length, find,
  update_where, any-update_where, ◌∙◌, All, Bool-cases, str_eq, map,
}
use whatsapp_ai_bot.Json.{Json}
use whatsapp_ai_bot.Store.Rows.{Db, Conversation, Message, User, active, closed, is_active}
use whatsapp_ai_bot.Settings.{conversation_idle_timeout}
use whatsapp_ai_bot.Store.Messages
use whatsapp_ai_bot.Store.Conversations
use whatsapp_ai_bot.Store.Users.{IdleSession, idle_targets, target_of}
use whatsapp_ai_bot.World.{M, World, Wire, Outside, SendResult, accepted, refused, Outcome, ok}
use whatsapp_ai_bot.World.Effects.{
  pure, catch, ◌>>=◌, ◌>>◌, now, statement, commit, publish, call_send, continue, on_fault,
  outcome_of, deliver, wire_of,
}
use whatsapp_ai_bot.World.Keeps.{View, At}
use whatsapp_ai_bot.World.Runs.{
  Runs, Returned, Runs-pure, Runs-bind, Runs-if, Runs-now, Runs-commit, Runs-publish,
  Runs-statement,
}
use whatsapp_ai_bot.Channels.Outbound.{Resolved, adapter, unavailable, outbound_adapter}
use whatsapp_ai_bot.Chat.Service.{text_or}
use whatsapp_ai_bot.Chat.Send.{outbound_id, change, or_raise, query, always, when_refused}
use whatsapp_ai_bot.Sessions.{
  Sweeper, outside, within_window, should_send_closing, record_closing, send_closing, send_through,
  closing_text, announce_row, refresh_row, announce_closed, finish_session, finish_sessions,
  finish_claimed, close_idle_sessions, idle_bound, sweep_batch_size, sweep,
}

-- A row with this id is active.
unfoldable pub is_still_open : ℕ → Db → Bool
is_still_open i db = any (λ c. c.id == i && is_active c.status) db.conversations

-- The session is among those that are still to be finished.
unfoldable pub awaits : ℕ → List IdleSession → Bool
awaits i targets = any (λ t. t.conversation_id == i) targets

-- A send is refused, or it is accepted with a response that gives no id.
abbrev is_there : Option User → Bool
is_there none = false
is_there (some u) = true

abbrev pub Plain : SendResult → Type 0
Plain r = (r ≡ refused) ⊎ ((j : Json) × (r ≡ accepted j) × (outbound_id j ≡ none))

-- A row with this id, and its customer's.
unfoldable pub has_customer : ℕ → Db → Bool
has_customer i db = any (λ c. c.id == i && any (λ u. u.id == c.user_id) db.users) db.conversations

same_ids :
    (i j : ℕ) (ids : List ℕ) → (j == i) ≡ true → any (λ id. id == i) ids ≡ any (λ id. j == id) ids
unfolding any
same_ids i j [] e = refl
same_ids i j (id ∷ ids) e = ground (arith, e, same_ids i j ids e)

-- Every claimed session has a target, when its customer's row is there.
module _ (i : ℕ) (ids : List ℕ) (db : Db) where
  awaits-target_of :
      (c : Conversation) (o : Option User) (rest : List IdleSession)
      → awaits i (target_of c o rest) ≡ ((is_there o && (c.id == i)) || awaits i rest)
  unfolding awaits any
  awaits-target_of c none rest = refl
  awaits-target_of c (some u) rest = refl

  found_customer :
      (c : Conversation) (us : List User)
      → is_there (find (λ u. u.id == c.user_id) us) ≡ any (λ u. u.id == c.user_id) us
  unfolding find any
  found_customer c [] = refl
  found_customer c (u ∷ us) = ground (arith, found_customer c us)

  awaits_rows :
      (cs : List Conversation)
      → any (λ j. j == i) ids ≡ true
      → any (λ c. c.id == i && any (λ u. u.id == c.user_id) db.users) cs ≡ true
      → awaits i (idle_targets ids db cs) ≡ true
  unfolding idle_targets any
  awaits_rows [] e h = absurd (cc h)
  awaits_rows (c ∷ cs) e h = ground (
    arith,
    e,
    h,
    same_ids i c.id ids,
    found_customer c db.users,
    awaits-target_of c (find (λ u. u.id == c.user_id) db.users) (idle_targets ids db cs),
    awaits_rows cs e,
  )

pub awaits-idle_targets :
    (i : ℕ) (ids : List ℕ) (db : Db)
    → any (λ j. j == i) ids ≡ true
    → has_customer i db ≡ true
    → awaits i (idle_targets ids db db.conversations) ≡ true
unfolding has_customer
awaits-idle_targets i ids db e h = awaits_rows i ids db db.conversations e h

pub has_customer-claim :
    (i t idle_before limit : ℕ) (db : Db)
    → has_customer i db ≡ true
    → has_customer i (Conversations.claim_idle_sessions t idle_before limit db).1 ≡ true
unfolding has_customer Conversations.claim_idle_sessions
has_customer-claim i t idle_before limit db h =
    any-update_where _ _ _ db.conversations (λ c. refl) ∙ h

module _ (i : ℕ) where
  -- Unless it still awaits its turn, the session is closed, durably or in the open transaction.
  pub record Done (awaited : Bool) (committed current : Db) (wire : List Wire) : Type 0 where
    pub durable : awaited ≡ false → is_still_open i committed ≡ false
    pub here : awaited ≡ false → is_still_open i current ≡ false

  pub record Shut (awaited : Bool) (committed current : Db) (wire : List Wire) : Type 0 where
    pub here : awaited ≡ false → is_still_open i current ≡ false

  module _ (t j : ℕ) where
    abbrev shut : Conversation → Conversation
    shut c = record c { status = closed; closed_at = some t }

    abbrev open_row : Conversation → Bool
    open_row c = c.id == i && is_active c.status

    all_shut :
        (cs : List Conversation)
        → (j == i) ≡ true
        → any open_row (update_where (λ c. c.id == j) shut cs) ≡ false
    unfolding any update_where
    all_shut [] own = refl
    all_shut (c ∷ cs) own = ground (arith, own, all_shut cs own)

    stays_shut :
        (cs : List Conversation)
        → any open_row cs ≡ false
        → any open_row (update_where (λ c. c.id == j) shut cs) ≡ false
    unfolding any update_where
    stays_shut [] h = refl
    stays_shut (c ∷ cs) h = ground (arith, h, stays_shut cs)

    pub close_shuts :
        (b : Bool) (db : Db)
        → ((j == i) ≡ false → b ≡ false → is_still_open i db ≡ false)
        → b ≡ false
        → is_still_open i (Conversations.close t j db) ≡ false
    unfolding is_still_open Conversations.close
    close_shuts b db h e = elim (Bool-cases (j == i)) [
      | inl own ↦ all_shut db.conversations own
      | inr other ↦ stays_shut db.conversations (h other e)
    ]
