-- ===== src/Store/Conversations/Opened.antt =====
-- The steps of `get_or_create_active`: what is found, what is inserted, and what a revival leaves.
use whatsapp_ai_bot.Prelude.{
  ℕ, ◌≡◌, refl, subst, sym, String, Bool, true, false, not, ◌&&◌, List, [], ◌∷◌, Option, none, some,
  ◌==◌, find, any, update_where, latest, later, ◌≢◌, All-select, select-passes, latest-All,
  latest_exists, Bool-cases, inl, inr, arith, Option-match,
}
use whatsapp_ai_bot.Store.Rows.{Db, Conversation, is_active}
use whatsapp_ai_bot.Store.Conversations.{
  get, is_open_for, active_for_user, index_holds, is_target, revived, revive, insert_active,
  update_rows, recently_closed, open_new, closing_time, closed_since,
}
use whatsapp_ai_bot.Store.Conversations.Laws.{
  WellFormed, Find, found_by_id, IdsBelow-update, select_open,
}

-- The call returns the customer's open session, which every later call finds.
pub record Opened (user : ℕ) (r : Option Conversation × Db) : Type 0 where
  pub session : Conversation
  pub returned : r.0 ≡ some session
  pub is_theirs : is_open_for user session ≡ true
  pub well_formed : WellFormed r.1
  pub found : active_for_user user r.1 ≡ some session

pub active_is_open :
    (user : ℕ) (db : Db) (c : Conversation)
    → active_for_user user db ≡ some c
    → is_open_for user c ≡ true
unfolding active_for_user
active_is_open user db c e =
    latest-All (λ x. is_open_for user x ≡ true) (λ x. x.created_at) _ c
      (select-passes (is_open_for user) db.conversations) e

pub Opened-of_found :
    (user : ℕ) (db : Db) (c : Conversation)
    → WellFormed db
    → active_for_user user db ≡ some c
    → Opened user (some c, db)
Opened-of_found user db c w e = record {
  session = c;
  returned = refl;
  is_theirs = active_is_open user db c e;
  well_formed = w;
  found = e;
}

-- A row that an id finds, and that is open, is the one that `active_for_user` returns.
pub Opened-of_get :
    (user : ℕ) (db : Db) (c : Conversation) (i : ℕ)
    → WellFormed db
    → get i db ≡ some c
    → is_open_for user c ≡ true
    → Opened user (some c, db)
unfolding get active_for_user latest later
Opened-of_get user db c i w e o = record {
  session = c;
  returned = refl;
  is_theirs = o;
  well_formed = w;
  found = rw (select_open user db.conversations c (λ x. x.id == i) w.one_active e o) refl;
}

pub insert_active-WellFormed :
    (t user : ℕ) (channel : String) (db : Db)
    → WellFormed db
    → WellFormed (insert_active t user channel db).1
unfolding insert_active index_holds
insert_active-WellFormed t user channel db w = go (any (is_open_for user) db.conversations) refl
  where
    go :
        (b : Bool)
        → any (is_open_for user) db.conversations ≡ b
        → WellFormed (insert_active t user channel db).1
    go true e = rw e w
    go false e =
        rw e (record { one_active = rw (e, w.one_active) refl; falling = (omega arith, w.falling) })

-- The insert is refused only where the customer has an open row.
pub insert_refused :
    (t user : ℕ) (channel : String) (db : Db)
    → (insert_active t user channel db).0 ≡ none
    → any (is_open_for user) (insert_active t user channel db).1.conversations ≡ true
unfolding insert_active
insert_refused t user channel db e = elim (Bool-cases (any (is_open_for user) db.conversations)) [
  | inl there ↦ rw (there, there) refl
  | inr gone ↦ absurd (cc (rw gone at e))
]

pub inserted :
    (t user : ℕ) (channel : String) (db : Db) (id : ℕ) (c : Conversation)
    → (insert_active t user channel db).0 ≡ some id
    → get id (insert_active t user channel db).1 ≡ some c
    → is_open_for user c ≡ true
unfolding insert_active get find is_open_for any
inserted t user channel db id c e g = ground arith

pub inserted_found :
    (t user : ℕ) (channel : String) (db : Db) (id : ℕ)
    → (insert_active t user channel db).0 ≡ some id
    → get id (insert_active t user channel db).1 ≢ none
unfolding insert_active get find is_open_for any
inserted_found t user channel db id e = ground arith

pub open_new_opens :
    (t user : ℕ) (channel : String) (db : Db)
    → WellFormed db
    → Opened user (open_new t user channel db)
unfolding open_new
open_new_opens t user channel db w =
    let db' = (insert_active t user channel db).1 in
    let w' = insert_active-WellFormed t user channel db w in
    Option-match (Opened user) (insert_active t user channel db).0 _ _
      (λ e.
        let there =
          latest_exists (λ x. x.created_at) (is_open_for user) db'.conversations
            (insert_refused t user channel db e) in
        subst (λ r. Opened user (r, db')) (sym there.1)
          (Opened-of_found user db' there.0 w' there.1))
      (λ id e.
        Option-match (Opened user) (get id db') _ _
          (λ g. absurd (inserted_found t user channel db id e g))
          (λ c g. Opened-of_get user db' c id w' g (inserted t user channel db id c e g)))

pub and_right : (a b : Bool) → (a && b) ≡ true → b ≡ true
and_right a b h = ground arith

pub revive-WellFormed : (t id : ℕ) (db : Db) → WellFormed db → WellFormed (revive t id db).1
unfolding revive
revive-WellFormed t id db w =
    let db' = update_rows (is_target id) (revived t) db in
    elim (Bool-cases (any (is_target id) db.conversations && index_holds db'.conversations)) [
      | inl there ↦ rw there (record {
        one_active = and_right _ _ there;
        falling =
            IdsBelow-update (is_target id) (revived t) db.next_conversation db.conversations
              (λ c. refl) w.falling;
      })
      | inr gone ↦ rw gone w
    ]

-- The candidate of a reopening is a closed row of the customer, and its id finds it.
pub recently_closed_row :
    (user since : ℕ) (db : Db) (c : Conversation)
    → WellFormed db
    → recently_closed user since db ≡ some c
    → Find db.conversations c
unfolding recently_closed
recently_closed_row user since db c w e =
    latest-All (Find db.conversations) closing_time _ c
      (All-select (Find db.conversations) _ db.conversations
        (found_by_id db.next_conversation db.conversations w.falling))
      e

pub recently_closed_user :
    (user since : ℕ) (db : Db) (c : Conversation)
    → recently_closed user since db ≡ some c
    → (c.user_id == user && not (is_active c.status) && closed_since since c.closed_at) ≡ true
unfolding recently_closed
recently_closed_user user since db c e =
    latest-All
      (λ (x : Conversation).
        (x.user_id == user && not (is_active x.status) && closed_since since x.closed_at) ≡ true)
      closing_time _ c (select-passes _ db.conversations) e

-- The row of an id after a revival.
pub find-revived :
    (t id : ℕ) (cs : List Conversation) (c d : Conversation)
    → find (λ x. x.id == id) cs ≡ some c
    → is_active c.status ≡ false
    → find (λ x. x.id == id) (update_where (is_target id) (revived t) cs) ≡ some d
    → d ≡ revived t c
unfolding find update_where
find-revived t id [] c d e off f = absurd (cc e)
find-revived t id (x ∷ cs) c d e off f = ground (arith, find-revived t id cs c d)
