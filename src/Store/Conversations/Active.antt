-- ===== src/Store/Conversations/Active.antt =====
-- `get_or_create_active` and the other statements of app/repositories/conversation.py on
-- well-formed rows.
use whatsapp_ai_bot.Prelude.{
  ℕ, zero, suc, ◌-◌, ◌≡◌, refl, ◌∙◌, ap, subst, String, Bool, true, false, not, ◌&&◌, Option, none,
  some, ◌==◌, find, any, Bool-cases, inl, inr, arith, Option-match,
}
use whatsapp_ai_bot.Store.Rows.{Db, Conversation, is_active}
use whatsapp_ai_bot.Store.Conversations.{
  get, is_open_for, active_for_user, index_holds, is_target, revived, revive, update_rows,
  recently_closed, reopen_recent, open_new, get_or_create_active, closed_since,
}
use whatsapp_ai_bot.Store.Conversations.Laws.{WellFormed, IdsBelow-update, index_holds-update}
use whatsapp_ai_bot.Store.Conversations.Opened.{
  Opened, Opened-of_found, Opened-of_get, open_new_opens, revive-WellFormed, recently_closed_row,
  recently_closed_user, find-revived,
}

revived_open :
    (t user since : ℕ) (c : Conversation)
    → (c.user_id == user && not (is_active c.status) && closed_since since c.closed_at) ≡ true
    → (is_open_for user (revived t c) ≡ true) × (is_active c.status ≡ false)
unfolding is_open_for
revived_open t user since c h = ground arith

-- A revival that succeeded has made its update.
revive_done :
    (t id i : ℕ) (db : Db)
    → (revive t id db).0 ≡ some i
    → (i ≡ id) × ((revive t id db).1 ≡ update_rows (is_target id) (revived t) db)
unfolding revive
revive_done t id i db e =
    elim (Bool-cases (
      any (is_target id) db.conversations
      && index_holds (update_rows (is_target id) (revived t) db).conversations)) [
        | inl there ↦ rw there (cc (rw there at e), refl)
        | inr gone ↦ absurd (cc (rw gone at e))
      ]

-- What a reopening returns is the customer's open session.
reopened_open :
    (t user since i : ℕ) (db : Db) (c d : Conversation)
    → WellFormed db
    → recently_closed user since db ≡ some c
    → (revive t c.id db).0 ≡ some i
    → get i (revive t c.id db).1 ≡ some d
    → is_open_for user d ≡ true
unfolding get
reopened_open t user since i db c d w e r g =
    let done = revive_done t c.id i db r in
    let open_now = revived_open t user since c (recently_closed_user user since db c e) in
    let is_row =
      find-revived t c.id db.conversations c d (recently_closed_row user since db c w e) open_now.1
        (subst
          (λ j.
            find (λ x. x.id == j) (update_rows (is_target c.id) (revived t) db).conversations
            ≡ some d)
          done.0
          (subst (λ (after : Db). find (λ x. x.id == i) after.conversations ≡ some d) done.1 g)) in
    ap (is_open_for user) is_row ∙ open_now.0

abbrev Resumed : ℕ → Option Conversation × Db → Type 0
Resumed user (none, db) = WellFormed db
Resumed user (some c, db) = Opened user (some c, db)

reopen_recent_resumes :
    (t user since : ℕ) (db : Db) → WellFormed db → Resumed user (reopen_recent t user since db)
unfolding reopen_recent
reopen_recent_resumes t user since db w =
    Option-match (Resumed user) (recently_closed user since db) _ _ (λ e. w)
      (λ c e.
        let w' = revive-WellFormed t c.id db w in
        Option-match (Resumed user) (revive t c.id db).0 _ _ (λ r. w')
          (λ i r. go i c e r (get i (revive t c.id db).1) refl))
  where
    go :
        (i : ℕ) (c : Conversation)
        → recently_closed user since db ≡ some c
        → (revive t c.id db).0 ≡ some i
        → (x : Option Conversation) → get i (revive t c.id db).1 ≡ x
        → Resumed user (x, (revive t c.id db).1)
    go i c e r none g = revive-WellFormed t c.id db w
    go i c e r (some d) g =
        Opened-of_get user _ d i (revive-WellFormed t c.id db w) g
          (reopened_open t user since i db c d w e r g)

after_reopening :
    (t user : ℕ) (channel : String) (r : Option Conversation × Db)
    → Resumed user r
    → Opened user (elim r.0 [ some c ↦ (some c, r.1) | none ↦ open_new t user channel r.1 ])
after_reopening t user channel (none, db) w = open_new_opens t user channel db w
after_reopening t user channel (some c, db) o = o

get_or_create_active-Opened :
    (t user : ℕ) (within : Option ℕ) (channel : String) (db : Db)
    → WellFormed db
    → Opened user (get_or_create_active t user within channel db)
unfolding get_or_create_active
get_or_create_active-Opened t user none channel db w =
    Option-match (Opened user) (active_for_user user db) _ _
      (λ e. open_new_opens t user channel db w) (λ c e. Opened-of_found user db c w e)
get_or_create_active-Opened t user (some zero) channel db w =
    Option-match (Opened user) (active_for_user user db) _ _
      (λ e. open_new_opens t user channel db w) (λ c e. Opened-of_found user db c w e)
get_or_create_active-Opened t user (some (suc n)) channel db w =
    Option-match (Opened user) (active_for_user user db) _ _
      (λ e.
        after_reopening t user channel (reopen_recent t user (t - suc n) db)
          (reopen_recent_resumes t user (t - suc n) db w))
      (λ c e. Opened-of_found user db c w e)

found_again :
    (t user : ℕ) (within : Option ℕ) (channel : String) (db : Db) (c : Conversation)
    → active_for_user user db ≡ some c
    → get_or_create_active t user within channel db ≡ (some c, db)
unfolding get_or_create_active
found_again t user none channel db c e = rw (get_or_create_active, e) refl
found_again t user (some zero) channel db c e = rw (get_or_create_active, e) refl
found_again t user (some (suc n)) channel db c e = rw (get_or_create_active, e) refl

-- On well-formed rows, whether it finds, reopens or inserts: `get_or_create_active` returns an
-- active session of the customer (the `ConflictError` cannot arise), leaves the rows well formed, and a
-- second call, at any moment, window and channel, returns the same session and changes nothing.
pub get_or_create_active_opens :
    (t user : ℕ) (within : Option ℕ) (channel : String) (db : Db) (later_t : ℕ)
    (later_within : Option ℕ) (later_channel : String)
    → WellFormed db
    → (c : Conversation) × ((get_or_create_active t user within channel db).0 ≡ some c)
      × (is_open_for user c ≡ true)
      × WellFormed (get_or_create_active t user within channel db).1
      × (get_or_create_active later_t user later_within later_channel
            (get_or_create_active t user within channel db).1
          ≡ (some c, (get_or_create_active t user within channel db).1))
get_or_create_active_opens t user within channel db later_t later_within later_channel w =
    let o = get_or_create_active-Opened t user within channel db w in
    (
      o.session,
      o.returned,
      o.is_theirs,
      o.well_formed,
      found_again later_t user later_within later_channel _ o.session o.found,
    )

-- An update that keeps the ids and the customers, and opens nothing, keeps the rows well formed.
pub updated-WellFormed :
    (p : Conversation → Bool) (f : Conversation → Conversation) (db : Db)
    → ((c : Conversation) → (f c).id ≡ c.id)
    → ((c : Conversation) → (f c).user_id ≡ c.user_id)
    → ((c : Conversation) → is_active c.status ≡ false → is_active (f c).status ≡ false)
    → WellFormed db
    → WellFormed (update_rows p f db)
updated-WellFormed p f db i u a w = record {
  one_active = index_holds-update p f db.conversations u a w.one_active;
  falling = IdsBelow-update p f db.next_conversation db.conversations i w.falling;
}
