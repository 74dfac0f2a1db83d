-- ===== src/Store/Conversations/Consistent.antt =====
-- The columns of a session that app/repositories/conversation.py keeps in step: its end, its handoff and
-- its operator. No constraint of the database speaks of them.
use whatsapp_ai_bot.Prelude.{
  ℕ, zero, suc, ◌-◌, ◌≡◌, refl, String, Bool, true, false, not, List, [], ◌∷◌, Option, none, some,
  any, update_where, All, All-select, Option-elim, if◌then◌else◌, Bool-cases, inl, inr,
}
use whatsapp_ai_bot.Store.Rows.{Db, Conversation, Mode, bot, human, is_active, is_human}
use whatsapp_ai_bot.Store.Conversations.{
  get, is_null, is_open_for, active_for_user, is_target, revived, revive, recently_closed,
  reopen_recent, reopen, insert_active, open_new, get_or_create_active, set_mode, switched, touch,
  mark_welcome_sent, close, claim_idle_sessions, delete,
}

-- A session has an end exactly when it is closed, the time of its handoff exactly when a human answers
-- it, and no operator when the bot answers it.
pub record Consistent (c : Conversation) : Type 0 where
  pub ended : is_active c.status ≡ is_null c.closed_at
  pub handed : is_human c.mode ≡ not (is_null c.handoff_at)
  pub unowned : is_human c.mode ≡ false → c.assigned_operator ≡ none

abbrev pub Rows : Db → Type 0
Rows db = All Consistent db.conversations

Consistent-update :
    (p : Conversation → Bool) (f : Conversation → Conversation) (cs : List Conversation)
    → ((c : Conversation) → Consistent c → Consistent (f c))
    → All Consistent cs
    → All Consistent (update_where p f cs)
unfolding update_where
Consistent-update p f [] k h = tt
Consistent-update p f (c ∷ cs) k h = elim (Bool-cases (p c)) [
  | inl e ↦ rw e (k c h.0, Consistent-update p f cs k h.1)
  | inr e ↦ rw e (h.0, Consistent-update p f cs k h.1)
]

Consistent-revived : (t : ℕ) (c : Conversation) → Consistent c → Consistent (revived t c)
Consistent-revived t c h = record { ended = refl; handed = h.handed; unowned = h.unowned }

Consistent-switched :
    (t : ℕ) (mode : Mode) (operator tag : Option String) (c : Conversation)
    → Consistent c
    → Consistent (switched t mode operator tag c)
unfolding switched
Consistent-switched t bot operator tag c h = record {
  ended = h.ended;
  handed = refl;
  unowned = λ e. refl;
}
Consistent-switched t human operator tag c h = record {
  ended = h.ended;
  handed = refl;
  unowned = λ e. absurd (cc e);
}

-- What a statement returns beside the rows.
abbrev After : {A : Type 0} → A × Db → Type 0
After r = Rows r.1

After-if : {A : Type 0} (b : Bool) (x y : A × Db) → After x → After y → After (if b then x else y)
After-if true x y hx hy = hx
After-if false x y hx hy = hy

After-revive : (t id : ℕ) (db : Db) → Rows db → After (revive t id db)
unfolding revive
After-revive t id db h =
    After-if _ _ _
      (Consistent-update (is_target id) (revived t) db.conversations (Consistent-revived t) h) h

After-reopen : (t id : ℕ) (db : Db) → Rows db → After (reopen t id db)
unfolding reopen
After-reopen t id db h =
    Option-elim After (revive t id db).0 _ _ (After-revive t id db h) (λ i. After-revive t id db h)

After-reopen_recent : (t user since : ℕ) (db : Db) → Rows db → After (reopen_recent t user since db)
unfolding reopen_recent
After-reopen_recent t user since db h =
    Option-elim After (recently_closed user since db) _ _ h (λ c.
      Option-elim After (revive t c.id db).0 _ _ (After-revive t c.id db h)
        (λ i. After-revive t c.id db h))

After-insert_active :
    (t user : ℕ) (channel : String) (db : Db) → Rows db → After (insert_active t user channel db)
unfolding insert_active
After-insert_active t user channel db h =
    elim (Bool-cases (any (is_open_for user) db.conversations)) [
      | inl e ↦ rw e h
      | inr e ↦ rw e (record { ended = refl; handed = refl; unowned = λ e. refl }, h)
    ]

After-open_new :
    (t user : ℕ) (channel : String) (db : Db) → Rows db → After (open_new t user channel db)
unfolding open_new
After-open_new t user channel db h =
    let inserted = After-insert_active t user channel db h in
    Option-elim After (insert_active t user channel db).0 _ _ inserted (λ id.
      Option-elim After (get id (insert_active t user channel db).1) _ _ inserted (λ c. inserted))

After-get_or_create_active :
    (t user : ℕ) (within : Option ℕ) (channel : String) (db : Db)
    → Rows db
    → After (get_or_create_active t user within channel db)
unfolding get_or_create_active
After-get_or_create_active t user none channel db h =
    Option-elim After (active_for_user user db) _ _ (After-open_new t user channel db h) (λ c. h)
After-get_or_create_active t user (some zero) channel db h =
    Option-elim After (active_for_user user db) _ _ (After-open_new t user channel db h) (λ c. h)
After-get_or_create_active t user (some (suc n)) channel db h =
    let resumed = After-reopen_recent t user (t - suc n) db h in
    Option-elim After (active_for_user user db) _ _
      (Option-elim After (reopen_recent t user (t - suc n) db).0 _ _
        (After-open_new t user channel _ resumed) (λ c. resumed))
      (λ c. h)

-- Every statement that writes the rows of conversations, at every moment and for every argument, keeps
-- three facts of each session: it has an end exactly when it is closed, the time of its handoff
-- exactly when a human answers it, and no operator when the bot answers it.
pub statements_keep_Consistent :
    (t id user limit idle_before since : ℕ) (within : Option ℕ) (channel : String) (mode : Mode)
    (operator tag : Option String) (db : Db)
    → Rows db
    → Rows (get_or_create_active t user within channel db).1
      × Rows (reopen_recent t user since db).1
      × Rows (reopen t id db).1
      × Rows (set_mode t id mode operator tag db)
      × Rows (touch t id db)
      × Rows (mark_welcome_sent t id db)
      × Rows (claim_idle_sessions t idle_before limit db).1
      × Rows (close t id db)
      × Rows (delete id db)
unfolding set_mode touch mark_welcome_sent claim_idle_sessions close delete
statements_keep_Consistent t id user limit idle_before since within channel mode operator tag db h =
    (
      After-get_or_create_active t user within channel db h,
      After-reopen_recent t user since db h,
      After-reopen t id db h,
      Consistent-update _ _ db.conversations (Consistent-switched t mode operator tag) h,
      Consistent-update _ _ db.conversations
          (λ c k. record { ended = k.ended; handed = k.handed; unowned = k.unowned }) h,
      Consistent-update _ _ db.conversations
          (λ c k. record { ended = k.ended; handed = k.handed; unowned = k.unowned }) h,
      Consistent-update _ _ db.conversations
          (λ c k. record { ended = k.ended; handed = k.handed; unowned = k.unowned }) h,
      Consistent-update _ _ db.conversations
          (λ c k. record { ended = refl; handed = k.handed; unowned = k.unowned }) h,
      All-select Consistent _ db.conversations h,
    )
