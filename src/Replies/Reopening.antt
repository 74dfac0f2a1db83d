-- ===== src/Replies/Reopening.antt =====
-- `reopen` of app/repositories/conversation.py: the session that it returns is open, and no message
-- changes.
use whatsapp_ai_bot.Prelude.{
  ℕ, Bool, true, false, ◌&&◌, List, [], ◌∷◌, Option, none, some, ◌==◌, ◌≡◌, refl, subst, sym, arith,
  if◌then◌else◌, find, any, All, update_where, Bool-cases, inl, inr,
}
use whatsapp_ai_bot.Store.Rows.{Db, Conversation, is_active}
use whatsapp_ai_bot.Store.Conversations.{
  get, is_target, revived, revive, reopen, index_holds, update_rows,
}
use whatsapp_ai_bot.Sessions.Closing.{is_still_open}

pub find-passes :
    (p : Conversation → Bool) (cs : List Conversation) (c : Conversation)
    → find p cs ≡ some c
    → p c ≡ true
unfolding find
find-passes p [] c e = absurd (cc e)
find-passes p (d ∷ ds) c e = elim (Bool-cases (p d)) [
  | inl h ↦ let same : some d ≡ some c = (rw h at e) in cc (h, same)
  | inr h ↦ find-passes p ds c (rw h at e)
]

any-found :
    (p q : Conversation → Bool) (cs : List Conversation) (c : Conversation)
    → find p cs ≡ some c
    → q c ≡ true
    → any (λ d. p d && q d) cs ≡ true
unfolding find any
any-found p q [] c e h = absurd (cc e)
any-found p q (d ∷ ds) c e h = elim (Bool-cases (p d)) [
  | inl here ↦
      let same : some d ≡ some c = (rw here at e) in
      let there : q d ≡ true = cc (same, h) in rw (here, there) refl
  | inr apart ↦ ground (arith, apart, any-found p q ds c (rw apart at e) h)
]

-- An active row that an id finds keeps its session open.
pub get_open :
    (i : ℕ) (db : Db) (c : Conversation)
    → get i db ≡ some c
    → is_active c.status ≡ true
    → is_still_open i db ≡ true
unfolding get is_still_open
get_open i db c e h = any-found (λ d. d.id == i) (λ d. is_active d.status) db.conversations c e h

-- The row with the id, after the update, is active.
abbrev Active : ℕ → Conversation → Type 0
Active i c = (c.id == i) ≡ true → is_active c.status ≡ true

revived_one : (t i : ℕ) (d : Conversation) → Active i (if is_target i d then revived t d else d)
revived_one t i d = elim (Bool-cases (is_target i d)) [
  | inl h ↦ rw h (λ e. refl)
  | inr h ↦ rw h (λ e. ground (arith, e, h))
]

revived-All :
    (t i : ℕ) (cs : List Conversation) → All (Active i) (update_where (is_target i) (revived t) cs)
unfolding update_where
revived-All t i [] = tt
revived-All t i (d ∷ ds) = (revived_one t i d, revived-All t i ds)

found-Active :
    (i : ℕ) (cs : List Conversation) (c : Conversation)
    → All (Active i) cs
    → find (λ d. d.id == i) cs ≡ some c
    → is_active c.status ≡ true
unfolding find
found-Active i [] c h e = absurd (cc e)
found-Active i (d ∷ ds) c h e = elim (Bool-cases (d.id == i)) [
  | inl here ↦ let same : some d ≡ some c = (rw here at e) in cc (same, h.0 here)
  | inr apart ↦ found-Active i ds c h.1 (rw apart at e)
]

abbrev resumed : Option ℕ × Db → Option Conversation × Db
resumed r = elim r.0 [ none ↦ (none, r.1) | some i ↦ (get i r.1, r.1) ]

resumed_if :
    (b : Bool) (i : ℕ) (before after : Db) (c : Conversation)
    → (resumed (if b then (some i, after) else (none, before))).0 ≡ some c
    → (get i after ≡ some c) × ((resumed (if b then (some i, after) else (none, before))).1 ≡ after)
resumed_if true i before after c e = (e, refl)
resumed_if false i before after c e = absurd (cc e)

-- The session that `reopen` returns is the one asked for, and it is open.
pub reopen_opens :
    (t i : ℕ) (db : Db) (c : Conversation)
    → (reopen t i db).0 ≡ some c
    → (c.id ≡ i) × (is_still_open i (reopen t i db).1 ≡ true)
unfolding reopen revive get
reopen_opens t i db c e =
    let after = update_rows (is_target i) (revived t) db in
    let (found, same) =
      resumed_if (any (is_target i) db.conversations && index_holds after.conversations) i db after
        c e in
    (
      equal c.id i (find-passes (λ d. d.id == i) after.conversations c found),
      subst (λ x. is_still_open i x ≡ true) (sym same)
          (get_open i after c found
            (found-Active i after.conversations c (revived-All t i db.conversations) found)),
    )
  where
    equal : (a b : ℕ) → (a == b) ≡ true → a ≡ b
    equal a b h = ground arith

resumed_messages :
    (b : Bool) (i : ℕ) (before after : Db)
    → after.messages ≡ before.messages
    → (resumed (if b then (some i, after) else (none, before))).1.messages ≡ before.messages
resumed_messages true i before after e = e
resumed_messages false i before after e = refl

pub messages-reopen : (t i : ℕ) (db : Db) → (reopen t i db).1.messages ≡ db.messages
unfolding reopen revive
messages-reopen t i db = resumed_messages _ i db (update_rows (is_target i) (revived t) db) refl
