-- ===== src/Store/Conversations/Untouched.antt =====
-- What the reopenings of app/repositories/conversation.py leave as it is.
use whatsapp_ai_bot.Prelude.{
  ℕ, ◌≡◌, ap, ◌∙◌, Bool, true, false, List, [], ◌∷◌, some, ◌==◌, find, update_where, Option-elim,
  Bool-cases, inl, inr, arith, if◌then◌else◌,
}
use whatsapp_ai_bot.Store.Rows.{Db, Conversation, is_active}
use whatsapp_ai_bot.Store.Conversations.{
  get, is_target, revived, revive, recently_closed, reopen_recent, reopen,
}

find-update_revived :
    (t id i : ℕ) (cs : List Conversation) (c : Conversation)
    → find (λ d. d.id == i) cs ≡ some c
    → is_active c.status ≡ true
    → find (λ d. d.id == i) (update_where (is_target id) (revived t) cs) ≡ some c
unfolding find update_where
find-update_revived t id i [] c e h = absurd (cc e)
find-update_revived t id i (d ∷ ds) c e h = elim (Bool-cases (d.id == i)) [
  | inl here ↦
      let there : some d ≡ some c = (rw here at e) in
      let same : d ≡ c = cc there in
      let open_row : is_active d.status ≡ true = ap (λ x. is_active x.status) same ∙ h in
      let kept : is_target id d ≡ false = ground (arith, open_row) in rw (kept, here) (ap some same)
  | inr apart ↦
      let rest = find-update_revived t id i ds c (rw apart at e) h in
      elim (Bool-cases (is_target id d)) [ inl k ↦ rw (k, apart) rest | inr k ↦ rw (k, apart) rest ]
]

-- An open row of the id is the same afterwards.
abbrev Same : ℕ → Conversation → {A : Type 0} → A × Db → Type 0
Same i c r = get i r.1 ≡ some c

Same-if :
    (i : ℕ) (c : Conversation) {A : Type 0} (b : Bool) (x y : A × Db)
    → Same i c x
    → Same i c y
    → Same i c (if b then x else y)
Same-if i c true x y hx hy = hx
Same-if i c false x y hx hy = hy

Same-revive :
    (t id i : ℕ) (c : Conversation) (db : Db)
    → get i db ≡ some c
    → is_active c.status ≡ true
    → Same i c (revive t id db)
unfolding revive get
Same-revive t id i c db e h =
    Same-if i c _ _ _ (find-update_revived t id i db.conversations c e h) e

-- A reopening, of the session of an id or of a customer's last one, leaves every open session as it
-- is, also the one that it is asked to reopen.
pub reopenings_leave_active :
    (t id user since i : ℕ) (c : Conversation) (db : Db)
    → get i db ≡ some c
    → is_active c.status ≡ true
    → (get i (reopen t id db).1 ≡ some c) × (get i (reopen_recent t user since db).1 ≡ some c)
unfolding reopen reopen_recent
reopenings_leave_active t id user since i c db e h =
    let revived_rows = Same-revive t id i c db e h in
    (
      Option-elim (Same i c) (revive t id db).0 _ _ revived_rows (λ j. revived_rows),
      Option-elim (Same i c) (recently_closed user since db) _ _ e (λ d.
          let rows = Same-revive t d.id i c db e h in
          Option-elim (Same i c) (revive t d.id db).0 _ _ rows (λ j. rows)),
    )
