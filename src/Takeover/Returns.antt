-- ===== src/Takeover/Returns.antt =====
-- `take_over` and `resume_ai` of app/services/admin_service.py when nothing dies.
use whatsapp_ai_bot.Prelude.{
  ℕ, String, Bool, true, false, List, [], ◌∷◌, Option, none, some, ◌==◌, ◌≡◌, refl, ap, subst, sym,
  ◌∙◌, arith, find, any, any-update_where, Bool-cases, inl, inr,
}
use whatsapp_ai_bot.Store.Rows.{
  Db, Conversation, Mode, human, bot, Status, active, closed, is_active,
}
use whatsapp_ai_bot.Store.Conversations
use whatsapp_ai_bot.Store.Conversations.{switched}
use whatsapp_ai_bot.World.{World, Outcome, ok, raise}
use whatsapp_ai_bot.World.Keeps.{View}
use whatsapp_ai_bot.World.Effects.{pure, ◌>>=◌, statement}
use whatsapp_ai_bot.World.Runs.{
  Runs, Returned, Runs-pure, Runs-bind, Runs-commit, Runs-publish, Runs-statement,
}
use whatsapp_ai_bot.Chat.Send.{always}
use whatsapp_ai_bot.Sessions.{Sweeper, outside}
use whatsapp_ai_bot.Replies.{revive_for_operator, announce_reopened}
use whatsapp_ai_bot.Replies.Reopening.{find-passes}
use whatsapp_ai_bot.Takeover.{
  ModeSwitch, switched_to, not_switched, switch_revived, switch_in, switch_found, switch_mode,
  take_over, resume_ai,
}
use whatsapp_ai_bot.Takeover.Outcomes.{Handed, take_over-Handed}

any-find :
    (p : Conversation → Bool) (cs : List Conversation) (c : Conversation)
    → find p cs ≡ some c
    → any p cs ≡ true
unfolding find any
any-find p [] c e = absurd (cc e)
any-find p (d ∷ ds) c e = ground (arith, e, any-find p ds c)

find-any :
    (p : Conversation → Bool) (cs : List Conversation)
    → any p cs ≡ true
    → (c : Conversation) × (find p cs ≡ some c)
unfolding find any
find-any p [] e = absurd (cc e)
find-any p (d ∷ ds) e = elim (Bool-cases (p d)) [
  | inl here ↦ (d, rw here refl)
  | inr apart ↦ let (c, found) = find-any p ds (rw apart at e) in (c, rw apart found)
]

-- The table has a row of the id.
abbrev Row : ℕ → View
Row i committed current wire = any (λ d. d.id == i) current.conversations ≡ true

-- The open session of the id, in the transaction.
abbrev Opened : ℕ → Conversation → View
Opened j c committed current wire = Conversations.get j current ≡ some c

abbrev is_switched : ModeSwitch → Bool
is_switched (switched_to c) = true
is_switched (not_switched e) = false

abbrev Switched : ModeSwitch → View
Switched r committed current wire = is_switched r ≡ true

Row-set_mode :
    (t i : ℕ) (mode : Mode) (operator : Option String) (db : Db)
    → any (λ d. d.id == i) db.conversations ≡ true
    → any (λ d. d.id == i) (Conversations.set_mode t i mode operator none db).conversations ≡ true
unfolding Conversations.set_mode switched
Row-set_mode t i mode operator db h = any-update_where _ _ _ db.conversations (λ c. refl) ∙ h

Opened-Row :
    (j : ℕ) (c : Conversation) (db : Db)
    → Conversations.get j db ≡ some c
    → any (λ d. d.id == c.id) db.conversations ≡ true
unfolding Conversations.get
Opened-Row j c db e =
    let own : c.id ≡ j = equal c.id j (find-passes (λ d. d.id == j) db.conversations c e) in
    subst (λ k. any (λ d. d.id == k) db.conversations ≡ true) (sym own)
      (any-find (λ d. d.id == j) db.conversations c e)
  where
    equal : (a b : ℕ) → (a == b) ≡ true → a ≡ b
    equal a b h = ground arith

module _ (s : Sweeper) (live : (t : ℕ) → (outside s).dies t ≡ false) (mode : Mode)
    (operator : Option String) (reason : String) where
  Runs-revived :
      (c : Conversation) → Runs (Row c.id) Switched (switch_revived s mode operator reason c)
  unfolding switch_revived Conversations.get
  Runs-revived c =
      Runs-bind (λ u. Row c.id) Switched _ _
        (Runs-statement (outside s) live (λ u. Row c.id) _
          (λ t a b w h. (tt, refl, Row-set_mode t c.id mode operator b h)))
        (λ u.
          Runs-bind (λ v. Row c.id) Switched _ _
            (Runs-commit (outside s) live (Row c.id) (λ a b w h. h))
            (λ v.
              Runs-bind (λ row. Row c.id) Switched _ _
                (Runs-statement (outside s) live (λ row. Row c.id) _
                  (λ t a b w h.
                    let (row, found) = find-any (λ d. d.id == c.id) b.conversations h in
                    (row, found, h)))
                (λ row.
                  Runs-bind (λ x. Row c.id) Switched _ _ (Runs-publish (outside s) live _)
                    (λ x. Runs-pure (switched_to row) Switched (λ a b w h. refl)))))

  Runs-active :
      (j : ℕ) (c : Conversation) (status : Status)
      → is_active status ≡ true
      → Runs
          (Opened j c)
          (λ o a b w. (o ≡ some c) × Row c.id a b w)
          (elim status [
            | active ↦ pure (some c)
            | closed ↦
                statement (outside s) (λ t db. always (Conversations.reopen t c.id db))
                >>= announce_reopened s
          ])
  Runs-active j c active e =
      Runs-pure (some c) (λ o a b w. (o ≡ some c) × Row c.id a b w)
        (λ a b w h. (refl, Opened-Row j c b h))
  Runs-active j c closed e = absurd (cc e)

  Runs-in :
      (c : Conversation) (o : Option Conversation)
      → Runs (λ a b w. (o ≡ some c) × Row c.id a b w) Switched (switch_in s mode operator reason o)
  Runs-in c none = record { at = λ w h. absurd (cc h.0) }
  Runs-in c (some d) = record {
    at = λ w h.
        let same : d ≡ c = cc h.0 in
        (Runs-revived d).at w (subst (λ x. Row x.id w.committed w.current w.wire) (sym same) h.1);
  }

  Runs-found :
      (j : ℕ) (c : Conversation) (o : Option Conversation)
      → is_active c.status ≡ true
      → Runs
          (λ a b w. (o ≡ some c) × Opened j c a b w)
          Switched
          (switch_found s mode operator reason o)
  unfolding revive_for_operator
  Runs-found j c none is_on = record { at = λ w h. absurd (cc h.0) }
  Runs-found j c (some d) is_on = record {
    at = λ w h.
        let same : d ≡ c = cc h.0 in
        (Runs-bind (λ x a b v. (x ≡ some d) × Row d.id a b v) Switched _ _
            (Runs-active j d d.status (ap (λ x. is_active x.status) same ∙ is_on)) (Runs-in d)).at
          w (subst (λ x. Opened j x w.committed w.current w.wire) (sym same) h.1);
  }

  pub Runs-switch :
      (j : ℕ) (c : Conversation)
      → is_active c.status ≡ true
      → Runs (Opened j c) Switched (switch_mode s mode operator reason j)
  unfolding switch_mode
  Runs-switch j c is_on =
      Runs-bind (λ o a b w. (o ≡ some c) × Opened j c a b w) Switched _ _
        (Runs-statement (outside s) live (λ o a b w. (o ≡ some c) × Opened j c a b w) _
          (λ t a b w h. (Conversations.get j b, refl, (h, h))))
        (λ o. Runs-found j c o is_on)

returned :
    (j : ℕ) (mode : Mode) (owner : Option String) (before : World) (r : Outcome ModeSwitch × World)
    → Handed j mode owner before r
    → Returned Switched r
    → (c : Conversation) × (r.0 ≡ ok (switched_to c)) × (c.mode ≡ mode)
unfolding Handed
returned j mode owner before (ok (switched_to d), after) h (a, e, k) = (d, refl, h.4)
returned j mode owner before (ok (not_switched x), after) h (a, e, k) =
    let same : not_switched x ≡ a = cc e in
    let refused : false ≡ is_switched a = ap is_switched same in absurd (cc (refused, k))
returned j mode owner before (raise x, after) h (a, e, k) = absurd (cc e)

-- In an environment in which nothing dies, and in a new transaction, taking over and handing back an
-- open session that the table has both return a conversation: one that a human answers, and one
-- that the bot answers.
pub take_over_returns :
    (s : Sweeper) (j : ℕ) (operator : Option String) (c : Conversation) (w : World)
    → ((t : ℕ) → (outside s).dies t ≡ false)
    → w.current ≡ w.committed
    → Conversations.get j w.current ≡ some c
    → is_active c.status ≡ true
    → ((r : Conversation) × ((take_over s j operator w).0 ≡ ok (switched_to r)) × (r.mode ≡ human))
      × ((r : Conversation) × ((resume_ai s j w).0 ≡ ok (switched_to r)) × (r.mode ≡ bot))
unfolding take_over resume_ai
take_over_returns s j operator c w live fresh found is_on =
    let (held, given) = take_over-Handed s j operator w fresh in
    (
      returned j human operator w _ held
          ((Runs-switch s live human operator "operator_took_over" j c is_on).at w found),
      returned j bot none w _ given
          ((Runs-switch s live bot none "operator_resumed_ai" j c is_on).at w found),
    )
