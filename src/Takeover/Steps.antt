-- ===== src/Takeover/Steps.antt =====
-- The steps of `_switch_mode` of app/services/admin_service.py, on every path.
use whatsapp_ai_bot.Prelude.{
  ℕ, String, true, List, [], ◌∷◌, Option, none, some, ◌==◌, ◌≡◌, refl, ap, subst, sym, ◌∙◌,
  if◌then◌else◌, find, update_where, any-update_where, Bool-cases, inl, inr,
}
use whatsapp_ai_bot.Store.Rows.{Db, Conversation, Message, Mode, is_human}
use whatsapp_ai_bot.Store.Conversations
use whatsapp_ai_bot.Store.Conversations.{switched}
use whatsapp_ai_bot.World.{Wire, handoff}
use whatsapp_ai_bot.World.Effects.{pure, ◌>>=◌, statement, publish}
use whatsapp_ai_bot.World.Keeps.{View}
use whatsapp_ai_bot.World.Leads.{
  Leads, Leads-bind, Leads-pure, Leads-commit, Leads-publish, Leads-statement,
}
use whatsapp_ai_bot.Sessions.{Sweeper, outside}
use whatsapp_ai_bot.Sessions.Closing.{is_still_open}
use whatsapp_ai_bot.Replies.Reviving.{Revived, Maybe, revives, finds}
use whatsapp_ai_bot.Replies.Views
use whatsapp_ai_bot.Replies.Views.{Quiet-back}
use whatsapp_ai_bot.Takeover.{
  ModeSwitch, switched_to, not_switched, switch_revived, switch_in, switch_found, switch_mode,
}

-- The side that answers, and its operator.
pub record Owned (mode : Mode) (operator : Option String) (c : Conversation) : Type 0 where
  pub same_mode : c.mode ≡ mode
  pub same_operator : c.assigned_operator ≡ (if is_human mode then operator else none)

found_Owned :
    (t i : ℕ) (mode : Mode) (operator : Option String) (cs : List Conversation) (c : Conversation)
    → find (λ d. d.id == i) (update_where (λ d. d.id == i) (switched t mode operator none) cs)
      ≡ some c
    → Owned mode operator c
unfolding find update_where switched
found_Owned t i mode operator [] c e = absurd (cc e)
found_Owned t i mode operator (d ∷ ds) c e = elim (Bool-cases (d.id == i)) [
  | inl here ↦
      let same : some (switched t mode operator none d) ≡ some c = (rw (here, here) at e) in
      let first : switched t mode operator none d ≡ c = cc same in
      subst (Owned mode operator) first (record { same_mode = refl; same_operator = refl })
  | inr apart ↦ found_Owned t i mode operator ds c (rw (apart, apart) at e)
]

module _ (j : ℕ) (m : List Message) (x : List Wire) (mode : Mode) (operator : Option String) where
  abbrev Quiet : View
  Quiet = Views.Quiet j m x

  -- Nothing was sent, the transcript is as it was, and the durable session is open and has its owner.
  pub record Settled (committed current : Db) (wire : List Wire) : Type 0 where
    pub unsent : wire ≡ x
    pub kept_messages : committed.messages ≡ m
    pub written : current.messages ≡ m
    pub open_session : is_still_open j committed ≡ true
    pub same_rows : current ≡ committed
    pub owner : (c : Conversation) → Conversations.get j committed ≡ some c → Owned mode operator c

  pub record Written (committed current : Db) (wire : List Wire) : Type 0 where
    pub unsent : wire ≡ x
    pub kept_messages : committed.messages ≡ m
    pub written : current.messages ≡ m
    pub open_session : is_still_open j current ≡ true
    pub owner : (c : Conversation) → Conversations.get j current ≡ some c → Owned mode operator c

  abbrev pub Ends : ModeSwitch → View
  Ends (switched_to c) = λ committed current wire.
      Settled committed current wire × (Conversations.get j committed ≡ some c)
  Ends (not_switched e) = Quiet

  switch_open :
      (t : ℕ) (db : Db)
      → is_still_open j db ≡ true
      → is_still_open j (Conversations.set_mode t j mode operator none db) ≡ true
  unfolding is_still_open Conversations.set_mode switched
  switch_open t db h = any-update_where _ _ _ db.conversations (λ c. refl) ∙ h

  switch_owner :
      (t : ℕ) (db : Db) (c : Conversation)
      → Conversations.get j (Conversations.set_mode t j mode operator none db) ≡ some c
      → Owned mode operator c
  unfolding Conversations.get Conversations.set_mode
  switch_owner t db c e = found_Owned t j mode operator db.conversations c e

  module _ (s : Sweeper) (reason : String) where
    Settled-Quiet : (a b : Db) (w : List Wire) → Settled a b w → Quiet a b w
    Settled-Quiet a b w h = record {
      unsent = h.unsent;
      kept_messages = h.kept_messages;
      written = h.written;
    }

    Settled-back : (a b : Db) (w : List Wire) → Settled a b w → Quiet a a w
    Settled-back a b w h = Quiet-back j m x a b w (Settled-Quiet a b w h)

    announces :
        (i : ℕ)
        → i ≡ j
        → Leads Settled Ends Quiet (
            statement (outside s) (λ t db. (Conversations.get i db, db)) >>= λ row.
            publish (outside s) (handoff row.id row.mode row.assigned_operator reason none) >>= λ u.
            pure (switched_to row))
    announces i same =
        Leads-bind (λ c. Ends (switched_to c)) Ends _ _
          (Leads-statement (outside s) Settled-back (λ c. Ends (switched_to c)) _
            (λ t a b w c h e. (
              h,
              ap (λ db. Conversations.get j db) (sym h.same_rows)
                  ∙ ap (λ k. Conversations.get k b) (sym same)
                  ∙ e,
            )))
          (λ c.
            Leads-bind (λ u. Ends (switched_to c)) Ends _ _
              (Leads-publish (outside s) (λ a b w h. Settled-back a b w h.0) _)
              (λ u. Leads-pure (switched_to c) Ends (λ a b w h. h)))

    writes_mode :
        (c : Conversation)
        → c.id ≡ j
        → Leads (Views.Live j m x c) Ends Quiet (switch_revived s mode operator reason c)
    unfolding switch_revived Conversations.set_mode
    writes_mode c same =
        Leads-bind (λ u. Written) Ends _ _
          (Leads-statement (outside s) (λ a b w h. Quiet-back j m x a b w h.quiet) (λ u. Written) _
            (λ t a b w u h e.
              subst (λ k. Written a (Conversations.set_mode t k mode operator none b) w) (sym same)
                (record {
                  unsent = h.quiet.unsent;
                  kept_messages = h.quiet.kept_messages;
                  written = h.quiet.written;
                  open_session = switch_open t b h.open_session;
                  owner = switch_owner t b;
                })))
          (λ u.
            Leads-bind (λ v. Settled) Ends _ _
              (Leads-commit (outside s)
                (λ a b w h. record {
                  unsent = h.unsent;
                  kept_messages = h.kept_messages;
                  written = h.kept_messages;
                })
                Settled
                (λ a b w h. record {
                  unsent = h.unsent;
                  kept_messages = h.written;
                  written = h.written;
                  open_session = h.open_session;
                  same_rows = refl;
                  owner = h.owner;
                }))
              (λ v. announces c.id same))

    Live_same :
        (c : Conversation)
        → Leads (Views.Live j m x c) Ends Quiet (switch_revived s mode operator reason c)
    Live_same c = record { at = λ w h. (writes_mode c h.same).at w h }

    for_revived :
        (o : Option Conversation)
        → Leads (Revived j m x o) Ends Quiet (switch_in s mode operator reason o)
    for_revived none = Leads-pure _ Ends (λ a b w h. h)
    for_revived (some c) = Live_same c

    for_found :
        (o : Option Conversation)
        → Leads (Maybe j m x o) Ends Quiet (switch_found s mode operator reason o)
    for_found none = Leads-pure _ Ends (λ a b w h. h)
    for_found (some c) = Leads-bind (Revived j m x) Ends _ _ (revives j m x s c) for_revived

    pub switched_ends : Leads Quiet Ends Quiet (switch_mode s mode operator reason j)
    unfolding switch_mode
    switched_ends = Leads-bind (Maybe j m x) Ends _ _ (finds j m x s) for_found
