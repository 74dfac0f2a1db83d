-- ===== src/Webhook/Redelivery.antt =====
-- Deliveries of a message that is stored already.
use whatsapp_ai_bot.Prelude.{
  ℕ, String, Bool, true, false, List, Option, none, some, ◌≡◌, refl, ◌∙◌, ap, any, str_eq, eq_iff,
  subst, sym,
}
use whatsapp_ai_bot.Store.Rows.{Db, Conversation}
use whatsapp_ai_bot.Store.Messages
use whatsapp_ai_bot.World.{World, Wire, M}
use whatsapp_ai_bot.World.Effects.{pure, ◌>>=◌, ◌>>◌, rollback, statement, commit}
use whatsapp_ai_bot.World.Keeps.{View, At, Keeps, Durable, Keeps-bind, Keeps-statement}
use whatsapp_ai_bot.World.Leads.{
  Leads, Leads-of_Keeps, Leads-bind, Leads-pure, Leads-statement, Leads-At,
}
use whatsapp_ai_bot.Chat.Service.{Service}
use whatsapp_ai_bot.Chat.Handlers.{
  context, take_in, handle_text_message, handle_interactive_message, handle_media_message,
  handle_unsupported_message,
}
use whatsapp_ai_bot.Chat.Send.{touch, announce, always}
use whatsapp_ai_bot.Chat.Reservation.Tables.{
  messages-find_user, messages-get_or_create_active, messages-get_or_create,
}
use whatsapp_ai_bot.Webhook.{
  Delivery, text_message, interactive_message, media_message, unsupported_message, stale_message,
  status_update, channel_events, attempt, handle, record_without_answering,
}

-- The message is stored in the database `before`, which is unchanged, and nothing was sent since.
pub record Quiet (id : String) (before : Db) (sends : List Wire) (committed current : Db)
    (wire : List Wire) : Type 0 where
  pub same : committed ≡ before
  pub here : Messages.stored id current ≡ true
  pub silent : wire ≡ sends

stored_of_same :
    (id : String) (db after : Db)
    → after.messages ≡ db.messages
    → Messages.stored id db ≡ true
    → Messages.stored id after ≡ true
unfolding Messages.stored
stored_of_same id db after e h = ap (any (λ x. Messages.holds x.wa_message_id id)) e ∙ h

-- No row is claimed for a message that is stored.
claim_refused :
    (id : String) (t c : ℕ) (type : String) (content media : Option String) (db : Db)
    → Messages.stored id db ≡ true
    → Messages.claim_inbound t c id type content media db ≡ (none, db)
unfolding Messages.claim_inbound
claim_refused id t c type content media db h = rw h refl

module _ (id : String) (before : Db) (sends : List Wire)
    (known : Messages.stored id before ≡ true) where
  Quiet-Durable : Durable (Quiet id before sends)
  Quiet-Durable = record {
    lost = λ committed current wire h. record {
      same = h.same;
      here = ap (Messages.stored id) h.same ∙ known;
      silent = h.silent;
    };
  }

  -- After a claim: nothing was claimed.
  abbrev Unclaimed : {A : Type 0} → Option A → View
  Unclaimed r committed current wire = (r ≡ none) × Quiet id before sends committed current wire

  abbrev Refused : Bool → View
  Refused b committed current wire = (b ≡ false) × Quiet id before sends committed current wire

  module _ (v : Service) where
    Quiet-statement :
        {A : Type 0} (f : ℕ → Db → Option A × Db)
        → ((t : ℕ) (db : Db) → (f t db).1.messages ≡ db.messages)
        → Keeps (Quiet id before sends) (statement v.outside f)
    Quiet-statement f k = Keeps-statement Quiet-Durable v.outside f (λ t committed current wire h.
        record {
          same = h.same;
          here = stored_of_same id current _ (k t current) h.here;
          silent = h.silent;
        })

    Quiet-context :
        (wa_id : String) (name : Option String)
        → Keeps (Quiet id before sends) (context v wa_id name)
    unfolding context
    Quiet-context wa_id name =
        Keeps-bind _ _ (Quiet-statement _ (λ t. messages-find_user v wa_id name))
          (λ user. Quiet-statement _ (λ t. messages-get_or_create_active t user.id _ v.channel))

    Leads-claim :
        (c : ℕ) (type : String) (content media : Option String)
        → Leads (Quiet id before sends) Unclaimed (Quiet id before sends) (
            statement v.outside
              (λ t db. always (Messages.claim_inbound t c id type content media db)))
    Leads-claim c type content media =
        Leads-statement v.outside (Quiet-Durable.lost) Unclaimed _
          (λ t committed current wire a h e.
            let refused = claim_refused id t c type content media current h.here in
            (
              cc (e, ap (λ (x : Option ℕ × Db). x.0) refused),
              record {
                same = h.same;
                here = ap (λ (x : Option ℕ × Db). Messages.stored id x.1) refused ∙ h.here;
                silent = h.silent;
              },
            ))

    taken_in :
        (c : ℕ) (r : Option ℕ)
        → Leads (Unclaimed r) Refused (Quiet id before sends) (elim r [
          | none ↦ rollback v.outside >> pure false
          | some id ↦ touch v c false >> commit v.outside >> announce v c >> pure true
        ])
    unfolding ◌>>=◌ rollback pure
    taken_in c none = record {
      at = λ w h. (refl, Quiet-Durable.lost w.committed w.current w.wire h.1);
    }
    taken_in c (some i) = record { at = λ w h. absurd (cc h.0) }

    take_in-refused :
        (c : ℕ) (type : String) (content media : Option String)
        → Leads
            (Quiet id before sends)
            Refused
            (Quiet id before sends)
            (take_in v c id type content media)
    unfolding take_in
    take_in-refused c type content media =
        Leads-bind Unclaimed Refused _ _ (Leads-claim c type content media) (taken_in c)

    -- What follows the claim is not reached.
    stopped :
        (rest : Bool → M (Unit {0}))
        → rest false ≡ pure tt
        → (b : Bool)
        → Leads (Refused b) (λ a. Quiet id before sends) (Quiet id before sends) (rest b)
    stopped rest e true = record { at = λ w h. absurd (cc h.0) }
    stopped rest e false =
        subst (λ m. Leads (Refused false) (λ a. Quiet id before sends) (Quiet id before sends) m)
          (sym e) (Leads-pure tt (λ a. Quiet id before sends) (λ x y z h. h.1))

    -- A handler that begins as they all do.
    begun :
        (wa_id : String) (name : Option String) (type : String) (content media : Option String)
        (rest : Conversation → Bool → M (Unit {0}))
        → ((c : Conversation) → rest c false ≡ pure tt)
        → Leads
            (Quiet id before sends)
            (λ a. Quiet id before sends)
            (Quiet id before sends)
            (context v wa_id name >>= λ c. take_in v c.id id type content media >>= rest c)
    begun wa_id name type content media rest e =
        Leads-bind (λ c. Quiet id before sends) (λ a. Quiet id before sends) _ _
          (Leads-of_Keeps (λ x y z h. h) (Quiet-context wa_id name))
          (λ c.
            Leads-bind Refused (λ a. Quiet id before sends) _ _
              (take_in-refused c.id type content media) (stopped (rest c) (e c)))

    recorded :
        (c : ℕ) (r : Option ℕ)
        → Leads
            (Unclaimed r)
            (λ a. Quiet id before sends)
            (Quiet id before sends)
            (elim r [ none ↦ rollback v.outside | some i ↦ commit v.outside >> announce v c ])
    unfolding rollback
    recorded c none = record { at = λ w h. Quiet-Durable.lost w.committed w.current w.wire h.1 }
    recorded c (some i) = record { at = λ w h. absurd (cc h.0) }

-- The messages that a delivery carries, for the deliveries of one WhatsApp message.
unfoldable pub carries : String → Delivery → Bool
carries id (text_message wa_id name i text) = str_eq i id
carries id (interactive_message wa_id name i selection_id title) = str_eq i id
carries id (media_message wa_id name i type media_id caption) = str_eq i id
carries id (unsupported_message wa_id name i type) = str_eq i id
carries id (stale_message wa_id name i type content) = str_eq i id
carries id _ = false

module _ (id : String) (before : Db) (sends : List Wire) (known : Messages.stored id before ≡ true)
    (v : Service) where
  abbrev Nothing : M (Unit {0}) → Type 0
  Nothing m = Leads (Quiet id before sends) (λ a. Quiet id before sends) (Quiet id before sends) m

  Nothing-recorded :
      (wa_id : String) (name : Option String) (type : String) (content : Option String)
      → Nothing (record_without_answering v wa_id name id type content)
  unfolding record_without_answering
  Nothing-recorded wa_id name type content =
      Leads-bind (λ c. Quiet id before sends) (λ a. Quiet id before sends) _ _
        (Leads-of_Keeps (λ x y z h. h)
          (Quiet-statement id before sends known v _ (λ t. messages-get_or_create wa_id name)))
        (λ user.
          Leads-bind (λ c. Quiet id before sends) (λ a. Quiet id before sends) _ _
            (Leads-of_Keeps (λ x y z h. h)
              (Quiet-statement id before sends known v _
                (λ t. messages-get_or_create_active t user.id _ _)))
            (λ c.
              Leads-bind (Unclaimed id before sends known) (λ a. Quiet id before sends) _ _
                (Leads-claim id before sends known v c.id type content none)
                (recorded id before sends known v c.id)))

  Nothing-handle : (d : Delivery) → carries id d ≡ true → Nothing (handle v d)
  unfolding handle carries handle_text_message handle_interactive_message handle_media_message
      handle_unsupported_message
  Nothing-handle (text_message wa_id name i text) h =
      subst (λ x. Nothing (handle_text_message v wa_id name x text)) (sym ((eq_iff i id).0 h))
        (begun id before sends known v wa_id name _ _ _ _ (λ c. refl))
  Nothing-handle (interactive_message wa_id name i selection_id title) h =
      subst (λ x. Nothing (handle_interactive_message v wa_id name x selection_id title))
        (sym ((eq_iff i id).0 h)) (begun id before sends known v wa_id name _ _ _ _ (λ c. refl))
  Nothing-handle (media_message wa_id name i type media_id caption) h =
      subst (λ x. Nothing (handle_media_message v wa_id name x type media_id caption))
        (sym ((eq_iff i id).0 h)) (begun id before sends known v wa_id name _ _ _ _ (λ c. refl))
  Nothing-handle (unsupported_message wa_id name i type) h =
      subst (λ x. Nothing (handle_unsupported_message v wa_id name x type))
        (sym ((eq_iff i id).0 h)) (begun id before sends known v wa_id name _ _ _ _ (λ c. refl))
  Nothing-handle (stale_message wa_id name i type content) h =
      subst (λ x. Nothing (record_without_answering v wa_id name x type content))
        (sym ((eq_iff i id).0 h)) (Nothing-recorded wa_id name type content)
  Nothing-handle (status_update i status) h = absurd (cc h)
  Nothing-handle (channel_events es) h = absurd (cc h)

-- A WhatsApp message that is stored already is neither answered nor recorded again: an attempt at a
-- delivery that carries it leaves the durable database as it was and sends nothing, also when
-- the earlier attempt had stored the message and died before it answered.
pub attempt_ignores_stored :
    (v : Service) (d : Delivery) (w : World) (id : String)
    → Messages.stored id w.committed ≡ true
    → carries id d ≡ true
    → ((attempt v d w).1.committed ≡ w.committed) × ((attempt v d w).1.wire ≡ w.wire)
unfolding attempt
attempt_ignores_stored v d w id known carried =
    let start : At (Quiet id w.committed w.wire) (record w { current = w.committed }) = record {
      same = refl;
      here = known;
      silent = refl;
    } in
    let ends =
      Leads-At (λ a. Quiet id w.committed w.wire) (Quiet id w.committed w.wire) _ (λ a x y z h. h)
        (λ x y z h. h) (Nothing-handle id w.committed w.wire known v d carried) _ start in
    (ends.same, ends.silent)
