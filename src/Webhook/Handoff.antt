-- ===== src/Webhook/Handoff.antt =====
-- Deliveries from a customer whom a person answers.
use whatsapp_ai_bot.Prelude.{
  ℕ, zero, suc, String, Bool, true, false, List, Option, none, some, ◌≡◌, refl, ◌∙◌, ap, sym, subst,
  str_eq, eq_iff, latest, select, arith, if◌then◌else◌,
}
use whatsapp_ai_bot.Store.Rows.{Db, User, Conversation, is_human, whatsapp}
use whatsapp_ai_bot.Store.Users
use whatsapp_ai_bot.Store.Conversations.{active_for_user, is_open_for, get_or_create_active}
use whatsapp_ai_bot.World.{World, Wire, M}
use whatsapp_ai_bot.World.Effects.{pure, ◌>>=◌, ◌>>◌, statement, commit, rollback}
use whatsapp_ai_bot.World.Keeps.{
  View, At, Keeps, Durable, Keeps-pure, Keeps-bind, Keeps-if, Keeps-statement, Keeps-commit,
  Keeps-rollback, Keeps-publish, Keeps-call_receipt,
}
use whatsapp_ai_bot.World.Leads.{Leads, Leads-of_Keeps, Leads-bind, Leads-statement, Leads-At}
use whatsapp_ai_bot.Chat.Service.{Service}
use whatsapp_ai_bot.Chat.Send.{touch, announce, mark_read, handled_by_human, within_quota}
use whatsapp_ai_bot.Chat.Handlers.{
  find_user, context, take_in, goes_on, reopen_within, handle_text_message,
  handle_interactive_message, handle_media_message, handle_unsupported_message,
}
use whatsapp_ai_bot.Webhook.{
  Delivery, text_message, interactive_message, media_message, unsupported_message, stale_message,
  status_update, channel_events, attempt, handle,
}

-- The customer that a channel's id stands for.
unfoldable pub customer : Service → String → Db → Option User
customer v id db =
    if str_eq v.channel whatsapp
    then Users.get_by_wa_id id db
    else Users.get_by_channel_id v.channel id db

rename_known :
    (name : Option String) (u : User) (db : Db)
    → ((Users.rename name u db).0.id ≡ u.id)
      × ((Users.rename name u db).1.conversations ≡ db.conversations)
unfolding Users.rename
rename_known none u db = (refl, refl)
rename_known (some name) u db = (ground arith, ground arith)

-- A result about the customer `u` leaves the conversations.
abbrev Known : User → Db → Option User × Db → Type 0
Known u db r =
    (found : User) → r.0 ≡ some found → (found.id ≡ u.id) × (r.1.conversations ≡ db.conversations)

finish-Known :
    (name : Option String) (u : User) (db : Db) → Known u db (Users.finish name (some u) db)
unfolding Users.finish
finish-Known name u db found e =
    let renamed = rename_known name u db in
    let same : (Users.rename name u db).0 ≡ found = cc e in
    (sym (ap (λ (x : User). x.id) same) ∙ renamed.0, renamed.1)

get_or_create_eq :
    (id : String) (name : Option String) (db : Db) (u : User)
    → Users.get_by_wa_id id db ≡ some u
    → Users.get_or_create id name db ≡ Users.finish name (some u) db
unfolding Users.get_or_create
get_or_create_eq id name db u k = rw (Users.get_or_create, k) refl

get_or_create_by_channel_eq :
    (channel id : String) (name : Option String) (db : Db) (u : User)
    → Users.get_by_channel_id channel id db ≡ some u
    → Users.get_or_create_by_channel channel id name db ≡ Users.finish name (some u) db
unfolding Users.get_or_create_by_channel
get_or_create_by_channel_eq channel id name db u k = rw (Users.get_or_create_by_channel, k) refl

get_or_create-Known :
    (id : String) (name : Option String) (db : Db) (u : User)
    → Users.get_by_wa_id id db ≡ some u
    → Known u db (Users.get_or_create id name db)
get_or_create-Known id name db u k =
    subst (Known u db) (sym (get_or_create_eq id name db u k)) (finish-Known name u db)

get_or_create_by_channel-Known :
    (channel id : String) (name : Option String) (db : Db) (u : User)
    → Users.get_by_channel_id channel id db ≡ some u
    → Known u db (Users.get_or_create_by_channel channel id name db)
get_or_create_by_channel-Known channel id name db u k =
    subst (Known u db) (sym (get_or_create_by_channel_eq channel id name db u k))
      (finish-Known name u db)

Known-if :
    (b : Bool) (x y : Option User) (u : User) (db : Db) (r s : Option User × Db)
    → (x ≡ some u → Known u db r)
    → (y ≡ some u → Known u db s)
    → (if b then x else y) ≡ some u
    → Known u db (if b then r else s)
Known-if true x y u db r s f g k = f k
Known-if false x y u db r s f g k = g k

-- A customer who is known is found, and the conversations stay.
find_user-Known :
    (v : Service) (id : String) (name : Option String) (db : Db) (u : User)
    → customer v id db ≡ some u
    → Known u db (find_user v id name db)
unfolding customer find_user
find_user-Known v id name db u k =
    Known-if (str_eq v.channel whatsapp) _ _ u db _ _ (get_or_create-Known id name db u)
      (get_or_create_by_channel-Known v.channel id name db u) k

-- An open session is returned as it stands.
open_returned :
    (t user : ℕ) (within : Option ℕ) (channel : String) (db : Db) (c : Conversation)
    → active_for_user user db ≡ some c
    → get_or_create_active t user within channel db ≡ (some c, db)
unfolding get_or_create_active
open_returned t user none channel db c e = rw (get_or_create_active, e) refl
open_returned t user (some zero) channel db c e = rw (get_or_create_active, e) refl
open_returned t user (some (suc n)) channel db c e = rw (get_or_create_active, e) refl

active_same :
    (i j : ℕ) (db after : Db)
    → i ≡ j
    → after.conversations ≡ db.conversations
    → active_for_user i after ≡ active_for_user j db
unfolding active_for_user
active_same i j db after e f =
    ap (λ (cs : List Conversation). latest (λ c. c.created_at) (select (is_open_for i) cs)) f
    ∙ ap
        (λ k. latest (λ (c : Conversation). c.created_at) (select (is_open_for k) db.conversations))
        e

-- The customer's session is in the hands of a person, and nothing was sent since.
pub record Human (v : Service) (id : String) (sends : List Wire) (committed current : Db)
    (wire : List Wire) : Type 0 where
  pub user : User
  pub session : Conversation
  pub is_known : customer v id current ≡ some user
  pub is_open : active_for_user user.id current ≡ some session
  pub by_person : is_human session.mode ≡ true
  pub silent : wire ≡ sends

abbrev Silent : List Wire → View
Silent sends committed current wire = wire ≡ sends

module _ (v : Service) (sends : List Wire) where
  Silent-Durable : Durable (Silent sends)
  Silent-Durable = record { lost = λ committed current wire h. h }

  Silent-statement :
      {A : Type 0} (f : ℕ → Db → Option A × Db) → Keeps (Silent sends) (statement v.outside f)
  Silent-statement f = Keeps-statement Silent-Durable v.outside f (λ t committed current wire h. h)

  Silent-commit : Keeps (Silent sends) (commit v.outside)
  Silent-commit = Keeps-commit Silent-Durable v.outside (λ committed current wire h. h)

  Silent-touch : (c : ℕ) (outgoing : Bool) → Keeps (Silent sends) (touch v c outgoing)
  unfolding touch
  Silent-touch c outgoing =
      Keeps-if _ _ _ (Keeps-pure tt) (Keeps-if _ _ _ (Keeps-pure tt) (Silent-statement _))

  Silent-claimed :
      (c : ℕ) (r : Option ℕ)
      → Keeps (Silent sends) (elim r [
        | none ↦ rollback v.outside >> pure false
        | some i ↦ touch v c false >> commit v.outside >> announce v c >> pure true
      ])
  unfolding announce
  Silent-claimed c none =
      Keeps-bind _ _ (Keeps-rollback Silent-Durable v.outside) (λ a. Keeps-pure false)
  Silent-claimed c (some i) =
      Keeps-bind _ _
        (Keeps-bind _ _ (Keeps-bind _ _ (Silent-touch c false) (λ a. Silent-commit))
          (λ a. Keeps-publish Silent-Durable v.outside _))
        (λ a. Keeps-pure true)

  Silent-take_in :
      (c : ℕ) (id type : String) (content media : Option String)
      → Keeps (Silent sends) (take_in v c id type content media)
  unfolding take_in
  Silent-take_in c id type content media = Keeps-bind _ _ (Silent-statement _) (Silent-claimed c)

  Silent-mark_read : (id : String) → Keeps (Silent sends) (mark_read v id)
  unfolding mark_read
  Silent-mark_read id = Keeps-if _ _ _ (Keeps-call_receipt Silent-Durable v.outside) (Keeps-pure tt)

  -- After the customer was found: the session is open, for the row that was found.
  Found : User → View
  Found u committed current wire =
      ((c : Conversation) × (active_for_user u.id current ≡ some c) × (is_human c.mode ≡ true))
      × (wire ≡ sends)

  ByPerson : Conversation → View
  ByPerson c committed current wire = (is_human c.mode ≡ true) × (wire ≡ sends)

  module _ (id : String) where
    context-Leads :
        (name : Option String)
        → Leads (Human v id sends) ByPerson (Silent sends) (context v id name)
    unfolding context Found ByPerson active_for_user
    context-Leads name =
        Leads-bind Found ByPerson _ _
          (Leads-statement v.outside (λ committed current wire h. h.silent) Found _
            (λ t committed current wire a h e.
              let known = find_user-Known v id name current h.user h.is_known a e in
              (
                (
                  h.session,
                  active_same a.id h.user.id current (find_user v id name current).1 known.0 known.1
                      ∙ h.is_open,
                  h.by_person,
                ),
                h.silent,
              )))
          (λ u.
            Leads-statement v.outside (λ committed current wire h. h.1) ByPerson _
              (λ t committed current wire a h e.
                let same = open_returned t u.id (reopen_within v) v.channel current h.0.0 h.0.1 in
                let session : h.0.0 ≡ a = cc (e, ap (λ (r : Option Conversation × Db). r.0) same) in
                (sym (ap (λ (c : Conversation). is_human c.mode) session) ∙ h.0.2, h.1)))

  -- The conversation that was found is in the hands of a person.
  with_person :
      (c : Conversation) (m : M (Unit {0}))
      → (is_human c.mode ≡ true → Keeps (Silent sends) m)
      → Leads (ByPerson c) (λ a. Silent sends) (Silent sends) m
  unfolding ByPerson
  with_person c m k = record {
    at = λ w h.
        (Leads-of_Keeps {P = Silent sends} {E = Silent sends} (λ x y z g. g) (k h.0)).at w h.1;
  }

  Silent-decided :
      (m : M Bool) (b : Bool) (rest : Bool → M (Unit {0}))
      → m ≡ pure b
      → Keeps (Silent sends) (rest b)
      → Keeps (Silent sends) (m >>= rest)
  unfolding ◌>>=◌ pure
  Silent-decided m b rest e k =
      subst (λ n. Keeps (Silent sends) (n >>= rest)) (sym e) (record { at = λ w h. k.at w h })

  handled :
      (wa_id : String) (c : Conversation) (text reply_to : Option String)
      → is_human c.mode ≡ true
      → handled_by_human v wa_id c text reply_to ≡ pure true
  unfolding handled_by_human
  handled wa_id c text reply_to h = rw (handled_by_human, h) refl

  stays_out :
      (wa_id : String) (c : Conversation) (id : String) (text : Option String)
      → is_human c.mode ≡ true
      → goes_on v wa_id c id text ≡ pure false
  unfolding goes_on ◌>>=◌ pure
  stays_out wa_id c id text h =
      ap (λ (m : M Bool). m >>= λ b. if b then pure false else within_quota v wa_id c.id id text)
        (handled wa_id c text (some id) h)

  -- The four handlers, each with what it would do next.
  listens :
      (wa_id : String) (name : Option String) (id type : String)
      (content media text : Option String) (next : Conversation → M (Unit {0}))
      → Leads
          (Human v wa_id sends)
          (λ a. Silent sends)
          (Silent sends)
          (context v wa_id name >>= λ c. take_in v c.id id type content media >>= λ fresh.
            if fresh
            then mark_read v id
              >> (goes_on v wa_id c id text >>= λ on. if on then next c else pure tt)
            else pure tt)
  listens wa_id name id type content media text next =
      Leads-bind ByPerson (λ a. Silent sends) _ _ (context-Leads wa_id name)
        (λ c. with_person c _ (λ h.
          Keeps-bind _ _ (Silent-take_in c.id id type content media) (λ fresh.
            Keeps-if fresh _ _
              (Keeps-bind _ _ (Silent-mark_read id)
                (λ a. Silent-decided _ false _ (stays_out wa_id c id text h) (Keeps-pure tt)))
              (Keeps-pure tt))))

  listens_unsupported :
      (wa_id : String) (name : Option String) (id type : String)
      → Leads
          (Human v wa_id sends)
          (λ a. Silent sends)
          (Silent sends)
          (handle_unsupported_message v wa_id name id type)
  unfolding handle_unsupported_message
  listens_unsupported wa_id name id type =
      Leads-bind ByPerson (λ a. Silent sends) _ _ (context-Leads wa_id name)
        (λ c. with_person c _ (λ h. Keeps-bind _ _ (Silent-take_in c.id id type _ none) (λ fresh.
          Keeps-if fresh _ _
            (Silent-decided _ true _ (handled wa_id c none (some id) h) (Keeps-pure tt))
            (Keeps-pure tt))))

-- The deliveries of one message that a handler answers, with the customer's id.
unfoldable pub comes_from : String → Delivery → Bool
comes_from wa_id (text_message w name id text) = str_eq w wa_id
comes_from wa_id (interactive_message w name id selection_id title) = str_eq w wa_id
comes_from wa_id (media_message w name id type media_id caption) = str_eq w wa_id
comes_from wa_id (unsupported_message w name id type) = str_eq w wa_id
comes_from wa_id _ = false

module _ (v : Service) (sends : List Wire) (wa_id : String) where
  abbrev Quietly : M (Unit {0}) → Type 0
  Quietly m = Leads (Human v wa_id sends) (λ a. Silent sends) (Silent sends) m

  Quietly-handle : (d : Delivery) → comes_from wa_id d ≡ true → Quietly (handle v d)
  unfolding handle comes_from handle_text_message handle_interactive_message handle_media_message
  Quietly-handle (text_message w name id text) h =
      subst (λ x. Quietly (handle_text_message v x name id text)) (sym ((eq_iff w wa_id).0 h))
        (listens v sends wa_id name _ _ _ _ _ _)
  Quietly-handle (interactive_message w name id selection_id title) h =
      subst (λ x. Quietly (handle_interactive_message v x name id selection_id title))
        (sym ((eq_iff w wa_id).0 h)) (listens v sends wa_id name _ _ _ _ _ _)
  Quietly-handle (media_message w name id type media_id caption) h =
      subst (λ x. Quietly (handle_media_message v x name id type media_id caption))
        (sym ((eq_iff w wa_id).0 h)) (listens v sends wa_id name _ _ _ _ _ _)
  Quietly-handle (unsupported_message w name id type) h =
      subst (λ x. Quietly (handle_unsupported_message v x name id type))
        (sym ((eq_iff w wa_id).0 h)) (listens_unsupported v sends wa_id name id type)
  Quietly-handle (stale_message w name id type content) h = absurd (cc h)
  Quietly-handle (status_update id status) h = absurd (cc h)
  Quietly-handle (channel_events es) h = absurd (cc h)

-- While the customer's active session is in the hands of a person, an attempt at a delivery of one
-- of the customer's messages sends nothing: no answer, no refusal and no handoff.
pub attempt_leaves_to_human :
    (v : Service) (d : Delivery) (w : World) (wa_id : String) (user : User) (c : Conversation)
    → customer v wa_id w.committed ≡ some user
    → active_for_user user.id w.committed ≡ some c
    → is_human c.mode ≡ true
    → comes_from wa_id d ≡ true
    → (attempt v d w).1.wire ≡ w.wire
unfolding attempt
attempt_leaves_to_human v d w wa_id user c known active by_person from =
    let start : At (Human v wa_id w.wire) (record w { current = w.committed }) = record {
      user = user;
      session = c;
      is_known = known;
      is_open = active;
      by_person = by_person;
      silent = refl;
    } in
    Leads-At (λ a. Silent w.wire) (Silent w.wire) _ (λ a x y z h. h) (λ x y z h. h)
      (Quietly-handle v w.wire wa_id d from) _ start
