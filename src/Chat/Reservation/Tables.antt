-- ===== src/Chat/Reservation/Tables.antt =====
-- The statements on users and conversations leave the messages.
use whatsapp_ai_bot.Prelude.{
  ℕ, zero, suc, ◌-◌, String, Bool, true, false, Option, none, some, ◌≡◌, refl, ◌∙◌, arith,
  Option-elim, if◌then◌else◌, any, str_eq,
}
use whatsapp_ai_bot.Store.Rows.{Db, User, whatsapp}
use whatsapp_ai_bot.Store.Conversations
use whatsapp_ai_bot.Store.Users
use whatsapp_ai_bot.Chat.Handlers.{find_user}
use whatsapp_ai_bot.Chat.Service.{Service}

abbrev Same : {A : Type 0} → Db → A × Db → Type 0
Same db r = r.1.messages ≡ db.messages

pub messages-rename :
    (name : Option String) (u : User) (db : Db) → (Users.rename name u db).1.messages ≡ db.messages
unfolding Users.rename
messages-rename none u db = refl
messages-rename (some name) u db = ground arith

pub messages-finish :
    (name : Option String) (u : Option User) (db : Db)
    → (Users.finish name u db).1.messages ≡ db.messages
unfolding Users.finish
messages-finish name none db = refl
messages-finish name (some u) db = messages-rename name u db

if_same :
    (b : Bool) (x y : Db) → y.messages ≡ x.messages → (if b then x else y).messages ≡ x.messages
if_same true x y h = refl
if_same false x y h = h

pub messages-get_or_create :
    (wa_id : String) (name : Option String) (db : Db)
    → (Users.get_or_create wa_id name db).1.messages ≡ db.messages
unfolding Users.get_or_create Users.insert_user
messages-get_or_create wa_id name db =
    Option-elim (Same db) (Users.get_by_wa_id wa_id db) _ _
      (messages-finish name _ _
        ∙ if_same (any (Users.is_identity whatsapp wa_id) db.users) db
            (Users.insert_user whatsapp wa_id (some wa_id) name db) refl)
      (λ u. messages-finish name (some u) db)

pub messages-get_or_create_by_channel :
    (channel external_id : String) (name : Option String) (db : Db)
    → (Users.get_or_create_by_channel channel external_id name db).1.messages ≡ db.messages
unfolding Users.get_or_create_by_channel Users.insert_user
messages-get_or_create_by_channel channel external_id name db =
    Option-elim (Same db) (Users.get_by_channel_id channel external_id db) _ _
      (messages-finish name _ _) (λ u. messages-finish name (some u) db)

pub messages-revive : (t id : ℕ) (db : Db) → (Conversations.revive t id db).1.messages ≡ db.messages
unfolding Conversations.revive
messages-revive t id db = ground arith

messages-insert_active :
    (t user : ℕ) (channel : String) (db : Db)
    → (Conversations.insert_active t user channel db).1.messages ≡ db.messages
unfolding Conversations.insert_active
messages-insert_active t user channel db = ground arith

pub messages-open_new :
    (t user : ℕ) (channel : String) (db : Db)
    → (Conversations.open_new t user channel db).1.messages ≡ db.messages
unfolding Conversations.open_new
messages-open_new t user channel db =
    let same = messages-insert_active t user channel db in
    Option-elim (Same db) (Conversations.insert_active t user channel db).0 _ _ same (λ id.
      Option-elim (Same db) (Conversations.get id (Conversations.insert_active t user channel db).1)
        _ _ same (λ c. same))

pub messages-reopen_recent :
    (t user since : ℕ) (db : Db)
    → (Conversations.reopen_recent t user since db).1.messages ≡ db.messages
unfolding Conversations.reopen_recent
messages-reopen_recent t user since db =
    Option-elim (Same db) (Conversations.recently_closed user since db) _ _ refl (λ candidate.
      let same = messages-revive t candidate.id db in
      Option-elim (Same db) (Conversations.revive t candidate.id db).0 _ _ same (λ id. same))

pub messages-get_or_create_active :
    (t user : ℕ) (within : Option ℕ) (channel : String) (db : Db)
    → (Conversations.get_or_create_active t user within channel db).1.messages ≡ db.messages
unfolding Conversations.get_or_create_active
messages-get_or_create_active t user none channel db =
    Option-elim (Same db) (Conversations.active_for_user user db) _ _
      (messages-open_new t user channel db) (λ c. refl)
messages-get_or_create_active t user (some zero) channel db =
    Option-elim (Same db) (Conversations.active_for_user user db) _ _
      (messages-open_new t user channel db) (λ c. refl)
messages-get_or_create_active t user (some (suc n)) channel db =
    let looked = messages-reopen_recent t user (t - suc n) db in
    Option-elim (Same db) (Conversations.active_for_user user db) _ _
      (Option-elim (Same db) (Conversations.reopen_recent t user (t - suc n) db).0 _ _
        (messages-open_new t user channel _ ∙ looked) (λ c. looked))
      (λ c. refl)

both :
    {A : Type 0} (b : Bool) (db : Db) (x y : A × Db)
    → Same db x
    → Same db y
    → Same db (if b then x else y)
both true db x y hx hy = hx
both false db x y hx hy = hy

pub messages-find_user :
    (v : Service) (id : String) (name : Option String) (db : Db)
    → (find_user v id name db).1.messages ≡ db.messages
unfolding find_user
messages-find_user v id name db =
    both (str_eq v.channel whatsapp) db _ _ (messages-get_or_create id name db)
      (messages-get_or_create_by_channel v.channel id name db)
