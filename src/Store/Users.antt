-- ===== src/Store/Users.antt =====
-- app/repositories/user.py, and `idle_targets` of app/repositories/conversation.py, which joins the
-- customer's row. `none` is the `ConflictError`.
use whatsapp_ai_bot.Prelude.{
  ℕ, suc, String, Bool, ◌&&◌, ◌||◌, List, [], ◌∷◌, Option, none, some, ◌==◌, if◌then◌else◌, find,
  any, update_where, str_eq,
}
use whatsapp_ai_bot.Store.Rows.{Db, User, Conversation, whatsapp}
use whatsapp_ai_bot.Store.Messages.{holds}

unfoldable pub get_by_wa_id : String → Db → Option User
get_by_wa_id wa_id db = find (λ u. holds u.wa_id wa_id) db.users

unfoldable pub is_identity : String → String → User → Bool
is_identity channel external_id u = str_eq u.channel channel && str_eq u.external_id external_id

unfoldable pub get_by_channel_id : String → String → Db → Option User
unfolding is_identity
get_by_channel_id channel external_id db = find (is_identity channel external_id) db.users

unfoldable pub insert_user : String → String → Option String → Option String → Db → Db
insert_user channel external_id wa_id name db = record db {
  users =
      record {
        id = db.next_user;
        channel = channel;
        external_id = external_id;
        wa_id = wa_id;
        name = name;
      }
      ∷ db.users;
  next_user = suc db.next_user;
}

-- `if name and user.name != name: user.name = name`
unfoldable pub rename : Option String → User → Db → User × Db
rename none u db = (u, db)
rename (some name) u db = if str_eq name "" || holds u.name name then (u, db) else (
  record u { name = some name },
  record db {
    users = update_where (λ v. v.id == u.id) (λ v. record v { name = some name }) db.users;
  },
)

unfoldable pub finish : Option String → Option User → Db → Option User × Db
unfolding rename
finish name none db = (none, db)
finish name (some u) db = let (u', db') = rename name u db in (some u', db')

-- `get_or_create`: the insert names no index, so a conflict on either drops it.
unfoldable pub get_or_create : String → Option String → Db → Option User × Db
unfolding get_by_wa_id is_identity insert_user finish
get_or_create wa_id name db = elim (get_by_wa_id wa_id db) [
  | some u ↦ finish name (some u) db
  | none ↦
      let db' =
        if any (is_identity whatsapp wa_id) db.users
        then db
        else insert_user whatsapp wa_id (some wa_id) name db in
      finish name (get_by_wa_id wa_id db') db'
]

unfoldable pub get_or_create_by_channel : String → String → Option String → Db → Option User × Db
unfolding get_by_channel_id insert_user finish
get_or_create_by_channel channel external_id name db =
    elim (get_by_channel_id channel external_id db) [
      | some u ↦ finish name (some u) db
      | none ↦
          let db' = insert_user channel external_id none name db in
          finish name (get_by_channel_id channel external_id db') db'
    ]

-- The `IdleSession` of a claimed row: `external_id or wa_id` of its customer.
pub record IdleSession : Type 0 where
  pub conversation_id : ℕ
  pub channel : String
  pub recipient_id : Option String

unfoldable pub recipient_id : User → Option String
recipient_id u = if str_eq u.external_id "" then u.wa_id else some u.external_id

abbrev pub target_of : Conversation → Option User → List IdleSession → List IdleSession
target_of c none rest = rest
target_of c (some u) rest =
    record { conversation_id = c.id; channel = c.channel; recipient_id = recipient_id u } ∷ rest

unfoldable pub idle_targets : List ℕ → Db → List Conversation → List IdleSession
unfolding recipient_id
idle_targets ids db [] = []
idle_targets ids db (c ∷ cs) =
    let rest = idle_targets ids db cs in
    if any (λ id. c.id == id) ids
    then target_of c (find (λ u. u.id == c.user_id) db.users) rest
    else rest
