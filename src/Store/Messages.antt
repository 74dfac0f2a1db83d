-- ===== src/Store/Messages.antt =====
-- app/repositories/message.py and `AILogRepository.create` of app/repositories/ai_log.py, as
-- functions from a database to a result and the database after the statement. `now` is the
-- server's clock. The unique indexes are on `wa_message_id` and on `reply_to_wa_message_id`; a
-- null never conflicts. `none` as the result of a plain insert or update means that the statement
-- violates the first index, and raises.
pub mod Laws
use whatsapp_ai_bot.Prelude.{
  ℕ, suc, String, Bool, false, not, ◌&&◌, List, ◌∷◌, map, reverse, Option, none, some, ◌==◌,
  if◌then◌else◌, select, any, update_where, latest, take, str_eq,
}
use whatsapp_ai_bot.Store.Rows.{Db, Message, AiLog, inbound, outbound, is_inbound}

abbrev pub pending : String
pending = "pending"

abbrev pub sent : String
sent = "sent"

abbrev pub unconfirmed : String
unconfirmed = "unconfirmed"

-- A nullable text column equals a given text.
abbrev pub holds : Option String → String → Bool
holds none t = false
holds (some s) t = str_eq s t

unfoldable pub stored : String → Db → Bool
stored wa_message_id db = any (λ m. holds m.wa_message_id wa_message_id) db.messages

unfoldable pub reserved : String → Db → Bool
reserved reply_to db = any (λ m. holds m.reply_to_wa_message_id reply_to) db.messages

unfoldable pub insert_message : Message → Db → Db
insert_message m db = record db { messages = m ∷ db.messages; next_message = suc db.next_message }

-- Another row than the one with this id has the provider id.
unfoldable pub taken : Option String → ℕ → Db → Bool
taken none id db = false
taken (some t) id db = any (λ m. not (m.id == id) && holds m.wa_message_id t) db.messages

-- `create`, as its callers use it: for an outbound text.
unfoldable pub create : ℕ → ℕ → String → Option String → String → Db → Option Db
unfolding insert_message taken
create now conversation_id content wa_message_id status db =
    if taken wa_message_id db.next_message db
    then none
    else some (
        insert_message
          (record {
            id = db.next_message;
            conversation_id = conversation_id;
            wa_message_id = wa_message_id;
            reply_to_wa_message_id = none;
            direction = outbound;
            type = "text";
            content = some content;
            media_id = none;
            status = some status;
            created_at = now;
          })
          db)

unfoldable pub claim_inbound :
    ℕ → ℕ → String → String → Option String → Option String → Db → Option ℕ × Db
unfolding insert_message
claim_inbound now conversation_id wa_message_id type content media_id db =
    if stored wa_message_id db then (none, db) else (
      some db.next_message,
      insert_message
          (record {
            id = db.next_message;
            conversation_id = conversation_id;
            wa_message_id = some wa_message_id;
            reply_to_wa_message_id = none;
            direction = inbound;
            type = type;
            content = content;
            media_id = media_id;
            status = none;
            created_at = now;
          })
          db,
    )

-- `reserve_reply`, with the type that its caller gives.
abbrev pub reserve_typed : String → ℕ → ℕ → String → String → Db → Option ℕ × Db
reserve_typed type now conversation_id reply_to content db =
    if reserved reply_to db then (none, db) else (
      some db.next_message,
      insert_message
          (record {
            id = db.next_message;
            conversation_id = conversation_id;
            wa_message_id = none;
            reply_to_wa_message_id = some reply_to;
            direction = outbound;
            type = type;
            content = some content;
            media_id = none;
            status = some pending;
            created_at = now;
          })
          db,
    )

unfoldable pub reserve_reply : ℕ → ℕ → String → String → Db → Option ℕ × Db
unfolding insert_message
reserve_reply now conversation_id reply_to content db =
    reserve_typed "text" now conversation_id reply_to content db

unfoldable pub confirm_reply : ℕ → Option String → String → Db → Option Db
unfolding taken
confirm_reply message_id wa_message_id status db =
    if taken wa_message_id message_id db
    then none
    else some (record db {
      messages =
          update_where (λ m. m.id == message_id)
            (λ m. record m { wa_message_id = wa_message_id; status = some status }) db.messages;
    })

unfoldable pub update_status_by_wa_id : String → String → Db → Db
update_status_by_wa_id wa_message_id status db = record db {
  messages =
      update_where (λ m. holds m.wa_message_id wa_message_id)
        (λ m. record m { status = some status }) db.messages;
}

-- `recent`: the rows are newest first, as `ORDER BY created_at DESC` gives them.
unfoldable pub recent : ℕ → ℕ → Db → List Message
recent conversation_id limit db =
    reverse (take limit (select (λ m. m.conversation_id == conversation_id) db.messages))

unfoldable pub last_inbound_at : ℕ → Db → Option ℕ
last_inbound_at conversation_id db =
    latest (λ t. t)
      (map (λ m. m.created_at)
        (select (λ m. m.conversation_id == conversation_id && is_inbound m.direction) db.messages))

-- `AILogRepository.create`
unfoldable pub create_ai_log : AiLog → Db → Db
create_ai_log log db = record db { ai_logs = log ∷ db.ai_logs }
