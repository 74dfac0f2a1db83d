-- ===== src/Store/Messages/Laws.antt =====
-- How the statements of app/repositories/message.py change which messages are stored, and which are
-- answered.
use text.Mathlib.TextPositions.{eq_refl}
use whatsapp_ai_bot.Prelude.{
  ℕ, String, true, false, ◌||◌, Option, some, ◌≡◌, refl, arith, any, any-update_where, ◌==◌,
}
use whatsapp_ai_bot.Store.Rows.{Db, Message}
use whatsapp_ai_bot.Store.Messages.{
  holds, reserved, insert_message, create, claim_inbound, reserve_typed, reserve_reply,
  confirm_reply, update_status_by_wa_id,
}

module _ (m : String) where
  pub reserved-insert_message :
      (x : Message) (db : Db)
      → reserved m (insert_message x db) ≡ (holds x.reply_to_wa_message_id m || reserved m db)
  unfolding reserved insert_message any
  reserved-insert_message x db = refl

  pub reserved-create :
      (t c : ℕ) (content : String) (wa : Option String) (status : String) (db db' : Db)
      → create t c content wa status db ≡ some db'
      → reserved m db' ≡ reserved m db
  unfolding reserved create any
  reserved-create t c content wa status db db' h = ground arith

  pub reserved-claim_inbound :
      (t c : ℕ) (wa type : String) (content media : Option String) (db : Db)
      → reserved m (claim_inbound t c wa type content media db).1 ≡ reserved m db
  unfolding reserved claim_inbound any
  reserved-claim_inbound t c wa type content media db = ground arith

  pub reserved-confirm_reply :
      (id : ℕ) (wa : Option String) (status : String) (db db' : Db)
      → confirm_reply id wa status db ≡ some db'
      → reserved m db' ≡ reserved m db
  unfolding reserved confirm_reply
  reserved-confirm_reply id wa status db db' h = ground (
    arith,
    any-update_where (λ x. holds x.reply_to_wa_message_id m) (λ x. x.id == id)
        (λ x. record x { wa_message_id = wa; status = some status }) db.messages (λ x. refl),
  )

  pub reserved-update_status :
      (wa status : String) (db : Db)
      → reserved m (update_status_by_wa_id wa status db) ≡ reserved m db
  unfolding reserved update_status_by_wa_id
  reserved-update_status wa status db =
      any-update_where (λ x. holds x.reply_to_wa_message_id m) (λ x. holds x.wa_message_id wa)
        (λ x. record x { status = some status }) db.messages (λ x. refl)

  -- A reservation keeps those that there were.
  pub reserved-reserve_reply :
      (t c : ℕ) (reply_to content : String) (db : Db)
      → reserved m db ≡ true
      → reserved m (reserve_reply t c reply_to content db).1 ≡ true
  unfolding reserved reserve_reply any
  reserved-reserve_reply t c reply_to content db h = ground arith

-- A reservation is given only where there was none, and is then there.
pub reserve_reply_fresh :
    (t c : ℕ) (reply_to content : String) (db : Db) (id : ℕ)
    → (reserve_reply t c reply_to content db).0 ≡ some id
    → reserved reply_to db ≡ false
unfolding reserve_reply
reserve_reply_fresh t c reply_to content db id h = ground arith

pub reserve_reply_taken :
    (t c : ℕ) (reply_to content : String) (db : Db) (id : ℕ)
    → (reserve_reply t c reply_to content db).0 ≡ some id
    → reserved reply_to (reserve_reply t c reply_to content db).1 ≡ true
unfolding reserve_reply reserved any
reserve_reply_taken t c reply_to content db id h = ground (arith, eq_refl reply_to)

-- The same for a reservation of any type.
module _ (type : String) (t c : ℕ) (reply_to content : String) (db : Db) where
  pub reserved-reserve_typed :
      (m : String)
      → reserved m db ≡ true
      → reserved m (reserve_typed type t c reply_to content db).1 ≡ true
  unfolding reserved insert_message any
  reserved-reserve_typed m h = ground arith

  pub reserve_typed_fresh :
      (id : ℕ)
      → (reserve_typed type t c reply_to content db).0 ≡ some id
      → reserved reply_to db ≡ false
  reserve_typed_fresh id h = ground arith

  pub reserve_typed_taken :
      (id : ℕ)
      → (reserve_typed type t c reply_to content db).0 ≡ some id
      → reserved reply_to (reserve_typed type t c reply_to content db).1 ≡ true
  unfolding reserved insert_message any
  reserve_typed_taken id h = ground (arith, eq_refl reply_to)
