-- ===== src/Auth.antt =====
-- app/services/auth_service.py on the tables of app/models/operator.py: operators who log in, and their
-- sessions. The hashes, the check of a password and the random token are parameters; what a session
-- records of the browser is left out. Times are seconds.
pub mod Revocation
pub mod Lifecycle
use whatsapp_ai_bot.Prelude.{
  ℕ, zero, suc, ◌+◌, String, Bool, true, false, not, ◌&&◌, ◌||◌, List, [], ◌∷◌, Option, none, some,
  ◌==◌, ltb, if◌then◌else◌, select, find, any, update_where, length, str_eq,
}

pub record Operator : Type 0 where
  pub id : ℕ
  pub username : String
  pub display_name : String
  pub password_hash : String
  pub is_active : Bool
  pub is_admin : Bool
  pub last_login_at : Option ℕ

pub record OperatorSession : Type 0 where
  pub id : ℕ
  pub operator_id : ℕ
  pub token_hash : String
  pub expires_at : ℕ
  pub revoked_at : Option ℕ
  pub last_used_at : Option ℕ

pub record Accounts : Type 0 where
  pub operators : List Operator
  pub sessions : List OperatorSession
  pub next_operator : ℕ
  pub next_session : ℕ

-- app/core/passwords.py and Python's hashlib.
pub record Crypto : Type 0 where
  pub hash_token : String → String
  pub hash_password : String → String
  pub verify_password : String → String → Bool
  pub dummy_hash : String
  pub unusable_password_hash : String

-- `SESSION_TTL` and `_LAST_USED_RESOLUTION`
abbrev pub session_ttl : ℕ
session_ttl = 43200

abbrev pub last_used_resolution : ℕ
last_used_resolution = 60

abbrev pub is_unset : Option ℕ → Bool
is_unset none = true
is_unset (some t) = false

-- `OperatorSession.is_valid`
unfoldable pub is_valid : ℕ → OperatorSession → Bool
is_valid now s = is_unset s.revoked_at && ltb now s.expires_at

unfoldable pub get_by_username : String → Accounts → Option Operator
get_by_username username db = find (λ o. str_eq o.username username) db.operators

-- `if now - session.last_used_at > _LAST_USED_RESOLUTION`
abbrev pub is_stale : ℕ → Option ℕ → Bool
is_stale now none = true
is_stale now (some t) = ltb (t + last_used_resolution) now

module _ (c : Crypto) where
  -- `Operator.can_log_in`
  unfoldable pub can_log_in : Operator → Bool
  can_log_in o = o.is_active && not (str_eq o.password_hash c.unusable_password_hash)

  -- `create_operator`; the username is unique, and a second one raises.
  unfoldable pub create_operator : String → String → String → Bool → Accounts → Accounts
  create_operator username password display_name is_admin db =
      if any (λ o. str_eq o.username username) db.operators then db else record db {
        operators =
            record {
              id = db.next_operator;
              username = username;
              display_name = display_name;
              password_hash = c.hash_password password;
              is_active = true;
              is_admin = is_admin;
              last_login_at = none;
            }
            ∷ db.operators;
        next_operator = suc db.next_operator;
      }

  -- The row of a new session, and the time of the login.
  unfoldable pub start_session : ℕ → String → Operator → Accounts → Accounts
  start_session now token o db = record db {
    operators =
        update_where (λ p. p.id == o.id) (λ p. record p { last_login_at = some now }) db.operators;
    sessions =
        record {
          id = db.next_session;
          operator_id = o.id;
          token_hash = c.hash_token token;
          expires_at = now + session_ttl;
          revoked_at = none;
          last_used_at = none;
        }
        ∷ db.sessions;
    next_session = suc db.next_session;
  }

  abbrev pub password_ok : Option Operator → String → Bool
  password_ok none password = c.verify_password password c.dummy_hash
  password_ok (some o) password = c.verify_password password o.password_hash

  -- What `login` returns, or `none` for the `AuthenticationError`. The hash of a token is unique: a
  -- token that is in use already raises.
  unfoldable pub login : ℕ → String → String → String → Accounts → Option (Operator × ℕ) × Accounts
  unfolding get_by_username can_log_in start_session
  login now token username password db = elim (get_by_username username db) [
    | none ↦ (none, db)
    | some o ↦
        if not (password_ok (some o) password) || not (can_log_in o)
        then (none, db)
        else if any (λ s. str_eq s.token_hash (c.hash_token token)) db.sessions
        then (none, db)
        else (some (o, now + session_ttl), start_session now token o db)
  ]

  -- `_session_for`
  unfoldable pub session_for : String → Accounts → Option OperatorSession
  session_for token db =
      if str_eq token ""
      then none
      else find (λ s. str_eq s.token_hash (c.hash_token token)) db.sessions

  abbrev pub update_session : ℕ → (OperatorSession → OperatorSession) → Accounts → Accounts
  update_session id f db = record db { sessions = update_where (λ s. s.id == id) f db.sessions }

  -- The operator of a valid session, if the account is active.
  abbrev pub holder_of :
      ℕ → OperatorSession → Option Operator → Accounts → Option Operator × Accounts
  holder_of now s none db = (none, db)
  holder_of now s (some o) db = if not o.is_active then (none, db) else (
    some o,
    if is_stale now s.last_used_at
        then update_session s.id (λ r. record r { last_used_at = some now }) db
        else db,
  )

  unfoldable pub resolve : ℕ → String → Accounts → Option Operator × Accounts
  unfolding session_for is_valid
  resolve now token db = elim (session_for token db) [
    | none ↦ (none, db)
    | some s ↦
        if is_valid now s
        then holder_of now s (find (λ o. o.id == s.operator_id) db.operators) db
        else (none, db)
  ]

  unfoldable pub revoke : ℕ → String → Accounts → Bool × Accounts
  unfolding session_for
  revoke now token db = elim (session_for token db) [
    | none ↦ (false, db)
    | some s ↦
        if is_unset s.revoked_at
        then (true, update_session s.id (λ r. record r { revoked_at = some now }) db)
        else (false, db)
  ]

-- `purge_expired_sessions`
unfoldable pub purge_expired_sessions : ℕ → Accounts → ℕ × Accounts
purge_expired_sessions now db = (
  length (select (λ s. ltb s.expires_at now) db.sessions),
  record db { sessions = select (λ s. not (ltb s.expires_at now)) db.sessions },
)

-- A call of the service, at a moment.
pub data Call : Type 0 where
  create_call : String → String → String → Bool → Call
  login_call : ℕ → String → String → String → Call
  resolve_call : ℕ → String → Call
  revoke_call : ℕ → String → Call
  purge_call : ℕ → Call

unfoldable pub run_call : Crypto → Call → Accounts → Accounts
unfolding create_operator login resolve revoke purge_expired_sessions
run_call c (create_call username password name is_admin) db =
    create_operator c username password name is_admin db
run_call c (login_call now token username password) db = (login c now token username password db).1
run_call c (resolve_call now token) db = (resolve c now token db).1
run_call c (revoke_call now token) db = (revoke c now token db).1
run_call c (purge_call now) db = (purge_expired_sessions now db).1

unfoldable pub run_calls : Crypto → List Call → Accounts → Accounts
unfolding run_call
run_calls c [] db = db
run_calls c (call ∷ calls) db = run_calls c calls (run_call c call db)
