-- ===== src/Auth/Lifecycle.antt =====
-- A session token of app/services/auth_service.py as a state machine: absent, held by an operator until
-- it expires, or ended. The service implements it.
pub mod Rows
pub mod Steps
pub mod Few
pub mod Runs
use whatsapp_ai_bot.Prelude.{
  ℕ, suc, ◌+◌, ◌≤◌, String, Bool, true, false, not, ◌&&◌, ◌||◌, List, [], ◌∷◌, Option, none, some,
  ◌==◌, ◌≡◌, refl, ◌∙◌, ap, sym, subst, arith, ltb, if◌then◌else◌, select, find, any, update_where,
  length, str_eq, Bool-cases, inl, inr, Option-elim, Option-match, Option-cases,
}
use text.Mathlib.TextPositions.{eq_refl}
use whatsapp_ai_bot.Auth.{
  Operator, OperatorSession, Accounts, Crypto, is_unset, is_stale, is_valid, get_by_username,
  can_log_in, start_session, login, session_for, update_session, holder_of, resolve, revoke,
  purge_expired_sessions, password_ok, session_ttl,
}
use whatsapp_ai_bot.Auth.Revocation.{sessions_of}

pub data TokenState : Type 0 where
  absent : TokenState
  held : ℕ → ℕ → TokenState
  ended : ℕ → TokenState

-- The calls that concern one token.
pub data TokenCall : Type 0 where
  log_in : ℕ → String → String → TokenCall
  use_token : ℕ → TokenCall
  log_out : ℕ → TokenCall
  purge : ℕ → TokenCall

abbrev pub Session : Type 0
Session = Option OperatorSession

abbrev pub state_of : Session → TokenState
state_of none = absent
state_of (some s) =
    if is_unset s.revoked_at then held s.operator_id s.expires_at else ended s.expires_at

-- What the tables say of the token.
unfoldable pub token_state : String → Accounts → TokenState
token_state h db = state_of (find (λ s. str_eq s.token_hash h) db.sessions)

-- The state machine. A login is admitted, with the operator, or it is not.
abbrev pub after_log_in : ℕ → Option ℕ → TokenState → TokenState
after_log_in now (some operator) absent = held operator (now + session_ttl)
after_log_in now admitted state = state

abbrev pub after_log_out : TokenState → TokenState
after_log_out (held operator expires_at) = ended expires_at
after_log_out state = state

abbrev pub after_purge : ℕ → TokenState → TokenState
after_purge now absent = absent
after_purge now (held operator expires_at) =
    if ltb expires_at now then absent else held operator expires_at
after_purge now (ended expires_at) = if ltb expires_at now then absent else ended expires_at

module _ (c : Crypto) where
  -- Whom a username and a password admit.
  unfoldable pub admitted : String → String → Accounts → Option ℕ
  admitted username password db = elim (get_by_username username db) [
    | none ↦ none
    | some o ↦
        if not (password_ok c (some o) password) || not (can_log_in c o) then none else some o.id
  ]

  unfoldable pub next_state : TokenCall → Accounts → TokenState → TokenState
  unfolding admitted
  next_state (log_in now username password) db state =
      after_log_in now (admitted username password db) state
  next_state (use_token now) db state = state
  next_state (log_out now) db state = after_log_out state
  next_state (purge now) db state = after_purge now state

  unfoldable pub run_token_call : String → TokenCall → Accounts → Accounts
  run_token_call token (log_in now username password) db =
      (login c now token username password db).1
  run_token_call token (use_token now) db = (resolve c now token db).1
  run_token_call token (log_out now) db = (revoke c now token db).1
  run_token_call token (purge now) db = (purge_expired_sessions now db).1

-- Whom the state admits.
abbrev pub active_of : Option Operator → Option Operator
active_of none = none
active_of (some o) = if not o.is_active then none else some o

unfoldable pub answer : ℕ → Accounts → TokenState → Option Operator
answer now db absent = none
answer now db (held operator expires_at) =
    if ltb now expires_at then active_of (find (λ o. o.id == operator) db.operators) else none
answer now db (ended expires_at) = none

module _ (c : Crypto) where
  unfoldable pub run_token_calls : String → List TokenCall → Accounts → Accounts
  run_token_calls token [] db = db
  run_token_calls token (call ∷ calls) db =
      run_token_calls token calls (run_token_call c token call db)

  -- The states of the machine, with the calls' logins admitted by the tables of their time.
  unfoldable pub follow : String → List TokenCall → Accounts → TokenState → TokenState
  follow token [] db state = state
  follow token (call ∷ calls) db state =
      follow token calls (run_token_call c token call db) (next_state c call db state)
