-- ===== src/Auth/Lifecycle/Steps.antt =====
-- One call of app/services/auth_service.py on the state of a token.
use whatsapp_ai_bot.Prelude.{
  ℕ, ◌+◌, ◌≤◌, String, Bool, true, false, not, ◌||◌, Option, none, some, ◌==◌, ◌≡◌, refl, ◌∙◌, ap,
  sym, if◌then◌else◌, find, any, str_eq, Bool-cases, inl, inr, Option-match,
}
use text.Mathlib.TextPositions.{eq_refl}
use whatsapp_ai_bot.Auth.{
  Operator, OperatorSession, Accounts, Crypto, is_unset, is_stale, is_valid, get_by_username,
  can_log_in, start_session, login, session_for, update_session, holder_of, resolve, revoke,
  password_ok, session_ttl,
}
use whatsapp_ai_bot.Auth.Revocation.{sessions_of}
use whatsapp_ai_bot.Auth.Lifecycle.{
  TokenCall, log_in, use_token, log_out, purge, Session, state_of, token_state, after_log_in,
  after_log_out, admitted, next_state, run_token_call,
}
use whatsapp_ai_bot.Auth.Lifecycle.Rows.{
  has_hash, state-updated, state-purged, any-find-none, any-find-some,
}

abbrev pub after-taken : ℕ → ℕ → OperatorSession → Type 0
after-taken now operator s =
    after_log_in now (some operator) (state_of (some s)) ≡ state_of (some s)

taken_lem : (now operator : ℕ) (s : OperatorSession) → after-taken now operator s
taken_lem now operator s = elim (Bool-cases (is_unset s.revoked_at)) [
  | inl e ↦ rw e refl
  | inr e ↦ rw e refl
]

module _ (c : Crypto) (token : String) where
  abbrev hash : String
  hash = c.hash_token token

  abbrev pub after_start : ℕ → Operator → Bool → Accounts → Option (Operator × ℕ) × Accounts
  after_start now o taken db =
      if taken then (none, db) else (some (o, now + session_ttl), start_session c now token o db)

  state-start :
      (now : ℕ) (o : Operator) (db : Accounts) (found : Session)
      → find (has_hash hash) db.sessions ≡ found
      → token_state hash (after_start now o (any (has_hash hash) db.sessions) db).1
        ≡ after_log_in now (some o.id) (state_of found)
  unfolding token_state start_session find
  state-start now o db none e =
      rw (any-find-none hash db.sessions e) (rw (eq_refl (c.hash_token token)) refl)
  state-start now o db (some s) e =
      rw (any-find-some hash db.sessions s e) (ap state_of e ∙ sym (taken_lem now o.id s))

  state-admitted :
      (now : ℕ) (o : Operator) (refused : Bool) (db : Accounts)
      → token_state hash
          (if refused then (none, db) else after_start now o (any (has_hash hash) db.sessions) db).1
        ≡ after_log_in now (if refused then none else some o.id) (token_state hash db)
  unfolding token_state
  state-admitted now o true db = refl
  state-admitted now o false db = state-start now o db (find (has_hash hash) db.sessions) refl

  abbrev pub rejected : String → Operator → Bool
  rejected password o = not (password_ok c (some o) password) || not (can_log_in c o)

  abbrev login_of : ℕ → String → Accounts → Option Operator → Option (Operator × ℕ) × Accounts
  login_of now password db found = elim found [
    | none ↦ (none, db)
    | some o ↦
        if rejected password o
        then (none, db)
        else after_start now o (any (has_hash hash) db.sessions) db
  ]

  abbrev admission_of : String → Option Operator → Option ℕ
  admission_of password found = elim found [
    | none ↦ none
    | some o ↦ if rejected password o then none else some o.id
  ]

  state-found :
      (now : ℕ) (password : String) (db : Accounts) (found : Option Operator)
      → token_state hash (login_of now password db found).1
        ≡ after_log_in now (admission_of password found) (token_state hash db)
  state-found now password db none = refl
  state-found now password db (some o) = state-admitted now o (rejected password o) db

  state-log_in :
      (now : ℕ) (username password : String) (db : Accounts)
      → token_state hash (login c now token username password db).1
        ≡ after_log_in now (admitted c username password db) (token_state hash db)
  unfolding login admitted
  state-log_in now username password db = state-found now password db (get_by_username username db)

  found-session :
      (b : Bool) (o : Session) (s : OperatorSession) → (if b then none else o) ≡ some s → o ≡ some s
  found-session true o s e = absurd (cc e)
  found-session false o s e = e

  -- A token in use: `resolve` changes when the session was last used.
  state-touched :
      (now : ℕ) (s : OperatorSession) (db : Accounts) (stale : Bool)
      → find (has_hash hash) db.sessions ≡ some s
      → token_state hash (
          if stale
          then update_session c s.id (λ r. record r { last_used_at = some now }) db
          else db)
        ≡ token_state hash db
  unfolding token_state
  state-touched now s db false e = refl
  state-touched now s db true e =
      ap state_of
        (state-updated hash (λ r. record r { last_used_at = some now }) db s (λ r. refl) e)
      ∙ sym (ap state_of e)

  state-held :
      (now : ℕ) (s : OperatorSession) (holder : Option Operator) (db : Accounts)
      → find (has_hash hash) db.sessions ≡ some s
      → token_state hash (holder_of c now s holder db).1 ≡ token_state hash db
  state-held now s none db e = refl
  state-held now s (some o) db e = elim (Bool-cases o.is_active) [
    | inr a ↦ rw a refl
    | inl a ↦ rw a (state-touched now s db (is_stale now s.last_used_at) e)
  ]

  state-use :
      (now : ℕ) (db : Accounts) → token_state hash (resolve c now token db).1 ≡ token_state hash db
  unfolding resolve session_for
  state-use now db =
      Option-match (λ x. token_state hash x.1 ≡ token_state hash db) (session_for c token db)
        (none, db)
        (λ s.
          if is_valid now s
          then holder_of c now s (find (λ o. o.id == s.operator_id) db.operators) db
          else (none, db))
        (λ e. refl)
        (λ s e. elim (Bool-cases (is_valid now s)) [
          | inl v ↦ rw v (
              state-held now s (find (λ o. o.id == s.operator_id) db.operators) db
                (found-session (str_eq token "") (find (has_hash hash) db.sessions) s e))
          | inr v ↦ rw v refl
        ])

  abbrev revoke_of : ℕ → Accounts → Session → Bool × Accounts
  revoke_of now db found = elim found [
    | none ↦ (false, db)
    | some s ↦
        if is_unset s.revoked_at
        then (true, update_session c s.id (λ r. record r { revoked_at = some now }) db)
        else (false, db)
  ]

  state-revoked :
      (now : ℕ) (db : Accounts) (found : Session)
      → find (has_hash hash) db.sessions ≡ found
      → token_state hash (revoke_of now db found).1 ≡ after_log_out (state_of found)
  unfolding token_state
  state-revoked now db none e = ap state_of e
  state-revoked now db (some s) e = elim (Bool-cases (is_unset s.revoked_at)) [
    | inr r ↦ rw r (ap state_of e ∙ rw r refl)
    | inl r ↦ rw r (
        ap state_of
          (state-updated hash (λ q. record q { revoked_at = some now }) db s (λ q. refl) e))
  ]

  state-searched :
      (now : ℕ) (db : Accounts) (unset : Bool)
      → unset ≡ false
      → token_state hash
          (revoke_of now db (if unset then none else find (has_hash hash) db.sessions)).1
        ≡ after_log_out (token_state hash db)
  unfolding token_state
  state-searched now db true e = absurd (cc e)
  state-searched now db false e = state-revoked now db (find (has_hash hash) db.sessions) refl

  state-log_out :
      (now : ℕ) (db : Accounts)
      → str_eq token "" ≡ false
      → token_state hash (revoke c now token db).1 ≡ after_log_out (token_state hash db)
  unfolding revoke session_for
  state-log_out now db given = state-searched now db (str_eq token "") given

  -- The state machine and the tables take the same step on every call.
  pub token_steps :
      (call : TokenCall) (db : Accounts)
      → str_eq token "" ≡ false
      → sessions_of (c.hash_token token) db ≤ 1
      → token_state (c.hash_token token) (run_token_call c token call db)
        ≡ next_state c call db (token_state (c.hash_token token) db)
  unfolding run_token_call next_state token_state
  token_steps (log_in now username password) db given le = state-log_in now username password db
  token_steps (use_token now) db given le = state-use now db
  token_steps (log_out now) db given le = state-log_out now db given
  token_steps (purge now) db given le =
      state-purged (c.hash_token token) now (find (has_hash hash) db.sessions) db le refl
