-- ===== src/Auth/Lifecycle/Runs.antt =====
-- Sequences of calls of app/services/auth_service.py with one token.
use whatsapp_ai_bot.Prelude.{
  ℕ, ◌≤◌, String, Bool, true, false, List, [], ◌∷◌, Option, none, some, ◌==◌, ◌≡◌, refl, ◌∙◌, ap,
  ltb, if◌then◌else◌, find, str_eq, Bool-cases, inl, inr,
}
use whatsapp_ai_bot.Auth.{
  Operator, OperatorSession, Accounts, Crypto, is_unset, is_valid, session_for, holder_of, resolve,
}
use whatsapp_ai_bot.Auth.Revocation.{sessions_of}
use whatsapp_ai_bot.Auth.Lifecycle.{
  TokenCall, Session, state_of, token_state, run_token_call, active_of, answer, run_token_calls,
  follow,
}
use whatsapp_ai_bot.Auth.Lifecycle.Rows.{has_hash}
use whatsapp_ai_bot.Auth.Lifecycle.Steps.{token_steps}
use whatsapp_ai_bot.Auth.Lifecycle.Few.{few_kept}

module _ (c : Crypto) (token : String) where
  answer-holder :
      (now : ℕ) (s : OperatorSession) (o : Option Operator) (db : Accounts)
      → (holder_of c now s o db).0 ≡ active_of o
  answer-holder now s none db = refl
  answer-holder now s (some o) db = elim (Bool-cases o.is_active) [
    | inl e ↦ rw e refl
    | inr e ↦ rw e refl
  ]

  resolve_of : ℕ → Accounts → Session → Option Operator × Accounts
  resolve_of now db found = elim found [
    | none ↦ (none, db)
    | some s ↦
        if is_valid now s
        then holder_of c now s (find (λ o. o.id == s.operator_id) db.operators) db
        else (none, db)
  ]

  answer-resolved :
      (now : ℕ) (db : Accounts) (found : Session)
      → (resolve_of now db found).0 ≡ answer now db (state_of found)
  unfolding answer is_valid resolve_of
  answer-resolved now db none = refl
  answer-resolved now db (some s) = elim (Bool-cases (is_unset s.revoked_at)) [
    | inr e ↦ rw e refl
    | inl e ↦ elim (Bool-cases (ltb now s.expires_at)) [
      | inr l ↦ rw (e, l) refl
      | inl l ↦ rw (e, l) (answer-holder now s (find (λ o. o.id == s.operator_id) db.operators) db)
    ]
  ]

  answer-searched :
      (now : ℕ) (db : Accounts) (unset : Bool)
      → unset ≡ false
      → (resolve_of now db
          (if unset then none else find (has_hash (c.hash_token token)) db.sessions)).0
        ≡ answer now db (token_state (c.hash_token token) db)
  unfolding token_state
  answer-searched now db true e = absurd (cc e)
  answer-searched now db false e =
      answer-resolved now db (find (has_hash (c.hash_token token)) db.sessions)

  resolve-answer :
      (now : ℕ) (db : Accounts)
      → str_eq token "" ≡ false
      → (resolve c now token db).0 ≡ answer now db (token_state (c.hash_token token) db)
  unfolding resolve session_for resolve_of
  resolve-answer now db given = answer-searched now db (str_eq token "") given

  run-follow :
      (calls : List TokenCall) (db : Accounts)
      → str_eq token "" ≡ false
      → sessions_of (c.hash_token token) db ≤ 1
      → token_state (c.hash_token token) (run_token_calls c token calls db)
        ≡ follow c token calls db (token_state (c.hash_token token) db)
  unfolding run_token_calls follow
  run-follow [] db given le = refl
  run-follow (call ∷ calls) db given le =
      run-follow calls (run_token_call c token call db) given (few_kept c token call db le)
      ∙ ap (follow c token calls (run_token_call c token call db))
          (token_steps c token call db given le)

-- From tables with at most one session of a token's hash, any calls with that token (logins, uses,
-- logouts and purges, each at its own time) leave the token in the state that the state machine
-- reaches, and `resolve` then answers the operator whom that state admits: the active holder before
-- the expiry of a session that was not ended, and nobody otherwise.
pub token_lifecycle :
    (c : Crypto) (token : String) (calls : List TokenCall) (now : ℕ) (db : Accounts)
    → str_eq token "" ≡ false
    → sessions_of (c.hash_token token) db ≤ 1
    → (token_state (c.hash_token token) (run_token_calls c token calls db)
        ≡ follow c token calls db (token_state (c.hash_token token) db))
      × ((resolve c now token (run_token_calls c token calls db)).0
          ≡ answer now
              (run_token_calls c token calls db)
              (follow c token calls db (token_state (c.hash_token token) db)))
token_lifecycle c token calls now db given le =
    let followed = run-follow c token calls db given le in
    let after = run_token_calls c token calls db in
    (followed, resolve-answer c token now after given ∙ ap (answer now after) followed)
