-- ===== src/Auth/Lifecycle/Few.antt =====
-- The rows of one hash in the sessions of app/services/auth_service.py, over its calls.
use whatsapp_ai_bot.Prelude.{
  ℕ, ◌+◌, ◌≤◌, String, Bool, true, false, not, List, [], ◌∷◌, Option, none, some, ◌==◌, ◌≡◌, refl,
  sym, subst, arith, ltb, if◌then◌else◌, select, find, any, update_where, length, Bool-cases, inl,
  inr, Option-elim,
}
use text.Mathlib.TextPositions.{eq_refl}
use whatsapp_ai_bot.Auth.{
  Operator, OperatorSession, Accounts, Crypto, is_unset, is_stale, is_valid, get_by_username,
  start_session, login, session_for, update_session, holder_of, resolve, revoke,
  purge_expired_sessions, session_ttl,
}
use whatsapp_ai_bot.Auth.Revocation.{sessions_of}
use whatsapp_ai_bot.Auth.Lifecycle.{TokenCall, log_in, use_token, log_out, purge, run_token_call}
use whatsapp_ai_bot.Auth.Lifecycle.Rows.{has_hash, updated_hash}
use whatsapp_ai_bot.Auth.Lifecycle.Steps.{rejected, after_start}

module _ (c : Crypto) (token : String) where
  abbrev hash : String
  hash = c.hash_token token

  few_updated :
      (q : OperatorSession → Bool) (f : OperatorSession → OperatorSession)
      (ss : List OperatorSession)
      → ((r : OperatorSession) → has_hash hash (f r) ≡ has_hash hash r)
      → length (select (has_hash hash) (update_where q f ss)) ≡ length (select (has_hash hash) ss)
  unfolding select update_where
  few_updated q f [] g = refl
  few_updated q f (r ∷ rs) g = ground (arith, updated_hash hash q f r (g r), few_updated q f rs g)

  few_selected :
      (keep : OperatorSession → Bool) (ss : List OperatorSession)
      → length (select (has_hash hash) (select keep ss)) ≤ length (select (has_hash hash) ss)
  unfolding select
  few_selected keep [] = ground arith
  few_selected keep (r ∷ rs) = ground (arith, few_selected keep rs)

  none_selected :
      (ss : List OperatorSession)
      → any (has_hash hash) ss ≡ false
      → length (select (has_hash hash) ss) ≡ 0
  unfolding select any
  none_selected [] e = refl
  none_selected (r ∷ rs) e = ground (arith, e, none_selected rs)

  abbrev Few : {A : Type 0} → A × Accounts → Type 0
  Few x = sessions_of hash x.1 ≤ 1

  Few-if :
      {A : Type 0} (b : Bool) (x y : A × Accounts)
      → (b ≡ true → Few x)
      → (b ≡ false → Few y)
      → Few (if b then x else y)
  Few-if true x y hx hy = hx refl
  Few-if false x y hx hy = hy refl

  few-start :
      (now : ℕ) (o : Operator) (db : Accounts)
      → any (has_hash hash) db.sessions ≡ false
      → sessions_of hash (start_session c now token o db) ≤ 1
  unfolding sessions_of start_session select
  few-start now o db e =
      rw (eq_refl (c.hash_token token), none_selected db.sessions e) (ground arith)

  Few-log_in :
      (now : ℕ) (username password : String) (db : Accounts)
      → sessions_of hash db ≤ 1
      → Few (login c now token username password db)
  unfolding login
  Few-log_in now username password db le =
      Option-elim (Few) (get_by_username username db) (none, db)
        (λ o.
          if rejected c token password o
          then (none, db)
          else after_start c token now o (any (has_hash hash) db.sessions) db)
        le
        (λ o.
          Few-if (rejected c token password o) (none, db)
            (after_start c token now o (any (has_hash hash) db.sessions) db) (λ r. le)
            (λ r.
              Few-if (any (has_hash hash) db.sessions) (none, db)
                (some (o, now + session_ttl), start_session c now token o db) (λ t. le)
                (λ t. few-start now o db t)))

  few-update :
      (id : ℕ) (f : OperatorSession → OperatorSession) (db : Accounts)
      → ((r : OperatorSession) → has_hash hash (f r) ≡ has_hash hash r)
      → sessions_of hash db ≤ 1
      → sessions_of hash (update_session c id f db) ≤ 1
  unfolding sessions_of
  few-update id f db g le =
      subst (λ n. n ≤ 1) (sym (few_updated (λ s. s.id == id) f db.sessions g)) le

  Few-held :
      (now : ℕ) (s : OperatorSession) (holder : Option Operator) (db : Accounts)
      → sessions_of hash db ≤ 1
      → Few (holder_of c now s holder db)
  Few-held now s none db le = le
  Few-held now s (some o) db le = elim (Bool-cases o.is_active) [
    | inr a ↦ rw a le
    | inl a ↦ rw a (few_touched (is_stale now s.last_used_at))
  ]
    where
      few_touched :
          (b : Bool)
          → sessions_of hash (
              if b
              then update_session c s.id (λ r. record r { last_used_at = some now }) db
              else db)
            ≤ 1
      few_touched true =
          few-update s.id (λ r. record r { last_used_at = some now }) db (λ r. refl) le
      few_touched false = le

  Few-use : (now : ℕ) (db : Accounts) → sessions_of hash db ≤ 1 → Few (resolve c now token db)
  unfolding resolve
  Few-use now db le =
      Option-elim Few (session_for c token db) (none, db)
        (λ s.
          if is_valid now s
          then holder_of c now s (find (λ o. o.id == s.operator_id) db.operators) db
          else (none, db))
        le
        (λ s.
          Few-if (is_valid now s)
            (holder_of c now s (find (λ o. o.id == s.operator_id) db.operators) db) (none, db)
            (λ v. Few-held now s (find (λ o. o.id == s.operator_id) db.operators) db le) (λ v. le))

  Few-log_out : (now : ℕ) (db : Accounts) → sessions_of hash db ≤ 1 → Few (revoke c now token db)
  unfolding revoke
  Few-log_out now db le =
      Option-elim Few (session_for c token db) (false, db)
        (λ s.
          if is_unset s.revoked_at
          then (true, update_session c s.id (λ r. record r { revoked_at = some now }) db)
          else (false, db))
        le
        (λ s.
          Few-if (is_unset s.revoked_at)
            (true, update_session c s.id (λ r. record r { revoked_at = some now }) db) (false, db)
            (λ v. few-update s.id (λ r. record r { revoked_at = some now }) db (λ r. refl) le)
            (λ v. le))

  Few-purge :
      (now : ℕ) (db : Accounts) → sessions_of hash db ≤ 1 → Few (purge_expired_sessions now db)
  unfolding purge_expired_sessions sessions_of
  Few-purge now db le =
      let fewer = few_selected (λ s. not (ltb s.expires_at now)) db.sessions in
      ground (arith, fewer, le)

  pub few_kept :
      (call : TokenCall) (db : Accounts)
      → sessions_of (c.hash_token token) db ≤ 1
      → sessions_of (c.hash_token token) (run_token_call c token call db) ≤ 1
  unfolding run_token_call
  few_kept (log_in now username password) db le = Few-log_in now username password db le
  few_kept (use_token now) db le = Few-use now db le
  few_kept (log_out now) db le = Few-log_out now db le
  few_kept (purge now) db le = Few-purge now db le
