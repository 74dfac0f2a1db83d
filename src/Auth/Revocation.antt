-- ===== src/Auth/Revocation.antt =====
-- The end of a session of app/services/auth_service.py.
use whatsapp_ai_bot.Prelude.{
  ℕ, ◌≤◌, String, Bool, true, false, not, ◌&&◌, ◌||◌, List, [], ◌∷◌, Option, none, some, ◌==◌, ◌≡◌,
  refl, arith, if◌then◌else◌, select, find, any, update_where, length, str_eq, All, Bool-cases, inl,
  inr, Option-elim, Option-match,
}
use whatsapp_ai_bot.Auth.{
  Operator, OperatorSession, Accounts, Crypto, is_unset, is_stale, is_valid, get_by_username,
  can_log_in, create_operator, start_session, login, session_for, update_session, holder_of,
  resolve, revoke, purge_expired_sessions, Call, create_call, login_call, resolve_call, revoke_call,
  purge_call, run_call, run_calls, password_ok,
}

-- A session of this hash was not revoked.
unfoldable pub is_live : String → Accounts → Bool
is_live h db = any (λ s. str_eq s.token_hash h && is_unset s.revoked_at) db.sessions

-- The unique index on the hash of a token.
unfoldable pub sessions_of : String → Accounts → ℕ
sessions_of h db = length (select (λ s. str_eq s.token_hash h) db.sessions)

module _ (h : String) where
  abbrev live : OperatorSession → Bool
  live s = str_eq s.token_hash h && is_unset s.revoked_at

  -- An update that keeps the hash, and what is revoked.
  dead_update :
      (p : OperatorSession → Bool) (f : OperatorSession → OperatorSession)
      (ss : List OperatorSession)
      → ((s : OperatorSession) → live s ≡ false → live (f s) ≡ false)
      → any live ss ≡ false
      → any live (update_where p f ss) ≡ false
  unfolding any update_where
  dead_update p f [] g e = refl
  dead_update p f (s ∷ ss) g e = ground (arith, e, g s, dead_update p f ss g)

  dead_select :
      (p : OperatorSession → Bool) (ss : List OperatorSession)
      → any live ss ≡ false
      → any live (select p ss) ≡ false
  unfolding any select
  dead_select p [] e = refl
  dead_select p (s ∷ ss) e = ground (arith, e, dead_select p ss)

  pub no_sessions :
      (ss : List OperatorSession)
      → length (select (λ s. str_eq s.token_hash h) ss) ≡ 0
      → any live ss ≡ false
  unfolding any select
  no_sessions [] e = refl
  no_sessions (s ∷ ss) e = ground (arith, e, no_sessions ss)

  abbrev revoked_row : ℕ → OperatorSession → OperatorSession
  revoked_row t r = record r { revoked_at = some t }

  revoked_dead : (t : ℕ) (r : OperatorSession) → live (revoked_row t r) ≡ false
  revoked_dead t r = ground arith

  -- The session that the token finds is the only one, so that revoking it leaves none.
  revoked_first :
      (t : ℕ) (ss : List OperatorSession) (s : OperatorSession)
      → length (select (λ s. str_eq s.token_hash h) ss) ≤ 1
      → find (λ s. str_eq s.token_hash h) ss ≡ some s
      → any live (update_where (λ r. r.id == s.id) (λ r. record r { revoked_at = some t }) ss)
        ≡ false
  unfolding any select find update_where
  revoked_first t [] s le e = absurd (cc e)
  revoked_first t (r ∷ rs) s le e = elim (Bool-cases (str_eq r.token_hash h)) [
    | inl same ↦
        let here : some r ≡ some s = (rw same at e) in
        let id_here : r.id ≡ s.id = cc here in
        let none_left : length (select (λ x. str_eq x.token_hash h) rs) ≡ 0 =
          ground (arith, le, same) in
        let rest =
          dead_update (λ x. x.id == s.id) (revoked_row t) rs (λ x d. revoked_dead t x)
            (no_sessions rs none_left) in
        ground (arith, id_here, rest, revoked_dead t r)
    | inr other ↦
        let there : find (λ x. str_eq x.token_hash h) rs ≡ some s = (rw other at e) in
        let few : length (select (λ x. str_eq x.token_hash h) rs) ≤ 1 = ground (arith, le, other) in
        ground (arith, other, revoked_first t rs s few there)
  ]

  found_live :
      (ss : List OperatorSession) (s : OperatorSession)
      → any live ss ≡ false
      → find (λ x. str_eq x.token_hash h) ss ≡ some s
      → is_unset s.revoked_at ≡ false
  unfolding any find
  found_live [] s d e = absurd (cc e)
  found_live (r ∷ rs) s d e = elim (Bool-cases (str_eq r.token_hash h)) [
    | inl same ↦
        let here : some r ≡ some s = (rw same at e) in
        let unset : is_unset r.revoked_at ≡ false = ground (arith, d, same) in cc (here, unset)
    | inr other ↦ found_live rs s (ground (arith, d, other)) (rw other at e)
  ]

  none_found :
      (ss : List OperatorSession)
      → find (λ x. str_eq x.token_hash h) ss ≡ none
      → any live ss ≡ false
  unfolding any find
  none_found [] e = refl
  none_found (r ∷ rs) e = elim (Bool-cases (str_eq r.token_hash h)) [
    | inl same ↦ let here : some r ≡ none = (rw same at e) in absurd (cc here)
    | inr other ↦ ground (arith, other, none_found rs (rw other at e))
  ]

  single_found :
      (ss : List OperatorSession) (s : OperatorSession)
      → length (select (λ x. str_eq x.token_hash h) ss) ≤ 1
      → find (λ x. str_eq x.token_hash h) ss ≡ some s
      → is_unset s.revoked_at ≡ false
      → any live ss ≡ false
  unfolding any find select
  single_found [] s le e d = absurd (cc e)
  single_found (r ∷ rs) s le e d = elim (Bool-cases (str_eq r.token_hash h)) [
    | inl same ↦
        let here : some r ≡ some s = (rw same at e) in
        let unset : is_unset r.revoked_at ≡ false = cc (here, d) in
        let none_left : length (select (λ x. str_eq x.token_hash h) rs) ≡ 0 =
          ground (arith, le, same) in
        ground (arith, unset, no_sessions rs none_left)
    | inr other ↦
        let there : find (λ x. str_eq x.token_hash h) rs ≡ some s = (rw other at e) in
        let few : length (select (λ x. str_eq x.token_hash h) rs) ≤ 1 = ground (arith, le, other) in
        ground (arith, other, single_found rs s few there d)
  ]

module _ (c : Crypto) (h : String) where
  -- A login with another token.
  Dead : Accounts → Type 0
  Dead db = is_live h db ≡ false

  abbrev pub Other : Call → Type 0
  Other (login_call now token username password) = str_eq (c.hash_token token) h ≡ false
  Other _ = Unit

  abbrev DeadAfter : {A : Type 0} → A × Accounts → Type 0
  DeadAfter r = Dead r.1

  Dead-if :
      {A : Type 0} (b : Bool) (x y : A × Accounts)
      → DeadAfter x
      → DeadAfter y
      → DeadAfter (if b then x else y)
  Dead-if true x y dx dy = dx
  Dead-if false x y dx dy = dy

  Dead-choice : (b : Bool) (x y : Accounts) → Dead x → Dead y → Dead (if b then x else y)
  Dead-choice true x y dx dy = dx
  Dead-choice false x y dx dy = dy

  Dead-update_session :
      (id : ℕ) (f : OperatorSession → OperatorSession) (db : Accounts)
      → ((s : OperatorSession) → live h s ≡ false → live h (f s) ≡ false)
      → Dead db
      → Dead (update_session c id f db)
  unfolding Dead is_live
  Dead-update_session id f db g d = dead_update h (λ s. s.id == id) f db.sessions g d

  Dead-holder_of :
      (now : ℕ) (s : OperatorSession) (o : Option Operator) (db : Accounts)
      → Dead db
      → DeadAfter (holder_of c now s o db)
  Dead-holder_of now s none db d = d
  Dead-holder_of now s (some o) db d = Dead-if (not o.is_active) _ _ d (
      Dead-choice (is_stale now s.last_used_at) _ db
        (Dead-update_session s.id (λ r. record r { last_used_at = some now }) db (λ r e. e) d) d)

  Dead-create :
      (username password name : String) (is_admin : Bool) (db : Accounts)
      → Dead db
      → Dead (create_operator c username password name is_admin db)
  unfolding Dead create_operator is_live
  Dead-create username password name is_admin db d = Dead-choice _ db _ d d

  Dead-login :
      (now : ℕ) (token username password : String) (db : Accounts)
      → str_eq (c.hash_token token) h ≡ false
      → Dead db
      → Dead (login c now token username password db).1
  unfolding Dead login start_session is_live any
  Dead-login now token username password db apart d =
      Option-elim DeadAfter (get_by_username username db) _ _ d (λ o.
        Dead-if (not (password_ok c (some o) password) || not (can_log_in c o)) _ _ d (
          Dead-if (any (λ s. str_eq s.token_hash (c.hash_token token)) db.sessions) _ _ d
            (ground (arith, apart, d))))

  Dead-resolve :
      (now : ℕ) (token : String) (db : Accounts) → Dead db → Dead (resolve c now token db).1
  unfolding Dead resolve is_live
  Dead-resolve now token db d = Option-elim DeadAfter (session_for c token db) _ _ d (λ s.
      Dead-if (is_valid now s) _ _
        (Dead-holder_of now s (find (λ o. o.id == s.operator_id) db.operators) db d) d)

  Dead-revoke :
      (now : ℕ) (token : String) (db : Accounts) → Dead db → Dead (revoke c now token db).1
  unfolding Dead revoke is_live
  Dead-revoke now token db d = Option-elim DeadAfter (session_for c token db) _ _ d (λ s.
      Dead-if (is_unset s.revoked_at) _ _
        (Dead-update_session s.id (revoked_row h now) db (λ r e. revoked_dead h now r) d) d)

  Dead-purge : (now : ℕ) (db : Accounts) → Dead db → Dead (purge_expired_sessions now db).1
  unfolding Dead purge_expired_sessions is_live
  Dead-purge now db d = dead_select h _ db.sessions d

  Dead-run_calls :
      (calls : List Call) (db : Accounts) → All Other calls → Dead db → Dead (run_calls c calls db)
  unfolding run_calls run_call
  Dead-run_calls [] db others d = d
  Dead-run_calls (create_call username password name is_admin ∷ calls) db others d =
      Dead-run_calls calls _ others.1 (Dead-create username password name is_admin db d)
  Dead-run_calls (login_call now token username password ∷ calls) db others d =
      Dead-run_calls calls _ others.1 (Dead-login now token username password db others.0 d)
  Dead-run_calls (resolve_call now token ∷ calls) db others d =
      Dead-run_calls calls _ others.1 (Dead-resolve now token db d)
  Dead-run_calls (revoke_call now token ∷ calls) db others d =
      Dead-run_calls calls _ others.1 (Dead-revoke now token db d)
  Dead-run_calls (purge_call now ∷ calls) db others d =
      Dead-run_calls calls _ others.1 (Dead-purge now db d)

module _ (c : Crypto) (token : String) where
  found_of :
      (db : Accounts) (o : Option OperatorSession)
      → str_eq token "" ≡ false
      → session_for c token db ≡ o
      → find (λ s. str_eq s.token_hash (c.hash_token token)) db.sessions ≡ o
  unfolding session_for
  found_of db o given e = rw given at e

  some_found :
      (db : Accounts) (s : OperatorSession)
      → session_for c token db ≡ some s
      → find (λ x. str_eq x.token_hash (c.hash_token token)) db.sessions ≡ some s
  unfolding session_for
  some_found db s e = elim (Bool-cases (str_eq token "")) [
    | inl blank ↦ let nothing : none ≡ some s = (rw blank at e) in absurd (cc nothing)
    | inr given ↦ rw given at e
  ]

  -- Revoking a token leaves no live session of its hash.
  revoked_branch :
      (h : String) (b : Bool) (now : ℕ) (s : OperatorSession) (db : Accounts)
      → is_unset s.revoked_at ≡ b
      → any (live h) (update_where (λ r. r.id == s.id) (revoked_row h now) db.sessions) ≡ false
      → (is_unset s.revoked_at ≡ false → any (live h) db.sessions ≡ false)
      → DeadAfter c h (
          if b
          then (true, update_session c s.id (λ r. record r { revoked_at = some now }) db)
          else (false, db))
  unfolding Dead is_live
  revoked_branch h true now s db e updated kept = updated
  revoked_branch h false now s db e updated kept = kept e

  Dead-of_revoked :
      (now : ℕ) (db : Accounts)
      → sessions_of (c.hash_token token) db ≤ 1
      → str_eq token "" ≡ false
      → Dead c (c.hash_token token) (revoke c now token db).1
  unfolding Dead revoke session_for is_live sessions_of
  Dead-of_revoked now db single given =
      let h = c.hash_token token in
      Option-match (DeadAfter c h) (session_for c token db) _ _
        (λ e. none_found h db.sessions (found_of db none given e))
        (λ s e.
          let found = found_of db (some s) given e in
          revoked_branch h (is_unset s.revoked_at) now s db refl
            (revoked_first h now db.sessions s single found)
            (single_found h db.sessions s single found))

  unresolved_branch :
      (now : ℕ) (s : OperatorSession) (db : Accounts)
      → is_unset s.revoked_at ≡ false
      → (if is_valid now s
          then holder_of c now s (find (λ o. o.id == s.operator_id) db.operators) db
          else (none, db)).0
        ≡ none
  unfolding is_valid
  unresolved_branch now s db e = rw e refl

  Dead-unresolved :
      (now : ℕ) (db : Accounts) → Dead c (c.hash_token token) db → (resolve c now token db).0 ≡ none
  unfolding Dead resolve session_for is_live is_valid
  Dead-unresolved now db d =
      Option-match (λ (r : Option Operator × Accounts). r.0 ≡ none) (session_for c token db) _ _
        (λ e. refl)
        (λ s e.
          unresolved_branch now s db
            (found_live (c.hash_token token) db.sessions s d (some_found db s e)))

-- The index on hashes holds for a token that is not empty. After it is revoked, and after any sequence
-- of calls of the service, at any moments, in which no login was given a token of the same hash, the
-- token authenticates nobody.
pub revoked_never_resolves :
    (c : Crypto) (token : String) (revoked_at : ℕ) (calls : List Call) (now : ℕ) (db : Accounts)
    → str_eq token "" ≡ false
    → sessions_of (c.hash_token token) db ≤ 1
    → All (Other c (c.hash_token token)) calls
    → (resolve c now token (run_calls c calls (revoke c revoked_at token db).1)).0 ≡ none
revoked_never_resolves c token revoked_at calls now db given single others =
    Dead-unresolved c token now _ (
      Dead-run_calls c (c.hash_token token) calls _ others
        (Dead-of_revoked c token revoked_at db single given))
