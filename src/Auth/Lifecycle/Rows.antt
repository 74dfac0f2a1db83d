-- ===== src/Auth/Lifecycle/Rows.antt =====
-- The rows of a token's hash in the sessions of app/services/auth_service.py.
use whatsapp_ai_bot.Prelude.{
  ℕ, ◌≤◌, String, Bool, true, false, not, List, [], ◌∷◌, none, some, ◌==◌, ◌≡◌, refl, ◌∙◌, ap,
  arith, ltb, if◌then◌else◌, select, find, any, update_where, length, str_eq, Bool-cases, inl, inr,
}
use whatsapp_ai_bot.Auth.{OperatorSession, Accounts, is_unset, purge_expired_sessions}
use whatsapp_ai_bot.Auth.Revocation.{sessions_of}
use whatsapp_ai_bot.Auth.Lifecycle.{Session, state_of, token_state, after_purge}

module _ (h : String) where
  abbrev pub has_hash : OperatorSession → Bool
  has_hash s = str_eq s.token_hash h

  pub updated_hash :
      (q : OperatorSession → Bool) (f : OperatorSession → OperatorSession) (r : OperatorSession)
      → has_hash (f r) ≡ has_hash r
      → has_hash (if q r then f r else r) ≡ has_hash r
  updated_hash q f r g = elim (Bool-cases (q r)) [ inl e ↦ rw e g | inr e ↦ rw e refl ]

  pub find-update_where :
      (q : OperatorSession → Bool) (f : OperatorSession → OperatorSession)
      (ss : List OperatorSession) (s : OperatorSession)
      → ((r : OperatorSession) → has_hash (f r) ≡ has_hash r)
      → find has_hash ss ≡ some s
      → find has_hash (update_where q f ss) ≡ some (if q s then f s else s)
  unfolding find update_where
  find-update_where q f [] s g e = absurd (cc e)
  find-update_where q f (r ∷ rs) s g e = elim (Bool-cases (has_hash r)) [
    | inl same ↦
        let here : some r ≡ some s = (rw same at e) in
        let first : r ≡ s = cc here in
        rw (updated_hash q f r (g r) ∙ same) (ap (λ x. some (if q x then f x else x)) first)
    | inr other ↦
        rw (updated_hash q f r (g r) ∙ other) (find-update_where q f rs s g (rw other at e))
  ]

  pub not_found :
      (ss : List OperatorSession) → length (select has_hash ss) ≡ 0 → find has_hash ss ≡ none
  unfolding find select
  not_found [] e = refl
  not_found (r ∷ rs) e = elim (Bool-cases (has_hash r)) [
    | inl same ↦ absurd (omega (arith, (rw same at e)))
    | inr other ↦ rw other (not_found rs (rw other at e))
  ]

  find-select-none :
      (keep : OperatorSession → Bool) (ss : List OperatorSession)
      → find has_hash ss ≡ none
      → find has_hash (select keep ss) ≡ none
  unfolding find select
  find-select-none keep [] e = refl
  find-select-none keep (r ∷ rs) e = elim (Bool-cases (has_hash r)) [
    | inl same ↦ let here : some r ≡ none = (rw same at e) in absurd (cc here)
    | inr other ↦
        let rest = find-select-none keep rs (rw other at e) in
        elim (Bool-cases (keep r)) [ inl k ↦ rw (k, other) rest | inr k ↦ rw k rest ]
  ]

  pub find-select :
      (keep : OperatorSession → Bool) (ss : List OperatorSession) (s : OperatorSession)
      → length (select has_hash ss) ≤ 1
      → find has_hash ss ≡ some s
      → find has_hash (select keep ss) ≡ (if keep s then some s else none)
  unfolding find select
  find-select keep [] s le e = absurd (cc e)
  find-select keep (r ∷ rs) s le e = elim (Bool-cases (has_hash r)) [
    | inl same ↦
        let here : some r ≡ some s = (rw same at e) in
        let first : r ≡ s = cc here in
        let none_left : length (select has_hash rs) ≡ 0 = ground (arith, le, same) in
        let rest = find-select-none keep rs (not_found rs none_left) in
        let kept : find has_hash (select keep (r ∷ rs)) ≡ (if keep r then some r else none) =
          elim (Bool-cases (keep r)) [ inl k ↦ rw (k, same) refl | inr k ↦ rw k rest ] in
        kept ∙ ap (λ x. if keep x then some x else none) first
    | inr other ↦
        let few : length (select has_hash rs) ≤ 1 = ground (arith, le, other) in
        let rest = find-select keep rs s few (rw other at e) in
        elim (Bool-cases (keep r)) [ inl k ↦ rw (k, other) rest | inr k ↦ rw k rest ]
  ]

  -- The state after an update of the session that the token finds, and after a purge.
  pub state-updated :
      (f : OperatorSession → OperatorSession) (db : Accounts) (s : OperatorSession)
      → ((r : OperatorSession) → has_hash (f r) ≡ has_hash r)
      → find has_hash db.sessions ≡ some s
      → find has_hash (update_where (λ r. r.id == s.id) f db.sessions) ≡ some (f s)
  state-updated f db s g e =
      find-update_where (λ r. r.id == s.id) f db.sessions s g e ∙ own_id s.id (f s) s
    where
      own_id : (n : ℕ) (x y : OperatorSession) → some (if n == n then x else y) ≡ some x
      own_id n x y = ground arith

  pub state-purged :
      (now : ℕ) (o : Session) (db : Accounts)
      → sessions_of h db ≤ 1
      → find has_hash db.sessions ≡ o
      → token_state h (purge_expired_sessions now db).1 ≡ after_purge now (state_of o)
  unfolding token_state purge_expired_sessions sessions_of
  state-purged now none db le e =
      ap state_of (find-select-none (λ s. not (ltb s.expires_at now)) db.sessions e)
  state-purged now (some s) db le e =
      ap state_of (find-select (λ s. not (ltb s.expires_at now)) db.sessions s le e)
      ∙ purged s (is_unset s.revoked_at) refl (ltb s.expires_at now) refl
    where
      purged :
          (s : OperatorSession) (b : Bool)
          → is_unset s.revoked_at ≡ b
          → (d : Bool) → ltb s.expires_at now ≡ d
          → state_of (if not (ltb s.expires_at now) then some s else none)
            ≡ after_purge now (state_of (some s))
      purged s true eb true ed = rw (eb, ed) refl
      purged s true eb false ed = rw (eb, ed) (rw eb refl)
      purged s false eb true ed = rw (eb, ed) refl
      purged s false eb false ed = rw (eb, ed) (rw eb refl)

  pub any-find-none :
      (ss : List OperatorSession) → find has_hash ss ≡ none → any has_hash ss ≡ false
  unfolding find any
  any-find-none [] e = refl
  any-find-none (r ∷ rs) e = ground (arith, e, any-find-none rs)

  pub any-find-some :
      (ss : List OperatorSession) (s : OperatorSession)
      → find has_hash ss ≡ some s
      → any has_hash ss ≡ true
  unfolding find any
  any-find-some [] s e = absurd (cc e)
  any-find-some (r ∷ rs) s e = ground (arith, e, any-find-some rs s)
