-- ===== src/Sessions/Goodbye/Rows.antt =====
-- The rows and the targets of one session under the statements of a sweep.
use whatsapp_ai_bot.Prelude.{
  ℕ, ◌≤◌, Bool, true, false, ◌&&◌, List, [], ◌∷◌, map, some, ◌==◌, ◌≡◌, refl, arith, select, any,
  find, ◌+◌, Option, none, if◌then◌else◌, update_where, any-update_where, length,
}
use whatsapp_ai_bot.Store.Rows.{Db, User, Conversation, closed}
use whatsapp_ai_bot.Store.Conversations.{
  is_null, is_claimable, candidates, claim_idle_sessions, close,
}
use whatsapp_ai_bot.Store.Users.{IdleSession, idle_targets, target_of}
use whatsapp_ai_bot.Sessions.Goodbye.{rows_of, unmarked, remaining}

abbrev has_id : ℕ → Conversation → Bool
has_id i c = c.id == i

abbrev is_open : ℕ → Conversation → Bool
is_open i c = c.id == i && is_null c.closing_sent_at

abbrev mark : ℕ → Conversation → Conversation
mark t c = record c { closing_sent_at = some t }

module _ (i : ℕ) where
  length-update_where :
      (p : Conversation → Bool) (f : Conversation → Conversation) (cs : List Conversation)
      → ((c : Conversation) → (f c).id ≡ c.id)
      → length (select (has_id i) (update_where p f cs)) ≡ length (select (has_id i) cs)
  unfolding select update_where
  length-update_where p f [] h = refl
  length-update_where p f (c ∷ cs) h = ground (arith, h c, length-update_where p f cs h)

  pub rows_of-close : (t j : ℕ) (db : Db) → rows_of i (close t j db) ≡ rows_of i db
  unfolding rows_of close
  rows_of-close t j db =
      length-update_where (λ c. c.id == j) (λ c. record c { status = closed; closed_at = some t })
        db.conversations (λ c. refl)

  pub unmarked-close : (t j : ℕ) (db : Db) → unmarked i (close t j db) ≡ unmarked i db
  unfolding unmarked close
  unmarked-close t j db = any-update_where (is_open i) _ _ db.conversations (λ c. refl)

  pub rows_of-claim_idle_sessions :
      (t idle_before limit : ℕ) (db : Db)
      → rows_of i (claim_idle_sessions t idle_before limit db).1 ≡ rows_of i db
  unfolding rows_of claim_idle_sessions
  rows_of-claim_idle_sessions t idle_before limit db =
      length-update_where (is_claimable (candidates idle_before limit db)) (mark t) db.conversations
        (λ c. refl)

  -- A claim is never taken back.
  marked_stays :
      (p : Conversation → Bool) (t : ℕ) (cs : List Conversation)
      → any (is_open i) cs ≡ false
      → any (is_open i) (update_where p (mark t) cs) ≡ false
  unfolding any update_where
  marked_stays p t [] h = refl
  marked_stays p t (c ∷ cs) h = ground (arith, h, marked_stays p t cs)

  no_rows :
      (q : Conversation → Bool) (cs : List Conversation)
      → length (select (has_id i) cs) ≡ 0
      → any (λ c. c.id == i && q c) cs ≡ false
  unfolding any select
  no_rows q [] h = refl
  no_rows q (c ∷ cs) h = ground (arith, h, no_rows q cs)

  marked_now :
      (p : Conversation → Bool) (t : ℕ) (cs : List Conversation)
      → length (select (has_id i) cs) ≤ 1
      → any (λ c. c.id == i && p c) cs ≡ true
      → any (is_open i) (update_where p (mark t) cs) ≡ false
  unfolding any select update_where
  marked_now p t [] le h = absurd (cc h)
  marked_now p t (c ∷ cs) le h = ground (
    arith,
    le,
    h,
    no_rows p cs,
    no_rows (λ d. is_null d.closing_sent_at) cs,
    marked_stays p t cs,
    marked_now p t cs,
  )

  claimed_ids :
      (p : Conversation → Bool) (cs : List Conversation)
      → any (λ j. j == i) (map (λ (c : Conversation). c.id) (select p cs))
        ≡ any (λ c. c.id == i && p c) cs
  unfolding any select
  claimed_ids p [] = refl
  claimed_ids p (c ∷ cs) = ground (arith, claimed_ids p cs)

  claimable_open :
      (ids : List ℕ) (cs : List Conversation)
      → any (λ c. c.id == i && is_claimable ids c) cs ≡ true
      → any (is_open i) cs ≡ true
  unfolding any
  claimable_open ids [] h = h
  claimable_open ids (c ∷ cs) h = ground (arith, h, claimable_open ids cs)

  module _ (t idle_before limit : ℕ) (db : Db) where
    abbrev claimed : List ℕ
    claimed = (claim_idle_sessions t idle_before limit db).0

    pub unmarked-claim_stays :
        unmarked i db ≡ false → unmarked i (claim_idle_sessions t idle_before limit db).1 ≡ false
    unfolding unmarked claim_idle_sessions
    unmarked-claim_stays h = marked_stays _ t db.conversations h

    pub claimed_unmarked :
        any (λ j. j == i) (claim_idle_sessions t idle_before limit db).0 ≡ true
        → unmarked i db ≡ true
    unfolding unmarked claim_idle_sessions
    claimed_unmarked h =
        let ids = candidates idle_before limit db in
        claimable_open ids db.conversations
          (cc (h, claimed_ids (is_claimable ids) db.conversations))

    pub claimed_marked :
        rows_of i db ≤ 1
        → any (λ j. j == i) (claim_idle_sessions t idle_before limit db).0 ≡ true
        → unmarked i (claim_idle_sessions t idle_before limit db).1 ≡ false
    unfolding unmarked rows_of claim_idle_sessions
    claimed_marked le h =
        let ids = candidates idle_before limit db in
        marked_now (is_claimable ids) t db.conversations le
          (cc (h, claimed_ids (is_claimable ids) db.conversations))

  remaining-target_of :
      (c : Conversation) (o : Option User) (rest : List IdleSession)
      → (remaining i rest ≤ remaining i (target_of c o rest))
        × (remaining i (target_of c o rest) ≤ (if c.id == i then 1 else 0) + remaining i rest)
  unfolding remaining select
  remaining-target_of c none rest = ground arith
  remaining-target_of c (some u) rest = ground arith

  pub remaining-idle_targets :
      (ids : List ℕ) (db : Db) (cs : List Conversation)
      → remaining i (idle_targets ids db cs) ≤ length (select (has_id i) cs)
  unfolding remaining idle_targets select
  remaining-idle_targets ids db [] = omega arith
  remaining-idle_targets ids db (c ∷ cs) = ground (
    arith,
    remaining-idle_targets ids db cs,
    remaining-target_of c (find (λ u. u.id == c.user_id) db.users) (idle_targets ids db cs),
  )

  same_id :
      (j : ℕ) (ids : List ℕ)
      → any (λ id. j == id) ids ≡ true
      → any (λ id. id == i) ids ≡ false
      → j == i ≡ false
  unfolding any
  same_id j [] h n = absurd (cc h)
  same_id j (id ∷ ids) h n = ground (arith, h, n, same_id j ids)

  pub remaining_unclaimed :
      (ids : List ℕ) (db : Db) (cs : List Conversation)
      → any (λ j. j == i) ids ≡ false
      → remaining i (idle_targets ids db cs) ≡ 0
  unfolding remaining idle_targets select
  remaining_unclaimed ids db [] h = refl
  remaining_unclaimed ids db (c ∷ cs) h = ground (
    arith,
    h,
    same_id c.id ids,
    remaining_unclaimed ids db cs h,
    remaining-target_of c (find (λ u. u.id == c.user_id) db.users) (idle_targets ids db cs),
  )
