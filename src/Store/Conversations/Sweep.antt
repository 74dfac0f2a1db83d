-- ===== src/Store/Conversations/Sweep.antt =====
-- `claim_idle_sessions` of app/repositories/conversation.py, once and twice.
use whatsapp_ai_bot.Prelude.{
  ℕ, ◌≤◌, ◌≡◌, refl, true, false, List, [], ◌∷◌, map, some, ◌==◌, select, any, update_where, length,
  length-take, All, All-zip, All-select, select-passes, Bool-cases, inl, inr, arith,
}
use whatsapp_ai_bot.Store.Rows.{Db, Conversation}
use whatsapp_ai_bot.Store.Conversations.{
  is_idle, is_null, sort_by_activity, candidates, is_claimable, claim_idle_sessions, update_rows,
}
use whatsapp_ai_bot.Store.Conversations.Active.{updated-WellFormed}
use whatsapp_ai_bot.Store.Conversations.Laws.{WellFormed, Find}
use whatsapp_ai_bot.Store.Conversations.Claims.{
  rows, Idle, All-found, Idle-claimed, row_of_id, All-map_id, length-select_and, length-select_ids,
  length-map_id, Claimed, Claimed-rows,
}

-- The rows that are claimed pass the clause of the candidates.
pub claim_idle_sessions_idle :
    (t idle_before limit : ℕ) (db : Db)
    → WellFormed db
    → All (Claimed idle_before db) (claim_idle_sessions t idle_before limit db).0
      × (length (claim_idle_sessions t idle_before limit db).0 ≤ limit)
unfolding claim_idle_sessions candidates
claim_idle_sessions_idle t idle_before limit db w =
    let ids = candidates idle_before limit db in
    let picked = rows idle_before limit db w in
    (
      Claimed-rows idle_before db _ (Idle-claimed idle_before limit db w),
      omega (
        arith,
        length-map_id (select (is_claimable ids) db.conversations),
        length-select_and (λ c. any (λ i. c.id == i) ids) (λ c. is_null c.closing_sent_at)
            db.conversations,
        length-select_ids db.next_conversation ids db.conversations w.falling,
        length-map_id picked,
        length-take limit (sort_by_activity (select (is_idle idle_before) db.conversations)),
      ),
    )

-- A row of an id that was claimed carries the mark.
Marked : List ℕ → Conversation → Type 0
Marked ids c = any (λ i. c.id == i) ids ≡ true → is_null c.closing_sent_at ≡ false

Marked-rows :
    (ids claimed : List ℕ) (t : ℕ) (cs : List Conversation)
    → All (λ (c : Conversation). any (λ i. c.id == i) claimed ≡ true → is_claimable ids c ≡ true) cs
    → All
        (Marked claimed)
        (update_where (is_claimable ids) (λ c. record c { closing_sent_at = some t }) cs)
unfolding update_where Marked
Marked-rows ids claimed t [] h = tt
Marked-rows ids claimed t (c ∷ cs) h = elim (Bool-cases (is_claimable ids c)) [
  | inl k ↦ rw k (λ e. refl, Marked-rows ids claimed t cs h.1)
  | inr k ↦ rw k (λ e. absurd (cc (h.0 e, k)), Marked-rows ids claimed t cs h.1)
]

is_idle_unmarked :
    (idle_before : ℕ) (c : Conversation)
    → is_idle idle_before c ≡ true
    → is_null c.closing_sent_at ≡ true
unfolding is_idle
is_idle_unmarked idle_before c h = ground arith

claimed_again :
    (ids : List ℕ) (cs : List Conversation) (c : Conversation)
    → All (Find cs) cs
    → Find cs c
    → any (λ i. c.id == i) (map (λ (d : Conversation). d.id) (select (is_claimable ids) cs)) ≡ true
    → is_claimable ids c ≡ true
claimed_again ids cs c found f e =
    row_of_id (is_claimable ids) cs c (select (is_claimable ids) cs) f
      (All-zip (Find cs) (λ d. is_claimable ids d ≡ true)
        (λ d. Find cs d × (is_claimable ids d ≡ true)) _ (λ d g k. (g, k))
        (All-select (Find cs) _ cs found) (select-passes (is_claimable ids) cs))
      e

-- On well-formed rows, what a later sweep claims, at any moment, bound and limit, was not claimed by
-- the one before it.
pub claim_idle_sessions_disjoint :
    (t idle_before limit later_t later_before later_limit : ℕ) (db : Db)
    → WellFormed db
    → All
        (λ i. any (λ j. i == j) (claim_idle_sessions t idle_before limit db).0 ≡ false)
        (claim_idle_sessions later_t later_before later_limit
          (claim_idle_sessions t idle_before limit db).1).0
unfolding claim_idle_sessions Marked
claim_idle_sessions_disjoint t idle_before limit later_t later_before later_limit db w =
    let ids = candidates idle_before limit db in
    let mark : Conversation → Conversation = λ c. record c { closing_sent_at = some t } in
    let claimed = map (λ (c : Conversation). c.id) (select (is_claimable ids) db.conversations) in
    let after = update_rows (is_claimable ids) mark db in
    let w' = updated-WellFormed (is_claimable ids) mark db (λ c. refl) (λ c. refl) (λ c e. e) w in
    let found = All-found idle_before limit db w in
    let marked : All (Marked claimed) after.conversations =
      Marked-rows ids claimed t db.conversations (
        All-zip (Find db.conversations) (Find db.conversations)
          (λ c. any (λ i. c.id == i) claimed ≡ true → is_claimable ids c ≡ true) db.conversations
          (λ c f g e. claimed_again ids db.conversations c found f e) found found) in
    All-map_id (λ i. any (λ j. i == j) claimed) false _
      (All-zip (Idle later_before later_limit after w') (Marked claimed)
        (λ c. any (λ j. c.id == j) claimed ≡ false) _
        (λ c idle m. elim (Bool-cases (any (λ j. c.id == j) claimed)) [
          | inl e ↦ absurd (cc (m e, is_idle_unmarked later_before c idle.1))
          | inr e ↦ e
        ])
        (Idle-claimed later_before later_limit after w')
        (All-select (Marked claimed) _ after.conversations marked))
