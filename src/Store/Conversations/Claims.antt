-- ===== src/Store/Conversations/Claims.antt =====
-- The rows that `claim_idle_sessions` claims, and how many they are.
use whatsapp_ai_bot.Prelude.{
  ℕ, zero, suc, ◌+◌, ◌-◌, ◌≤◌, ◌≡◌, refl, ◌∙◌, ap, subst, sym, Bool, true, false, ◌&&◌, ◌||◌, List,
  [], ◌∷◌, map, some, ◌==◌, leb, select, find, any, take, length, All, All-zip, All-select,
  select-passes, Bool-cases, inl, inr, arith,
}
use whatsapp_ai_bot.Store.Rows.{Db, Conversation, derive_session_state, waiting_idle}
use whatsapp_ai_bot.Store.Conversations.{
  get, is_idle, insert_by_activity, sort_by_activity, candidates, is_claimable,
}
use whatsapp_ai_bot.Store.Conversations.Laws.{WellFormed, Find, IdsBelow, found_by_id}

-- A row that the sweep would claim, an operator sees as waiting: the idle state of the dashboard
-- includes every candidate of the sweep.
pub is_idle-waiting :
    (c : Conversation) (idle_after now : ℕ)
    → is_idle (now - idle_after) c ≡ true
    → derive_session_state c idle_after now ≡ waiting_idle
unfolding is_idle derive_session_state
is_idle-waiting c idle_after now h = ground arith

module _ {ℓ} (P : Conversation → Type ℓ) where
  All-insert_by_activity :
      (c : Conversation) (cs : List Conversation) → P c → All P cs → All P (insert_by_activity c cs)
  unfolding insert_by_activity
  All-insert_by_activity c [] p h = (p, tt)
  All-insert_by_activity c (d ∷ ds) p h =
      elim (Bool-cases (leb c.last_activity_at d.last_activity_at)) [
        | inl e ↦ rw e (p, h)
        | inr e ↦ rw e (h.0, All-insert_by_activity c ds p h.1)
      ]

  All-sort_by_activity : (cs : List Conversation) → All P cs → All P (sort_by_activity cs)
  unfolding sort_by_activity
  All-sort_by_activity [] h = tt
  All-sort_by_activity (c ∷ cs) h =
      All-insert_by_activity c (sort_by_activity cs) h.0 (All-sort_by_activity cs h.1)

  All-take : (n : ℕ) (cs : List Conversation) → All P cs → All P (take n cs)
  All-take zero cs h = tt
  All-take (suc n) [] h = tt
  All-take (suc n) (c ∷ cs) h = (h.0, All-take n cs h.1)

pub and_left : (a b : Bool) → (a && b) ≡ true → a ≡ true
and_left a b h = ground arith

-- The row that an id finds has what every row of that id has.
pub row_of_id :
    (q : Conversation → Bool) (cs : List Conversation) (c : Conversation) (rows : List Conversation)
    → Find cs c
    → All (λ (d : Conversation). Find cs d × (q d ≡ true)) rows
    → any (λ i. c.id == i) (map (λ (d : Conversation). d.id) rows) ≡ true
    → q c ≡ true
unfolding any
row_of_id q cs c [] f h e = absurd (cc e)
row_of_id q cs c (d ∷ rows) f h e = elim (Bool-cases (c.id == d.id)) [
  | inl here ↦
      let at_d : find (λ x. x.id == c.id) cs ≡ some d =
        subst (λ i. find (λ x. x.id == i) cs ≡ some d) (sym (equal c.id d.id here)) h.0.0 in
      let same : c ≡ d = cc (f, at_d) in ap q same ∙ h.0.1
  | inr apart ↦ row_of_id q cs c rows f h.1 (rw apart at e)
]
  where
    equal : (i j : ℕ) → (i == j) ≡ true → i ≡ j
    equal i j h = ground arith

-- A test on each id is a test on each row.
pub All-map_id :
    (p : ℕ → Bool) (b : Bool) (rows : List Conversation)
    → All (λ (c : Conversation). p c.id ≡ b) rows
    → All (λ i. p i ≡ b) (map (λ (c : Conversation). c.id) rows)
All-map_id p b [] h = tt
All-map_id p b (c ∷ rows) h = (h.0, All-map_id p b rows h.1)

-- No more rows are selected by their ids than there are ids.
pub length-select_or :
    (p q : Conversation → Bool) (cs : List Conversation)
    → length (select (λ c. p c || q c) cs) ≤ length (select p cs) + length (select q cs)
unfolding select
length-select_or p q [] = omega arith
length-select_or p q (c ∷ cs) = ground (arith, length-select_or p q cs)

pub length-select_and :
    (p q : Conversation → Bool) (cs : List Conversation)
    → length (select (λ c. p c && q c) cs) ≤ length (select p cs)
unfolding select
length-select_and p q [] = omega arith
length-select_and p q (c ∷ cs) = ground (arith, length-select_and p q cs)

pub none_of_id :
    (n i : ℕ) (cs : List Conversation)
    → IdsBelow n cs
    → n ≤ i
    → length (select (λ c. c.id == i) cs) ≡ 0
unfolding select
none_of_id n i [] h le = refl
none_of_id n i (c ∷ cs) h le = ground (arith, h.0, none_of_id c.id i cs h.1)

pub one_of_id :
    (n i : ℕ) (cs : List Conversation) → IdsBelow n cs → length (select (λ c. c.id == i) cs) ≤ 1
unfolding select
one_of_id n i [] h = omega arith
one_of_id n i (c ∷ cs) h = ground (arith, one_of_id c.id i cs h.1, none_of_id c.id i cs h.1)

pub select_nothing : (cs : List Conversation) → length (select (λ (c : Conversation). false) cs) ≤ 0
unfolding select
select_nothing [] = omega arith
select_nothing (c ∷ cs) = select_nothing cs

pub length-select_ids :
    (n : ℕ) (ids : List ℕ) (cs : List Conversation)
    → IdsBelow n cs
    → length (select (λ c. any (λ i. c.id == i) ids) cs) ≤ length ids
unfolding any
length-select_ids n [] cs h = select_nothing cs
length-select_ids n (i ∷ ids) cs h = omega (
  arith,
  length-select_or (λ c. c.id == i) (λ c. any (λ j. c.id == j) ids) cs,
  one_of_id n i cs h,
  length-select_ids n ids cs h,
)

module _ (idle_before limit : ℕ) (db : Db) (w : WellFormed db) where
  abbrev pub rows : List Conversation
  rows = take limit (sort_by_activity (select (is_idle idle_before) db.conversations))

  abbrev pub Idle : Conversation → Type 0
  Idle c = Find db.conversations c × (is_idle idle_before c ≡ true)

  pub All-found : All (Find db.conversations) db.conversations
  All-found = found_by_id db.next_conversation db.conversations w.falling

  Idle-rows : All Idle rows
  Idle-rows = All-take Idle limit _ (
      All-sort_by_activity Idle (select (is_idle idle_before) db.conversations) (
        All-zip (Find db.conversations) (λ c. is_idle idle_before c ≡ true) Idle _ (λ c f i. (f, i))
          (All-select (Find db.conversations) _ db.conversations All-found)
          (select-passes (is_idle idle_before) db.conversations)))

  pub Idle-claimed :
      All Idle (select (is_claimable (candidates idle_before limit db)) db.conversations)
  unfolding candidates
  Idle-claimed =
      All-zip (Find db.conversations) (λ c. is_claimable (candidates idle_before limit db) c ≡ true)
        Idle _
        (λ c f k.
          (f, row_of_id (is_idle idle_before) db.conversations c rows f Idle-rows (and_left _ _ k)))
        (All-select (Find db.conversations) _ db.conversations All-found)
        (select-passes _ db.conversations)

pub length-map_id :
    (rows : List Conversation) → length (map (λ (c : Conversation). c.id) rows) ≡ length rows
length-map_id [] = refl
length-map_id (c ∷ rows) = ap suc (length-map_id rows)

abbrev pub Claimed : ℕ → Db → ℕ → Type 0
Claimed idle_before db i = (c : Conversation) × (get i db ≡ some c) × (is_idle idle_before c ≡ true)

pub Claimed-rows :
    (idle_before : ℕ) (db : Db) (cs : List Conversation)
    → All (λ (c : Conversation). Find db.conversations c × (is_idle idle_before c ≡ true)) cs
    → All (Claimed idle_before db) (map (λ (c : Conversation). c.id) cs)
unfolding get
Claimed-rows idle_before db [] h = tt
Claimed-rows idle_before db (c ∷ cs) h = ((c, h.0.0, h.0.1), Claimed-rows idle_before db cs h.1)
