-- ===== src/Store/Conversations/Waiting.antt =====
-- Which sessions `claim_idle_sessions` of app/repositories/conversation.py claims.
use whatsapp_ai_bot.Prelude.{
  ℕ, zero, suc, ◌<◌, ◌≤◌, ◌≡◌, refl, ◌∙◌, ap, ◌⊎◌, inl, inr, String, Bool, true, false, not, ◌&&◌,
  ◌||◌, List, [], ◌∷◌, Option, none, some, ◌==◌, ltb, find, any, select, map, take, length, All,
  Bool-cases, arith, str_eq, eq_iff,
}
use whatsapp_ai_bot.Store.Rows.{
  Db, Conversation, Status, Mode, active, closed, bot, human, is_active, is_human, whatsapp,
  messenger,
}
use whatsapp_ai_bot.Store.Conversations.{
  get, is_idle, is_null, is_sweepable, sort_by_activity, insert_by_activity, candidates,
  is_claimable, claim_idle_sessions,
}
use whatsapp_ai_bot.Store.Conversations.Laws.{WellFormed}
use whatsapp_ai_bot.Store.Conversations.Claims.{Claimed}
use whatsapp_ai_bot.Store.Conversations.Sweep.{claim_idle_sessions_idle}

-- An open session that the bot answers, on WhatsApp or Messenger, without a goodbye, and silent since
-- before a bound.
pub record Waiting (idle_before : ℕ) (c : Conversation) : Type 0 where
  pub is_on : c.status ≡ active
  pub with_bot : c.mode ≡ bot
  pub swept : (c.channel ≡ "whatsapp") ⊎ (c.channel ≡ "messenger")
  pub unmarked : c.closing_sent_at ≡ none
  pub silent : c.last_activity_at < idle_before

status_of : (x : Status) → is_active x ≡ true → x ≡ active
status_of active e = refl
status_of closed e = absurd (cc e)

mode_of : (x : Mode) → is_human x ≡ false → x ≡ bot
mode_of bot e = refl
mode_of human e = absurd (cc e)

null_of : (x : Option ℕ) → is_null x ≡ true → x ≡ none
null_of none e = refl
null_of (some t) e = absurd (cc e)

channel_of :
    (x : String)
    → (str_eq x whatsapp || str_eq x messenger) ≡ true
    → (x ≡ "whatsapp") ⊎ (x ≡ "messenger")
channel_of x e = elim (Bool-cases (str_eq x whatsapp)) [
  | inl k ↦ inl ((eq_iff x whatsapp).0 k)
  | inr k ↦ inr ((eq_iff x messenger).0 (rw k at e))
]

all_five :
    (a b c d e : Bool)
    → (a && not b && c && d && e) ≡ true
    → (a ≡ true) × (b ≡ false) × (c ≡ true) × (d ≡ true) × (e ≡ true)
all_five a b c d e h =
    (ground (arith, h), ground (arith, h), ground (arith, h), ground (arith, h), ground (arith, h))

Waiting-is_idle :
    (idle_before : ℕ) (c : Conversation) → is_idle idle_before c ≡ true → Waiting idle_before c
unfolding is_idle is_sweepable
Waiting-is_idle idle_before c h =
    let (on, auto, channel, unmarked, old) =
      all_five (is_active c.status) (is_human c.mode) (is_sweepable c.channel)
        (is_null c.closing_sent_at) (ltb c.last_activity_at idle_before) h in
    record {
      is_on = status_of c.status on;
      with_bot = mode_of c.mode auto;
      swept = channel_of c.channel channel;
      unmarked = null_of c.closing_sent_at unmarked;
      silent = ground (arith, old);
    }

is_swept :
    (x : String)
    → (x ≡ "whatsapp") ⊎ (x ≡ "messenger")
    → (str_eq x whatsapp || str_eq x messenger) ≡ true
is_swept x (inl e) = rw ((eq_iff x whatsapp).1 e) refl
is_swept x (inr e) = let k = (eq_iff x messenger).1 e in ground (arith, k)

is_idle-Waiting :
    (idle_before : ℕ) (c : Conversation) → Waiting idle_before c → is_idle idle_before c ≡ true
unfolding is_idle is_sweepable
is_idle-Waiting idle_before c h =
    let old : ltb c.last_activity_at idle_before ≡ true = ground (arith, h.silent) in
    rw
      (
        ap is_active h.is_on,
        ap is_human h.with_bot,
        is_swept c.channel h.swept,
        ap is_null h.unmarked,
        old,
      )
      refl

module _ (r : Conversation → Bool) where
  any-insert :
      (c : Conversation) (ds : List Conversation)
      → any r (insert_by_activity c ds) ≡ (r c || any r ds)
  unfolding any insert_by_activity
  any-insert c [] = refl
  any-insert c (d ∷ ds) = ground (arith, any-insert c ds)

  any-sort : (cs : List Conversation) → any r (sort_by_activity cs) ≡ any r cs
  unfolding any sort_by_activity
  any-sort [] = refl
  any-sort (c ∷ cs) = any-insert c (sort_by_activity cs) ∙ ap (λ b. r c || b) (any-sort cs)

  -- A row that an id finds, and that passes a test, is selected.
  found-select :
      (q p : Conversation → Bool) (cs : List Conversation) (d : Conversation)
      → find q cs ≡ some d
      → p d ≡ true
      → r d ≡ true
      → any r (select p cs) ≡ true
  unfolding find any select
  found-select q p [] d e hp hr = absurd (cc e)
  found-select q p (c ∷ cs) d e hp hr = elim (Bool-cases (q c)) [
    | inl here ↦
        let there : some c ≡ some d = (rw here at e) in
        let same : c ≡ d = cc there in
        let passes : p c ≡ true = ap p same ∙ hp in
        let holds : r c ≡ true = ap r same ∙ hr in rw (passes, holds) refl
    | inr apart ↦ let rest = found-select q p cs d (rw apart at e) hp hr in ground (arith, rest)
  ]

length-insert :
    (c : Conversation) (ds : List Conversation) → length (insert_by_activity c ds) ≡ suc (length ds)
unfolding insert_by_activity
length-insert c [] = refl
length-insert c (d ∷ ds) = ground (arith, length-insert c ds)

length-sort : (cs : List Conversation) → length (sort_by_activity cs) ≡ length cs
unfolding sort_by_activity
length-sort [] = refl
length-sort (c ∷ cs) = length-insert c (sort_by_activity cs) ∙ ap suc (length-sort cs)

take_all : (n : ℕ) (cs : List Conversation) → length cs ≤ n → take n cs ≡ cs
take_all zero [] h = refl
take_all zero (c ∷ cs) h = absurd (omega (arith, h))
take_all (suc n) [] h = refl
take_all (suc n) (c ∷ cs) h = ap (λ ds. c ∷ ds) (take_all n cs (omega (arith, h)))

any-map_id :
    (r : ℕ → Bool) (cs : List Conversation)
    → any r (map (λ (c : Conversation). c.id) cs) ≡ any (λ c. r c.id) cs
unfolding any
any-map_id r [] = refl
any-map_id r (c ∷ cs) = ap (λ b. r c.id || b) (any-map_id r cs)

same_id : (n : ℕ) → (n == n) ≡ true
same_id n = ground arith

-- When no more than the limit are idle, each session that is open, answered by the bot, on WhatsApp or
-- Messenger, without a goodbye and silent since before the bound is claimed.
pub claims-Waiting :
    (t idle_before limit j : ℕ) (db : Db) (d : Conversation)
    → length (select (is_idle idle_before) db.conversations) ≤ limit
    → get j db ≡ some d
    → Waiting idle_before d
    → any (λ i. i == d.id) (claim_idle_sessions t idle_before limit db).0 ≡ true
unfolding claim_idle_sessions candidates get
claims-Waiting t idle_before limit j db d room found h =
    let idle = select (is_idle idle_before) db.conversations in
    let all = take_all limit (sort_by_activity idle) (omega (arith, room, length-sort idle)) in
    let listed : any (λ i. d.id == i) (candidates idle_before limit db) ≡ true =
      any-map_id (λ i. d.id == i) (take limit (sort_by_activity idle))
      ∙ ap (any (λ c. d.id == c.id)) all
      ∙ any-sort (λ c. d.id == c.id) idle
      ∙ found-select (λ c. d.id == c.id) (λ c. c.id == j) (is_idle idle_before) db.conversations d
          found (is_idle-Waiting idle_before d h) (same_id d.id) in
    any-map_id (λ i. i == d.id)
      (select (is_claimable (candidates idle_before limit db)) db.conversations)
    ∙ found-select (λ c. c.id == d.id) (λ c. c.id == j)
        (is_claimable (candidates idle_before limit db)) db.conversations d found
        (rw (listed, ap is_null h.unmarked) refl) (same_id d.id)

-- The session of an id waits.
abbrev pub WaitingAt : ℕ → Db → ℕ → Type 0
WaitingAt idle_before db i = (c : Conversation) × (get i db ≡ some c) × Waiting idle_before c

Claimed-wait :
    (idle_before : ℕ) (db : Db) (ids : List ℕ)
    → All (Claimed idle_before db) ids
    → All (WaitingAt idle_before db) ids
Claimed-wait idle_before db [] h = tt
Claimed-wait idle_before db (i ∷ ids) h =
    let (c, found, idle) = h.0 in
    ((c, found, Waiting-is_idle idle_before c idle), Claimed-wait idle_before db ids h.1)

-- On well-formed rows, each session that a sweep claims is open, answered by the bot, on WhatsApp or
-- Messenger, without a goodbye and silent since before the bound; and no more than the limit are claimed.
pub claim_idle_sessions-WaitingAt :
    (t idle_before limit : ℕ) (db : Db)
    → WellFormed db
    → All (WaitingAt idle_before db) (claim_idle_sessions t idle_before limit db).0
      × (length (claim_idle_sessions t idle_before limit db).0 ≤ limit)
claim_idle_sessions-WaitingAt t idle_before limit db w =
    let claimed = claim_idle_sessions_idle t idle_before limit db w in
    (Claimed-wait idle_before db _ claimed.0, claimed.1)
