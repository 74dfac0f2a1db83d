-- ===== src/Store/Conversations.antt =====
-- app/repositories/conversation.py, as functions from a database to a result and the database
-- after the statement. `now` is the clock at the call. The partial unique index
-- `uq_active_conversation_per_user` (alembic/versions/0003_search_and_concurrency.py) is checked
-- where a statement can violate it.
pub mod Claims
pub mod Opened
pub mod Laws
pub mod Active
pub mod Sweep
pub mod Consistent
pub mod Waiting
pub mod Untouched
use whatsapp_ai_bot.Prelude.{
  ℕ, ◌+◌, ◌-◌, zero, suc, String, Bool, true, false, not, ◌&&◌, ◌||◌, List, [], ◌∷◌, map, Option,
  none, some, ◌==◌, ltb, leb, if◌then◌else◌, select, find, any, update_where, latest, take, length,
  str_eq,
}
use whatsapp_ai_bot.Store.Rows.{
  Db, Conversation, Status, Mode, active, closed, bot, human, is_active, is_human, whatsapp,
  messenger, sales_lead, AiLog,
}

abbrev pub is_null : Option ℕ → Bool
is_null none = true
is_null (some t) = false

-- `get`
unfoldable pub get : ℕ → Db → Option Conversation
get id db = find (λ c. c.id == id) db.conversations

unfoldable pub is_open_for : ℕ → Conversation → Bool
is_open_for user_id c = c.user_id == user_id && is_active c.status

unfoldable pub active_for_user : ℕ → Db → Option Conversation
unfolding is_open_for
active_for_user user_id db =
    latest (λ c. c.created_at) (select (is_open_for user_id) db.conversations)

-- The index `uq_active_conversation_per_user`: no user has two active rows.
unfoldable pub index_holds : List Conversation → Bool
unfolding is_open_for
index_holds [] = true
index_holds (c ∷ cs) = not (is_active c.status && any (is_open_for c.user_id) cs) && index_holds cs

abbrev pub update_rows : (Conversation → Bool) → (Conversation → Conversation) → Db → Db
update_rows p f db = record db { conversations = update_where p f db.conversations }

-- `_REVIVE`, with the new activity that `_revive` adds.
abbrev pub revived : ℕ → Conversation → Conversation
revived now c = record c {
  status = active;
  closed_at = none;
  closing_sent_at = none;
  last_activity_at = now;
}

abbrev pub is_target : ℕ → Conversation → Bool
is_target id c = c.id == id && not (is_active c.status)

-- `_revive`: `none` when no closed row has the id, or when the index refuses the update.
unfoldable pub revive : ℕ → ℕ → Db → Option ℕ × Db
unfolding index_holds
revive now id db =
    let db' = update_rows (is_target id) (revived now) db in
    if any (is_target id) db.conversations && index_holds db'.conversations
    then (some id, db')
    else (none, db)

abbrev pub closed_since : ℕ → Option ℕ → Bool
closed_since not_before none = false
closed_since not_before (some t) = leb not_before t

abbrev pub closing_time : Conversation → ℕ
closing_time c = elim c.closed_at [ none ↦ 0 | some t ↦ t ]

-- The candidate of `reopen_recent`: the user's session that was closed last, if not too long ago.
unfoldable pub recently_closed : ℕ → ℕ → Db → Option Conversation
recently_closed user_id not_before db = latest closing_time (
    select
      (λ c. c.user_id == user_id && not (is_active c.status) && closed_since not_before c.closed_at)
      db.conversations)

unfoldable pub reopen_recent : ℕ → ℕ → ℕ → Db → Option Conversation × Db
unfolding recently_closed revive get
reopen_recent now user_id not_before db = elim (recently_closed user_id not_before db) [
  | none ↦ (none, db)
  | some candidate ↦
      let (reopened, db') = revive now candidate.id db in
      elim reopened [ none ↦ (none, db') | some id ↦ (get id db', db') ]
]

-- `reopen`
unfoldable pub reopen : ℕ → ℕ → Db → Option Conversation × Db
unfolding revive get
reopen now id db =
    let (reopened, db') = revive now id db in
    elim reopened [ none ↦ (none, db') | some i ↦ (get i db', db') ]

-- The insert of `get_or_create_active`, with `ON CONFLICT DO NOTHING` on the partial index.
unfoldable pub insert_active : ℕ → ℕ → String → Db → Option ℕ × Db
unfolding is_open_for
insert_active now user_id channel db =
    if any (is_open_for user_id) db.conversations then (none, db) else (
      some db.next_conversation,
      record db {
        conversations =
            record {
              id = db.next_conversation;
              user_id = user_id;
              channel = channel;
              status = active;
              mode = bot;
              tag = none;
              assigned_operator = none;
              handoff_at = none;
              last_activity_at = now;
              welcome_sent_at = none;
              closing_sent_at = none;
              closed_at = none;
              created_at = now;
            }
            ∷ db.conversations;
        next_conversation = suc db.next_conversation;
      },
    )

-- The last steps of `get_or_create_active`: insert, and read the winner's row if the insert lost.
-- `none` is the `ConflictError`.
unfoldable pub open_new : ℕ → ℕ → String → Db → Option Conversation × Db
unfolding insert_active get active_for_user
open_new now user_id channel db =
    let (created, db') = insert_active now user_id channel db in
    elim created [
      | none ↦ (active_for_user user_id db', db')
      | some id ↦ elim (get id db') [
        | some c ↦ (some c, db')
        | none ↦ (active_for_user user_id db', db')
      ]
    ]

-- `get_or_create_active`; `reopen_within` is in seconds, and `none` or 0 never reopens.
unfoldable pub get_or_create_active : ℕ → ℕ → Option ℕ → String → Db → Option Conversation × Db
unfolding active_for_user reopen_recent open_new
get_or_create_active now user_id reopen_within channel db = elim (active_for_user user_id db) [
  | some c ↦ (some c, db)
  | none ↦ elim reopen_within [
    | none ↦ open_new now user_id channel db
    | some zero ↦ open_new now user_id channel db
    | some (suc n) ↦
        let (resumed, db') = reopen_recent now user_id (now - suc n) db in
        elim resumed [ some c ↦ (some c, db') | none ↦ open_new now user_id channel db' ]
  ]
]

abbrev pub or_else : Option String → Option String → Option String
or_else none old = old
or_else (some t) old = some t

-- The fields that `set_mode` assigns.
unfoldable pub switched : ℕ → Mode → Option String → Option String → Conversation → Conversation
switched now mode operator tag c = record c {
  mode = mode;
  tag = or_else tag c.tag;
  assigned_operator = if is_human mode then operator else none;
  handoff_at = if is_human mode then some now else none;
  last_activity_at = now;
}

-- `set_mode`, on the row of the loaded conversation.
unfoldable pub set_mode : ℕ → ℕ → Mode → Option String → Option String → Db → Db
unfolding switched
set_mode now id mode operator tag db =
    update_rows (λ c. c.id == id) (switched now mode operator tag) db

unfoldable pub touch : ℕ → ℕ → Db → Db
touch now id db = update_rows (λ c. c.id == id) (λ c. record c { last_activity_at = now }) db

unfoldable pub mark_welcome_sent : ℕ → ℕ → Db → Db
mark_welcome_sent now id db =
    update_rows (λ c. c.id == id && is_null c.welcome_sent_at)
      (λ c. record c { welcome_sent_at = some now }) db

unfoldable pub count_for_user : ℕ → Db → ℕ
count_for_user user_id db = length (select (λ c. c.user_id == user_id) db.conversations)

-- `SWEEPABLE_CHANNELS`
unfoldable pub is_sweepable : String → Bool
is_sweepable channel = str_eq channel whatsapp || str_eq channel messenger

-- The `WHERE` clause of the candidates of `claim_idle_sessions`.
unfoldable pub is_idle : ℕ → Conversation → Bool
unfolding is_sweepable
is_idle idle_before c =
    is_active c.status
    && not (is_human c.mode)
    && is_sweepable c.channel
    && is_null c.closing_sent_at
    && ltb c.last_activity_at idle_before

-- `ORDER BY last_activity_at`
unfoldable pub insert_by_activity : Conversation → List Conversation → List Conversation
insert_by_activity c [] = c ∷ []
insert_by_activity c (d ∷ ds) =
    let rest = insert_by_activity c ds in
    if leb c.last_activity_at d.last_activity_at then c ∷ d ∷ ds else d ∷ rest

unfoldable pub sort_by_activity : List Conversation → List Conversation
unfolding insert_by_activity
sort_by_activity [] = []
sort_by_activity (c ∷ cs) = insert_by_activity c (sort_by_activity cs)

unfoldable pub candidates : ℕ → ℕ → Db → List ℕ
unfolding is_idle sort_by_activity
candidates idle_before limit db =
    map (λ c. c.id) (take limit (sort_by_activity (select (is_idle idle_before) db.conversations)))

abbrev pub is_claimable : List ℕ → Conversation → Bool
is_claimable ids c = any (λ id. c.id == id) ids && is_null c.closing_sent_at

-- `claim_idle_sessions`: the ids of the rows that the update reached, and the database after it.
unfoldable pub claim_idle_sessions : ℕ → ℕ → ℕ → Db → List ℕ × Db
unfolding candidates
claim_idle_sessions now idle_before limit db =
    let ids = candidates idle_before limit db in
    (
      map (λ c. c.id) (select (is_claimable ids) db.conversations),
      update_rows (is_claimable ids) (λ c. record c { closing_sent_at = some now }) db,
    )

-- `close`
unfoldable pub close : ℕ → ℕ → Db → Db
close now id db =
    update_rows (λ c. c.id == id) (λ c. record c { status = closed; closed_at = some now }) db

-- `ON DELETE SET NULL`
abbrev pub is_about : ℕ → Option ℕ → Bool
is_about id none = false
is_about id (some i) = i == id

abbrev pub detached : ℕ → AiLog → AiLog
detached id log =
    if is_about id log.conversation_id then record log { conversation_id = none } else log

-- `delete`; the messages go with their conversation, and the log of the model stays without it.
unfoldable pub delete : ℕ → Db → Db
delete id db = record db {
  conversations = select (λ c. not (c.id == id)) db.conversations;
  messages = select (λ x. not (x.conversation_id == id)) db.messages;
  ai_logs = map (detached id) db.ai_logs;
}

abbrev pub is_tagged : Option String → Bool
is_tagged none = false
is_tagged (some t) = str_eq t sales_lead

abbrev pub is_unassigned : Option String → Bool
is_unassigned none = true
is_unassigned (some name) = false

-- `_UNCLAIMED_LEAD`
unfoldable pub is_unclaimed_lead : Conversation → Bool
is_unclaimed_lead c =
    is_active c.status && is_tagged c.tag && is_human c.mode && is_unassigned c.assigned_operator

unfoldable pub count_unclaimed_leads : Db → ℕ
unfolding is_unclaimed_lead
count_unclaimed_leads db = length (select is_unclaimed_lead db.conversations)
