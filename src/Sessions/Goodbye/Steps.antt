-- ===== src/Sessions/Goodbye/Steps.antt =====
-- The steps of `_finish` and the goodbyes that are left to say.
use whatsapp_ai_bot.Prelude.{
  ℕ, ◌+◌, String, Bool, true, false, List, [], ◌∷◌, Option, none, some, ◌==◌, ◌≡◌, refl, arith,
  if◌then◌else◌, select, any, length, not, ◌&&◌, str_eq, ap, subst,
}
use whatsapp_ai_bot.Json.{Json}
use whatsapp_ai_bot.Store.Rows.{Db, Conversation, Message}
use whatsapp_ai_bot.Store.Messages
use whatsapp_ai_bot.Store.Messages.{insert_message, taken}
use whatsapp_ai_bot.Store.Conversations
use whatsapp_ai_bot.Store.Users.{IdleSession}
use whatsapp_ai_bot.World.{
  M, Wire, Fault, external_service, redis_down, killed, conversation_closed,
}
use whatsapp_ai_bot.World.Effects.{◌>>◌, statement, commit}
use whatsapp_ai_bot.World.Keeps.{
  Keeps, Durable, Keeps-pure, Keeps-throw, Keeps-bind, Keeps-if, Keeps-now, Keeps-statement,
  Keeps-commit, Keeps-publish,
}
use whatsapp_ai_bot.World.Leads.{
  Leads, Implies, Leads-of_Keeps, Leads-bind, Leads-pure, Leads-catch, Leads-if, Leads-weaken,
  Leads-call_send,
}
use whatsapp_ai_bot.Channels.Outbound.{Resolved, adapter, unavailable}
use whatsapp_ai_bot.Chat.Service.{text_or}
use whatsapp_ai_bot.Chat.Send.{change, or_raise, query, when_refused}
use whatsapp_ai_bot.Sessions.{
  Sweeper, outside, within_window, should_send_closing, record_closing, send_closing, send_through,
  closing_text, announce_row, refresh_row, announce_closed, finish_session, finish_sessions,
}
use whatsapp_ai_bot.Sessions.Goodbye.{
  Left, Left-fewer, Left-commit, Left-of_kept, Left-sent, rows_of, unmarked, remaining,
}
use whatsapp_ai_bot.Sessions.Goodbye.Rows.{rows_of-close, unmarked-close}

abbrev pub one_for : ℕ → ℕ → ℕ
one_for i j = if j == i then 1 else 0

inserted :
    (b : Bool) (m : Message) (db : Db)
    → (or_raise (if b then none else some (insert_message m db)) db).1.conversations
      ≡ db.conversations
unfolding insert_message
inserted true m db = refl
inserted false m db = refl

-- The statement that records the goodbye writes no conversation.
pub created :
    (t c : ℕ) (text : String) (id : Option String) (status : String) (db : Db)
    → (or_raise (Messages.create t c text id status db) db).1.conversations ≡ db.conversations
unfolding Messages.create
created t c text id status db = inserted (taken id db.next_message db) _ db

module _ (i : ℕ) (s : Sweeper) where
  pub Left-Durable : (n : ℕ) → Durable (Left i n)
  Left-Durable n = record {
    lost = λ committed current wire h. record {
      single_committed = h.single_committed;
      single = h.single_committed;
      few = h.few;
      held = h.held;
      here = h.held;
    };
  }

  -- With `n` goodbyes left, a step that says none.
  module _ (n : ℕ) where
    Left-statement :
        {A : Type 0} (f : ℕ → Db → Option A × Db)
        → ((t : ℕ) (db : Db) → rows_of i (f t db).1 ≡ rows_of i db)
        → ((t : ℕ) (db : Db) → unmarked i (f t db).1 ≡ unmarked i db)
        → Keeps (Left i n) (statement (outside s) f)
    Left-statement f rows claims =
        Keeps-statement (Left-Durable n) (outside s) f (λ t committed current wire h.
          Left-of_kept i n committed current (f t current).1 wire (rows t current)
            (claims t current) h)

    Left-query : {A : Type 0} (f : Db → A) → Keeps (Left i n) (statement (outside s) (query f))
    Left-query f = Left-statement (query f) (λ t db. refl) (λ t db. refl)

    Left-within_window : (o : Option ℕ) → Keeps (Left i n) (within_window s o)
    Left-within_window none = Keeps-pure false
    Left-within_window (some t) =
        Keeps-bind _ _ (Keeps-now (Left-Durable n) (outside s)) (λ now. Keeps-pure _)

    Left-should_send_closing : (t : IdleSession) → Keeps (Left i n) (should_send_closing s t)
    unfolding should_send_closing
    Left-should_send_closing t =
        Keeps-if (not s.service.settings.enable_conversation_closing_message) _ _ (Keeps-pure false)
          (Keeps-if (str_eq (s.strip (closing_text s)) "") _ _ (Keeps-pure false) (
            Keeps-if (str_eq (text_or t.recipient_id "") "") _ _ (Keeps-pure false) (
              Keeps-bind _ _ (Left-query (Messages.last_inbound_at t.conversation_id))
                Left-within_window)))

    Left-record_closing : (c : ℕ) (o : Option Json) → Keeps (Left i n) (record_closing s c o)
    unfolding record_closing rows_of unmarked
    Left-record_closing c none = Keeps-pure tt
    Left-record_closing c (some r) =
        Keeps-bind _ _
          (Left-statement _
            (λ t db. ap (λ cs. length (select (λ x. x.id == i) cs)) (created t c _ _ _ db))
            (λ t db.
              ap (λ cs. any (λ x. x.id == i && Conversations.is_null x.closing_sent_at) cs)
                (created t c _ _ _ db)))
          (λ a. Keeps-publish (Left-Durable n) (outside s) _)

    Left-announce_row : (o : Option Conversation) → Keeps (Left i n) (announce_row s o)
    Left-announce_row none = Keeps-pure tt
    Left-announce_row (some c) =
        Keeps-publish (Left-Durable n) (outside s) (conversation_closed c.id)

    Left-refresh_row : (o : Option Conversation) → Keeps (Left i n) (refresh_row s o)
    Left-refresh_row none = Keeps-pure tt
    Left-refresh_row (some c) = Keeps-bind _ _ (Left-query _) Left-announce_row

    -- From the close of the session on.
    Left-closed :
        (c : ℕ)
        → Keeps (Left i n) (
            statement (outside s) (change (λ t. Conversations.close t c))
            >> (commit (outside s) >> announce_closed s c))
    unfolding announce_closed
    Left-closed c =
        Keeps-bind _ _
          (Left-statement _ (λ t db. rows_of-close i t c db) (λ t db. unmarked-close i t c db))
          (λ a.
            Keeps-bind _ _ (Keeps-commit (Left-Durable n) (outside s) (Left-commit i n))
              (λ b. Keeps-bind _ _ (Left-query (Conversations.get c)) Left-refresh_row))

    Left-refused :
        {A : Type 0} (handler : M A)
        → Keeps (Left i n) handler
        → (e : Fault) → Keeps (Left i n) (when_refused s.service handler e)
    Left-refused handler k external_service = k
    Left-refused handler k redis_down = Keeps-throw redis_down
    Left-refused handler k killed = Keeps-throw killed

  module _ (n : ℕ) (t : IdleSession) where
    abbrev own : ℕ
    own = one_for i t.conversation_id + n

    unsaid :
        (committed current : Db) (wire : List Wire)
        → Left i own committed current wire
        → Left i n committed current wire
    unsaid committed current wire h = Left-fewer i own n committed current wire (omega arith) h

    -- The goodbye to the session, if any: it is the one that was left for it.
    Left-send_closing : Leads (Left i own) (λ a. Left i n) (Left i n) (send_closing s t)
    unfolding send_closing
    Left-send_closing =
        Leads-bind (λ o. Left i n) (λ a. Left i n) _ _
          (Leads-catch (λ o. Left i n) (Left i n) _ _
            (Leads-bind (λ r. Left i n) (λ o. Left i n) _ _
              (Leads-call_send (outside s)
                (λ committed current wire h.
                  (Left-Durable n).lost committed current wire (unsaid committed current wire h))
                (Left i n) (text_or t.recipient_id "") (closing_text s) none
                (some t.conversation_id)
                (λ committed current wire h.
                  let spent : (taken : Bool) (now : Db)
                      → Left i own committed now wire
                      → Left i n committed now _ =
                    λ taken now g.
                      Left-sent i n t.conversation_id taken (text_or t.recipient_id "")
                        (closing_text s) committed now wire g in
                  (
                    spent true current h,
                    spent false current h,
                    spent false committed ((Left-Durable own).lost committed current wire h),
                  )))
              (λ r. Leads-of_Keeps (λ x y z h. h) (Keeps-pure (some r))))
            (λ e. Leads-of_Keeps (λ x y z h. h) (Left-refused n _ (Keeps-pure none) e)))
          (λ o. Leads-of_Keeps (λ x y z h. h) (Left-record_closing n t.conversation_id o))

    Left-send_through :
        (r : Resolved) → Leads (Left i own) (λ a. Left i n) (Left i n) (send_through s r t)
    unfolding send_through
    Left-send_through (adapter c) = Left-send_closing
    Left-send_through (unavailable reason) = Leads-pure tt (λ a. Left i n) unsaid

    pub Left-finish_session : Leads (Left i own) (λ a. Left i n) (Left i n) (finish_session s t)
    unfolding finish_session
    Left-finish_session =
        Leads-bind (λ a. Left i own) (λ a. Left i n) _ _
          (Leads-of_Keeps unsaid (Left-should_send_closing own t))
          (λ allowed.
            Leads-bind (λ a. Left i n) (λ a. Left i n) _ _
              (Leads-if (λ a. Left i n) allowed _ _ (Left-send_through _)
                (Leads-pure tt (λ a. Left i n) unsaid))
              (λ a. Leads-of_Keeps (λ x y z h. h) (Left-closed n t.conversation_id)))

  remaining_first :
      (t : IdleSession) (ts : List IdleSession)
      → one_for i t.conversation_id + remaining i ts ≡ remaining i (t ∷ ts)
  unfolding remaining select
  remaining_first t ts = ground arith

  pub Left-finish_sessions :
      (ts : List IdleSession)
      → Leads (Left i (remaining i ts)) (λ a. Left i 0) (Left i 0) (finish_sessions s ts)
  unfolding finish_sessions remaining select
  Left-finish_sessions [] = Leads-pure tt (λ a. Left i 0) (λ x y z h. h)
  Left-finish_sessions (t ∷ ts) =
      let n = remaining i ts in
      let spent : Implies (Left i n) (Left i 0) =
        λ x y z h. Left-fewer i n 0 x y z (omega arith) h in
      subst
        (λ k.
          Leads (Left i k) (λ a. Left i 0) (Left i 0) (finish_session s t >> finish_sessions s ts))
        (remaining_first t ts)
        (Leads-bind (λ a. Left i n) (λ a. Left i 0) _ _
          (Leads-weaken (λ a. Left i n) (Left i 0) _ spent (Left-finish_session n t))
          (λ a. Left-finish_sessions ts))
