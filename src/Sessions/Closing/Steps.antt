-- ===== src/Sessions/Closing/Steps.antt =====
-- The steps of `_finish` of app/services/session_service.py when nothing dies: each returns.
use whatsapp_ai_bot.Prelude.{
  ℕ, String, Bool, false, not, ◌&&◌, ◌||◌, List, [], ◌∷◌, Option, none, some, ◌==◌, ◌≡◌, refl, sym,
  subst, inl, inr, arith, any, str_eq,
}
use whatsapp_ai_bot.Json.{Json}
use whatsapp_ai_bot.Store.Rows.{Db, Conversation, is_active}
use whatsapp_ai_bot.Store.Messages
use whatsapp_ai_bot.Store.Users.{IdleSession}
use whatsapp_ai_bot.World.{World, Wire, SendResult, Outcome}
use whatsapp_ai_bot.World.Effects.{
  pure, catch, ◌>>=◌, statement, call_send, continue, on_fault, outcome_of,
}
use whatsapp_ai_bot.World.Keeps.{View, At}
use whatsapp_ai_bot.World.Runs.{
  Runs, Returned, Runs-pure, Runs-bind, Runs-if, Runs-now, Runs-commit, Runs-publish,
  Runs-statement,
}
use whatsapp_ai_bot.Channels.Outbound.{Resolved, adapter, unavailable}
use whatsapp_ai_bot.Chat.Service.{text_or}
use whatsapp_ai_bot.Chat.Send.{outbound_id, or_raise, query, when_refused}
use whatsapp_ai_bot.Sessions.{
  Sweeper, outside, within_window, should_send_closing, record_closing, send_closing, send_through,
  closing_text, announce_row, refresh_row, announce_closed, finish_session, finish_sessions,
}
use whatsapp_ai_bot.Sessions.Closing.{is_still_open, awaits, Plain, Done, Shut, close_shuts}

module _ (i : ℕ) where
  module _ (s : Sweeper) (live : (t : ℕ) → (outside s).dies t ≡ false)
      (plain : (t : ℕ) → Plain ((outside s).send t)) where
    module _ (b : Bool) where
      abbrev V : View
      V = Done i b

      Runs-query : {A : Type 0} (f : Db → A) → Runs V (λ a. V) (statement (outside s) (query f))
      Runs-query f =
          Runs-statement (outside s) live (λ a. V) (query f) (λ t x y w h. (f y, refl, h))

      Runs-window : (o : Option ℕ) → Runs V (λ a. V) (within_window s o)
      Runs-window none = Runs-pure false (λ a. V) (λ x y w h. h)
      Runs-window (some t) =
          Runs-bind (λ a. V) (λ a. V) _ _ (Runs-now (outside s))
            (λ now. Runs-pure _ (λ a. V) (λ x y w h. h))

      Runs-should : (t : IdleSession) → Runs V (λ a. V) (should_send_closing s t)
      unfolding should_send_closing
      Runs-should t =
          let no_send : Runs V (λ a. V) (pure false) = Runs-pure false (λ a. V) (λ x y w h. h) in
          Runs-if (λ a. V) (not s.service.settings.enable_conversation_closing_message) _ _ no_send
            (Runs-if (λ a. V) (str_eq (s.strip (closing_text s)) "") _ _ no_send
              (Runs-if (λ a. V) (str_eq (text_or t.recipient_id "") "") _ _ no_send
                (Runs-bind (λ a. V) (λ a. V) _ _
                  (Runs-query (Messages.last_inbound_at t.conversation_id)) Runs-window)))

      abbrev Named : Option Json → View
      Named none x y w = V x y w
      Named (some j) x y w = (outbound_id j ≡ none) × V x y w

      rewired : (x y : Db) (w w' : List Wire) → Done i b x y w → Done i b x y w'
      rewired x y w w' h = record { durable = h.durable; here = h.here }

      -- The call, with what `except ExternalServiceError` makes of it.
      abbrev outcome :
          SendResult → String → String → Option ℕ → World → Outcome (Option Json) × World
      outcome r recipient text closing w =
          let (o, after) = outcome_of r recipient text none closing w in
          let (p, later) = continue o (λ result. pure (some result)) after in
          on_fault (when_refused s.service (pure none)) p later

      tried :
          (r : SendResult) (recipient text : String) (closing : Option ℕ) (w : World)
          → Plain r
          → At V w
          → Returned Named (outcome r recipient text closing w)
      unfolding pure
      tried r recipient text closing w (inl e) h =
          rw e (none, refl, rewired w.committed w.current w.wire _ h)
      tried r recipient text closing w (inr (j, e, plain_id)) h =
          rw e (some j, refl, (plain_id, rewired w.committed w.current w.wire _ h))

      Runs-call :
          (recipient text : String) (closing : Option ℕ)
          → Runs V Named (
              catch
                (call_send (outside s) recipient text none closing >>= λ result. pure (some result))
                (when_refused s.service (pure none)))
      unfolding catch ◌>>=◌ call_send
      Runs-call recipient text closing = record {
        at = λ w h.
            rw (live w.tick)
              (tried ((outside s).send w.tick) recipient text closing w (plain w.tick) h);
      }

      same_rows :
          (x y y' : Db) (w : List Wire)
          → y'.conversations ≡ y.conversations
          → Done i b x y w
          → Done i b x y' w
      unfolding is_still_open
      same_rows x y y' w e h = record {
        durable = h.durable;
        here = λ o.
            subst (λ cs. any (λ c. c.id == i && is_active c.status) cs ≡ false) (sym e) (h.here o);
      }

      stored_plain :
          (t c : ℕ) (j : Json) (x y : Db) (w : List Wire)
          → (outbound_id j ≡ none) × Done i b x y w
          → (a : Unit {0}) × ((or_raise
                (Messages.create t c (closing_text s) (outbound_id j) Messages.sent y)
                y).0
              ≡ some a)
            × Done i b x
                (or_raise
                  (Messages.create t c (closing_text s) (outbound_id j) Messages.sent y)
                  y).1
                w
      unfolding Messages.create Messages.insert_message Messages.taken
      stored_plain t c j x y w (e, h) = rw e (tt, refl, same_rows x y _ w refl h)

      Runs-record : (c : ℕ) (o : Option Json) → Runs (Named o) (λ a. V) (record_closing s c o)
      unfolding record_closing
      Runs-record c none = Runs-pure tt (λ a. V) (λ x y w h. h)
      Runs-record c (some j) =
          Runs-bind (λ a. V) (λ a. V) _ _
            (Runs-statement (outside s) live (λ a. V) _ (λ t x y w h. stored_plain t c j x y w h))
            (λ a. Runs-publish (outside s) live _)

      Runs-send : (r : Resolved) (t : IdleSession) → Runs V (λ a. V) (send_through s r t)
      unfolding send_through send_closing
      Runs-send (adapter c) t =
          Runs-bind Named (λ a. V) _ _ (Runs-call _ _ _) (Runs-record t.conversation_id)
      Runs-send (unavailable reason) t = Runs-pure tt (λ a. V) (λ x y w h. h)

      Runs-row : (o : Option Conversation) → Runs V (λ a. V) (announce_row s o)
      Runs-row none = Runs-pure tt (λ a. V) (λ x y w h. h)
      Runs-row (some c) = Runs-publish (outside s) live _

      Runs-refresh : (o : Option Conversation) → Runs V (λ a. V) (refresh_row s o)
      Runs-refresh none = Runs-pure tt (λ a. V) (λ x y w h. h)
      Runs-refresh (some c) = Runs-bind (λ a. V) (λ a. V) _ _ (Runs-query _) Runs-row

      Runs-announce : (c : ℕ) → Runs V (λ a. V) (announce_closed s c)
      unfolding announce_closed
      Runs-announce c = Runs-bind (λ a. V) (λ a. V) _ _ (Runs-query _) Runs-refresh

    Runs-finish :
        (b : Bool) (t : IdleSession)
        → Runs (Done i ((t.conversation_id == i) || b)) (λ a. Done i b) (finish_session s t)
    unfolding finish_session
    Runs-finish b t =
        let before = (t.conversation_id == i) || b in
        Runs-bind (λ a. Done i before) (λ a. Done i b) _ _ (Runs-should before t)
          (λ allowed.
            Runs-bind (λ a. Done i before) (λ a. Done i b) _ _
              (Runs-if (λ a. Done i before) allowed _ _ (Runs-send before _ t)
                (Runs-pure tt (λ a. Done i before) (λ x y w h. h)))
              (λ a.
                Runs-bind (λ a. Shut i b) (λ a. Done i b) _ _
                  (Runs-statement (outside s) live (λ a. Shut i b) _
                    (λ now x y w h. (
                      tt,
                      refl,
                      record {
                        here =
                            close_shuts i now t.conversation_id b y
                              (λ apart e. h.here (ground (arith, apart, e)));
                      },
                    )))
                  (λ a.
                    Runs-bind (λ a. Done i b) (λ a. Done i b) _ _
                      (Runs-commit (outside s) live (Done i b)
                        (λ x y w h. record { durable = h.here; here = h.here }))
                      (λ a. Runs-announce b t.conversation_id))))

    pub Runs-finish_all :
        (ts : List IdleSession)
        → Runs (Done i (awaits i ts)) (λ a. Done i false) (finish_sessions s ts)
    unfolding finish_sessions awaits any
    Runs-finish_all [] = Runs-pure tt (λ a. Done i false) (λ x y w h. h)
    Runs-finish_all (t ∷ ts) =
        Runs-bind (λ a. Done i (awaits i ts)) (λ a. Done i false) _ _ (Runs-finish (awaits i ts) t)
          (λ a. Runs-finish_all ts)
