-- ===== src/Replies/Steps.antt =====
-- The steps of `send_manual_reply` of app/services/reply_service.py, on every path.
use whatsapp_ai_bot.Prelude.{
  ℕ, suc, ◌+◌, String, List, Option, none, some, ap, arith, ltb, select, length,
}
use whatsapp_ai_bot.Json.{Json}
use whatsapp_ai_bot.Store.Rows.{Db, Conversation, Message, User}
use whatsapp_ai_bot.Store.Messages
use whatsapp_ai_bot.Store.Messages.{insert_message, taken}
use whatsapp_ai_bot.Store.Conversations
use whatsapp_ai_bot.Store.Users.{recipient_id}
use whatsapp_ai_bot.World.{Wire}
use whatsapp_ai_bot.World.Effects.{pure}
use whatsapp_ai_bot.World.Keeps.{View}
use whatsapp_ai_bot.World.Leads.{
  Leads, Leads-bind, Leads-pure, Leads-now, Leads-if, Leads-commit, Leads-publish, Leads-query,
  Leads-statement, Leads-call_send, Leads-weaken,
}
use whatsapp_ai_bot.Channels.Outbound.{Resolved, adapter, unavailable}
use whatsapp_ai_bot.Chat.Send.{outbound_id}
use whatsapp_ai_bot.Sessions.{Sweeper, outside, customer_service_window}
use whatsapp_ai_bot.Sessions.Goodbye.Steps.{created}
use whatsapp_ai_bot.Replies.{
  Reply, replied, declined, ReplyError, resets_idle_timer, record_reply, send_and_record,
  within_service_window, reply_through, reply_to_recipient, reply_to_user, reply_in, reply_found,
  send_manual_reply,
}
use whatsapp_ai_bot.Replies.Reviving.{Revived, Maybe, revives, finds}
use whatsapp_ai_bot.Replies.Views
use whatsapp_ai_bot.Replies.Views.{
  Quiet-Accounted, Quiet-lost, Sent-lost, Stored-lost, Accounted-refused, still_open_rows,
  touch_open, written_one, accepted_calls,
}

module _ (j : ℕ) (m : List Message) (x : List Wire) where
  abbrev Quiet : View
  Quiet = Views.Quiet j m x

  abbrev Accounted : View
  Accounted = Views.Accounted j m x

  abbrev Sent : ℕ → View
  Sent = Views.Sent j m x

  abbrev Stored : View
  Stored = Views.Stored j m x

  abbrev Found : Conversation → View
  Found = Views.Found j m x

  abbrev Live : Conversation → View
  Live = Views.Live j m x

  abbrev After : Reply → View
  After = Views.After j m x

  module _ (s : Sweeper) where
    -- From the revived session on.
    module _ (text : String) where
      lost_live : (c : Conversation) (a b : Db) (w : List Wire) → Live c a b w → Accounted a a w
      lost_live c a b w h = Quiet-lost j m x a b w h.quiet

      recorded :
          (c : Conversation) (r : Json)
          → Leads (Sent 0) After Accounted (record_reply s c.id text r)
      unfolding record_reply Conversations.touch
      recorded c r =
          Leads-bind (λ a. Sent 1) After _ _
            (Leads-statement (outside s) (Sent-lost j m x 0) (λ a. Sent 1) _
              (λ t a b w u h e. record {
                one = h.one;
                kept_messages = h.kept_messages;
                written =
                    omega
                      (arith, h.written, written_one t c.id text (outbound_id r) Messages.sent b e);
                open_session = still_open_rows j m x b _ (created t c.id text _ _ b) h.open_session;
              }))
            (λ a.
              Leads-bind (λ b. Sent 1) After _ _
                (Leads-if (λ b. Sent 1) (resets_idle_timer s) _ _
                  (Leads-statement (outside s) (Sent-lost j m x 1) (λ b. Sent 1) _
                    (λ t a b w u h e. record {
                      one = h.one;
                      kept_messages = h.kept_messages;
                      written = h.written;
                      open_session = touch_open j m x t c.id b h.open_session;
                    }))
                  (Leads-pure tt (λ b. Sent 1) (λ a b w h. h)))
                (λ b.
                  Leads-bind (λ u. Stored) After _ _
                    (Leads-commit (outside s) (Sent-lost j m x 1) Stored (λ a b w h. record {
                      one = h.one;
                      kept_messages = omega (arith, h.written);
                      open_session = h.open_session;
                    }))
                    (λ u.
                      Leads-bind (λ v. Stored) After _ _
                        (Leads-publish (outside s) (Stored-lost j m x) _)
                        (λ v. Leads-pure replied After (λ a b w h. h)))))

      sends :
          (c : Conversation) (recipient : String)
          → Leads (Live c) After Accounted (send_and_record s c.id recipient text)
      unfolding send_and_record accepted_calls select
      sends c recipient =
          Leads-bind (λ r. Sent 0) After _ _
            (Leads-call_send (outside s) (lost_live c) (Sent 0) recipient text none none (λ a b w h.
              let refused = Accounted-refused j m x a b w recipient h.quiet in
              (
                record {
                  one = ap (λ y. suc (accepted_calls y)) h.quiet.unsent;
                  kept_messages = h.quiet.kept_messages;
                  written = omega (arith, ap (λ ms. length ms) h.quiet.written);
                  open_session = h.open_session;
                },
                refused,
                record { kept_messages = refused.kept_messages },
              )))
            (λ r. recorded c r)

      declines :
          (c : Conversation) (e : ReplyError) → Leads (Live c) After Accounted (pure (declined e))
      declines c e = Leads-pure (declined e) After (λ a b w h. h.quiet)

      in_window :
          (c : Conversation) (recipient : String) (o : Option ℕ)
          → Leads (Live c) After Accounted (within_service_window s c.id recipient text o)
      in_window c recipient none = declines c _
      in_window c recipient (some t) =
          Leads-bind (λ k. Live c) After _ _ (Leads-now (outside s))
            (λ now.
              Leads-if After (ltb (t + customer_service_window) now) _ _ (declines c _)
                (sends c recipient))

      through :
          (c : Conversation) (recipient : String) (r : Resolved)
          → Leads (Live c) After Accounted (reply_through s c.id recipient text r)
      through c recipient (unavailable reason) = declines c _
      through c recipient (adapter channel) =
          Leads-bind (λ o. Live c) After _ _
            (Leads-query (outside s) (lost_live c) (Messages.last_inbound_at c.id))
            (in_window c recipient)

      to_recipient :
          (c : Conversation) (o : Option String)
          → Leads (Live c) After Accounted (reply_to_recipient s c text o)
      to_recipient c none = declines c _
      to_recipient c (some recipient) = through c recipient _

      to_user :
          (c : Conversation) (o : Option User)
          → Leads (Live c) After Accounted (reply_to_user s c text o)
      to_user c none = declines c _
      to_user c (some u) = to_recipient c (recipient_id u)

      in_session :
          (o : Option Conversation) → Leads (Revived j m x o) After Accounted (reply_in s text o)
      in_session none = Leads-pure _ After (λ a b w h. h)
      in_session (some c) =
          Leads-bind (λ o. Live c) After _ _ (Leads-query (outside s) (lost_live c) _) (to_user c)

      for_found :
          (o : Option Conversation) → Leads (Maybe j m x o) After Accounted (reply_found s text o)
      for_found none = Leads-pure _ After (λ a b w h. h)
      for_found (some c) =
          Leads-bind (Revived j m x) After _ _
            (Leads-weaken (Revived j m x) Accounted _ (Quiet-Accounted j m x) (revives j m x s c))
            in_session

      pub replies : Leads Quiet After Accounted (send_manual_reply s j text)
      unfolding send_manual_reply
      replies =
          Leads-bind (Maybe j m x) After _ _
            (Leads-weaken (Maybe j m x) Accounted _ (Quiet-Accounted j m x) (finds j m x s))
            for_found
