-- ===== src/Chat/Reservation/Own.antt =====
-- `_send_once` for the message that is counted itself: the reservation, the send that it allows,
-- and the plain text after refused buttons.
use whatsapp_ai_bot.Prelude.{
  ℕ, ◌≤◌, ◌∷◌, String, Bool, true, false, List, Option, none, some, ◌≡◌, ◌∙◌, sym, subst, arith,
  inl, inr, str_eq, eq_iff, Bool-cases,
}
use whatsapp_ai_bot.Store.Rows.{Db}
use whatsapp_ai_bot.Store.Conversations
use whatsapp_ai_bot.Store.Messages.{reserved, reserve_reply}
use whatsapp_ai_bot.Store.Messages.Laws.{
  reserved-reserve_reply, reserve_reply_fresh, reserve_reply_taken,
}
use whatsapp_ai_bot.World.{Wire, Fault, external_service, redis_down, killed}
use whatsapp_ai_bot.World.Effects.{pure, throw, catch, ◌>>=◌, ◌>>◌, rollback, wire_of}
use whatsapp_ai_bot.World.Keeps.{Keeps, View, Keeps-pure}
use whatsapp_ai_bot.World.Leads.{
  Leads, Leads-of_Keeps, Leads-bind, Leads-pure, Leads-catch, Leads-At, Leads-if, Leads-weaken,
  Leads-commit, Leads-statement, Leads-call_send,
}
use whatsapp_ai_bot.Chat.Service.{Service}
use whatsapp_ai_bot.Chat.Send.{
  Sender, plain, buttons, touch, send_with, send_reserved, send_reply, send_once, when_refused,
  send_call,
}
use whatsapp_ai_bot.Chat.Reservation.Views.{
  Once, Written, Held, Once-Durable, Once-of_grown, Once-of_Held, answers, accepted_answers,
  answers-own, accepted_answers-own, accepted_answers-refused, accepted-answers,
}
use whatsapp_ai_bot.Chat.Reservation.Replies.{
  Once-when_refused, Once-after, Once-send_unprompted, Once-rolled_back, Once-send_reply_other,
}

module _ (m : String) (v : Service) where
  Written-lost :
      (committed current : Db) (wire : List Wire)
      → Written m committed current wire
      → Once m committed committed wire
  Written-lost committed current wire h = (Once-Durable m).lost committed current wire h.once

  -- The reply to the message itself.
  module _ (wa_id text : String) where
    first_call : Leads (Held m 0) (λ r. Once m) (Held m 1) (send_call v wa_id text (some m))
    first_call =
        Leads-call_send v.outside
          (λ committed current wire h. record {
            durable = h.durable;
            here = h.durable;
            tried = omega (arith, h.tried);
            none_taken = h.none_taken;
          })
          (Once m) wa_id text (some m) none
          (λ committed current wire h.
            let more = answers-own m false wa_id text (some m) none wire in
            let refused = accepted_answers-refused m wa_id text (some m) none wire in
            (
              record {
                stays = λ e. h.here;
                few = omega (arith, h.tried, answers-own m true wa_id text (some m) none wire);
                one = omega (
                  arith,
                  h.none_taken,
                  accepted_answers-own m true wa_id text (some m) none wire,
                );
                unanswered = λ e. absurd (cc (h.durable, e));
              },
              record {
                durable = h.durable;
                here = h.here;
                tried = omega (arith, h.tried, more);
                none_taken = refused ∙ h.none_taken;
              },
              record {
                durable = h.durable;
                here = h.durable;
                tried = omega (arith, h.tried, more);
                none_taken = refused ∙ h.none_taken;
              },
            ))

    second_call : Leads (Held m 1) (λ r. Once m) (Once m) (send_call v wa_id text (some m))
    second_call =
        Leads-call_send v.outside
          (λ committed current wire h.
            Once-of_Held m 1 (omega arith) committed committed wire (record {
              durable = h.durable;
              here = h.durable;
              tried = h.tried;
              none_taken = h.none_taken;
            }))
          (Once m) wa_id text (some m) none
          (λ committed current wire h.
            let few : (taken : Bool)
                → answers m (wire_of taken wa_id text (some m) none ∷ wire) ≤ 2 =
              λ taken. omega (arith, h.tried, answers-own m taken wa_id text (some m) none wire) in
            let one : (taken : Bool)
                → accepted_answers m (wire_of taken wa_id text (some m) none ∷ wire) ≤ 1 =
              λ taken.
                omega (
                  arith,
                  h.none_taken,
                  accepted_answers-own m taken wa_id text (some m) none wire,
                ) in
            (
              record {
                stays = λ e. h.here;
                few = few true;
                one = one true;
                unanswered = λ e. absurd (cc (h.durable, e));
              },
              record {
                stays = λ e. h.here;
                few = few false;
                one = one false;
                unanswered = λ e. absurd (cc (h.durable, e));
              },
              record {
                stays = λ e. e;
                few = few false;
                one = one false;
                unanswered = λ e. absurd (cc (h.durable, e));
              },
            ))

    gone_on :
        {A : Type 0} (n : ℕ)
        → n ≤ 2
        → (e : Fault) → Leads (Held m n) (λ (r : A). Once m) (Once m) (throw e)
    unfolding throw
    gone_on n small e = record { at = λ w h. Once-of_Held m n small w.committed w.current w.wire h }

    refused_first :
        (e : Fault)
        → Leads
            (Held m 1)
            (λ r. Once m)
            (Once m)
            (when_refused v (send_call v wa_id text (some m)) e)
    refused_first external_service = second_call
    refused_first redis_down = gone_on 1 (omega arith) redis_down
    refused_first killed = gone_on 1 (omega arith) killed

    sent_own :
        (sender : Sender)
        → Leads (Held m 0) (λ r. Once m) (Once m) (send_with v sender wa_id text (some m))
    unfolding send_with
    sent_own plain =
        Leads-weaken (λ r. Once m) (Once m) _ (Once-of_Held m 1 (omega arith)) first_call
    sent_own buttons = Leads-catch (λ r. Once m) (Once m) _ _ first_call refused_first

    tried_own :
        (sender : Sender)
        → Leads
            (Held m 0)
            (λ r. Once m)
            (Once m)
            (catch
              (send_with v sender wa_id text (some m) >>= λ result. pure (some result))
              (when_refused v (pure none)))
    tried_own sender =
        Leads-catch (λ r. Once m) (Once m) _ _
          (Leads-bind (λ r. Once m) (λ r. Once m) _ _ (sent_own sender)
            (λ r. Leads-of_Keeps (λ a b c h. h) (Keeps-pure (some r))))
          (λ e. Leads-of_Keeps (λ a b c h. h) (Once-when_refused m v _ (Keeps-pure none) e))

    module _ (sender : Sender) (c : ℕ) where
      touched : Leads (Written m) (λ r. Written m) (Once m) (touch v c true)
      unfolding touch Conversations.touch reserved
      touched =
          Leads-if (λ r. Written m) _ _ _ (Leads-pure tt (λ r. Written m) (λ a b w h. h))
            (Leads-if (λ r. Written m) _ _ _ (Leads-pure tt (λ r. Written m) (λ a b w h. h))
              (Leads-statement v.outside (Written-lost) (λ r. Written m) _
                (λ t committed current wire a h e. record {
                  here = h.here;
                  once = Once-of_grown m committed current _ wire (λ e. e) h.once;
                  silent = h.silent;
                })))

      send_reserved_own :
          (id : ℕ)
          → Leads (Written m) (λ r. Once m) (Once m) (send_reserved v sender wa_id c text m id)
      unfolding send_reserved
      send_reserved_own id =
          Leads-bind (λ r. Written m) (λ r. Once m) _ _ touched
            (λ a.
              Leads-bind (λ r. Held m 0) (λ r. Once m) _ _
                (Leads-commit v.outside Written-lost (Held m 0) (λ committed current wire h.
                  record {
                    durable = h.here;
                    here = h.here;
                    tried = omega (arith, h.silent);
                    none_taken = omega (arith, h.silent, accepted-answers m wire);
                  }))
                (λ b.
                  Leads-bind (λ r. Once m) (λ r. Once m) _ _ (tried_own sender)
                    (λ r. Leads-of_Keeps (λ x y z h. h) (Once-after m v c id r))))

  abbrev after_reserve : Option ℕ → View
  after_reserve none = Once m
  after_reserve (some id) = Written m

  reserve_leads :
      (c : ℕ) (text : String) (t : ℕ) (committed current : Db) (wire : List Wire) (r : Option ℕ)
      → Once m committed current wire
      → (reserve_reply t c m text current).0 ≡ r
      → after_reserve r committed (reserve_reply t c m text current).1 wire
  reserve_leads c text t committed current wire none h e =
      Once-of_grown m committed current _ wire (reserved-reserve_reply m t c m text current) h
  reserve_leads c text t committed current wire (some id) h e = record {
    here = reserve_reply_taken t c m text current id e;
    once = Once-of_grown m committed current _ wire (reserved-reserve_reply m t c m text current) h;
    silent = h.unanswered (elim (Bool-cases (reserved m committed)) [
      | inl there ↦ absurd (cc (h.stays there, reserve_reply_fresh t c m text current id e))
      | inr f ↦ f
    ]);
  }

  module _ (sender : Sender) (wa_id text : String) (c : ℕ) where
    reply_own :
        (r : Option ℕ)
        → Leads
            (after_reserve r)
            (λ b. Once m)
            (Once m)
            (elim r [
              | none ↦ rollback v.outside >> pure false
              | some id ↦ send_reserved v sender wa_id c text m id
            ])
    reply_own none = Leads-of_Keeps (λ x y z h. h) (Once-rolled_back m v)
    reply_own (some id) = send_reserved_own wa_id text sender c id

    Once-send_reply_own : Keeps (Once m) (send_reply v sender wa_id c text m)
    unfolding send_reply
    Once-send_reply_own = record {
      at =
          Leads-At (λ b. Once m) (Once m) _ (λ a x y z h. h) (λ x y z h. h)
            (Leads-bind after_reserve (λ b. Once m) _ _
              (Leads-statement v.outside (Once-Durable m).lost after_reserve _
                (λ t committed current wire a h e.
                  reserve_leads c text t committed current wire a h (cc e)))
              reply_own);
    }

  -- Every send of a handler.
  pub Once-send_once :
      (sender : Sender) (wa_id : String) (c : ℕ) (text : String) (reply_to : Option String)
      → Keeps (Once m) (send_once v sender wa_id c text reply_to)
  unfolding send_once
  Once-send_once sender wa_id c text none = Once-send_unprompted m v sender wa_id c text
  Once-send_once sender wa_id c text (some id) = elim (Bool-cases (str_eq id m)) [
    | inl same ↦
        subst (λ x. Keeps (Once m) (send_reply v sender wa_id c text x))
          (sym ((eq_iff id m).0 same)) (Once-send_reply_own sender wa_id text c)
    | inr apart ↦ Once-send_reply_other m v sender wa_id text id c apart
  ]
