-- ===== src/Invites/Once.antt =====
-- At most one invitation for a comment.
use whatsapp_ai_bot.Prelude.{
  ℕ, ◌≤◌, String, Bool, true, false, not, ◌||◌, List, [], ◌∷◌, Option, none, some, ◌≡◌, refl, ◌∙◌,
  subst, arith, str_eq, eq_iff, Bool-cases, inl, inr,
}
use whatsapp_ai_bot.Json.{Json}
use whatsapp_ai_bot.Store.Rows.{Db}
use whatsapp_ai_bot.Store.Users
use whatsapp_ai_bot.Store.Messages
use whatsapp_ai_bot.Store.Messages.{reserved}
use whatsapp_ai_bot.Store.Messages.Laws.{
  reserved-confirm_reply, reserved-reserve_typed, reserve_typed_fresh, reserve_typed_taken,
}
use whatsapp_ai_bot.Store.Conversations
use whatsapp_ai_bot.World.{M, World, Wire, Fault, external_service, redis_down, killed}
use whatsapp_ai_bot.World.Effects.{pure, ◌>>◌, statement, commit, rollback, wire_of}
use whatsapp_ai_bot.World.Keeps.{
  View, At, Keeps, Keeps-pure, Keeps-throw, Keeps-bind, Keeps-if, Keeps-catch, Keeps-statement,
  Keeps-commit, Keeps-rollback, Keeps-call_send,
}
use whatsapp_ai_bot.World.Leads.{
  Leads, Leads-of_Keeps, Leads-bind, Leads-catch, Leads-commit, Leads-statement, Leads-call_send,
  Leads-At,
}
use whatsapp_ai_bot.Channels.{dm_invite_enabled}
use whatsapp_ai_bot.Chat.Send.{outbound_id, or_raise, when_refused}
use whatsapp_ai_bot.Chat.Handlers.{reopen_within}
use whatsapp_ai_bot.Chat.Reservation.Views.{answers, answers-own, answers-other}
use whatsapp_ai_bot.Chat.Reservation.Tables.{
  messages-get_or_create_by_channel, messages-get_or_create_active,
}
use whatsapp_ai_bot.Chat.Tolerance.Steps.{reserved_of_same}
use whatsapp_ai_bot.Webhook.{InboundEvent}
use whatsapp_ai_bot.Invites.{
  Inviter, outside, reservation_key, dm_invite_message, confirm_invite, call_invite, send_invite,
  reserve_and_invite, invite_after_comment, invite_attempt, invite_attempts,
}
use whatsapp_ai_bot.Invites.Views.{
  Invited, Noted, Due, Invited-Durable, Invited-of_grown, Invited-commit, Due-Invited,
}

module _ (k : String) (i : Inviter) where
  grown :
      {A : Type 0} (f : ℕ → Db → Option A × Db)
      → ((t : ℕ) (db : Db) → reserved k db ≡ true → reserved k (f t db).1 ≡ true)
      → Keeps (Invited k) (statement (outside i) f)
  grown f g = Keeps-statement (Invited-Durable k) (outside i) f (λ t committed current wire h.
      Invited-of_grown k committed current (f t current).1 wire (g t current) h)

  confirmed_grows :
      (o : Option Db) (db : Db)
      → ((db' : Db) → o ≡ some db' → reserved k db' ≡ reserved k db)
      → reserved k db ≡ true
      → reserved k (or_raise o db).1 ≡ true
  confirmed_grows none db g h = h
  confirmed_grows (some db') db g h = g db' refl ∙ h

  confirms :
      (id : ℕ) (wa : Option String) (status : String) (b : Bool)
      → Keeps (Invited k) (
          statement (outside i) (λ t db. or_raise (Messages.confirm_reply id wa status db) db)
          >> (commit (outside i) >> pure b))
  confirms id wa status b =
      Keeps-bind _ _
        (grown _ (λ t db.
          confirmed_grows (Messages.confirm_reply id wa status db) db
            (λ db' e. reserved-confirm_reply k id wa status db db' e)))
        (λ a.
          Keeps-bind _ _ (Keeps-commit (Invited-Durable k) (outside i) (Invited-commit k))
            (λ c. Keeps-pure b))

  Keeps-confirm_invite : (id : ℕ) (o : Option Json) → Keeps (Invited k) (confirm_invite i id o)
  unfolding confirm_invite
  Keeps-confirm_invite id none = confirms id none Messages.unconfirmed false
  Keeps-confirm_invite id (some r) = confirms id (outbound_id r) Messages.sent true

  refused :
      {A : Type 0} (handler : M A)
      → Keeps (Invited k) handler
      → (e : Fault) → Keeps (Invited k) (when_refused i.service handler e)
  refused handler h external_service = h
  refused handler h redis_down = Keeps-throw redis_down
  refused handler h killed = Keeps-throw killed

  rolled_back : Keeps (Invited k) (rollback (outside i) >> pure false)
  rolled_back =
      Keeps-bind _ _ (Keeps-rollback (Invited-Durable k) (outside i)) (λ a. Keeps-pure false)

  -- The two statements before the reservation.
  module _ (e : InboundEvent) where
    Keeps-user : Keeps (Invited k) (
        statement
          (outside i)
          (λ t. Users.get_or_create_by_channel i.channel e.sender_id e.sender_name))
    Keeps-user = grown _ (λ t db.
        reserved_of_same k db _
          (messages-get_or_create_by_channel i.channel e.sender_id e.sender_name db))

    Keeps-session :
        (user : ℕ)
        → Keeps (Invited k) (
            statement
              (outside i)
              (λ t. Conversations.get_or_create_active t user (reopen_within i.service) i.channel))
    Keeps-session user =
        grown _ (λ t db. reserved_of_same k db _ (messages-get_or_create_active t user _ _ db))

  -- An invitation for another comment.
  module _ (e : InboundEvent) (text : String)
      (apart : str_eq (reservation_key e.provider_message_id) k ≡ false) where
    other_call : Keeps (Invited k) (call_invite i e.provider_message_id text)
    other_call =
        Keeps-call_send (Invited-Durable k) (outside i) e.provider_message_id text _ none
          (λ committed current wire taken h.
            let same =
              answers-other k taken e.provider_message_id text
                (some (reservation_key e.provider_message_id)) none wire apart in
            record {
              stays = h.stays;
              few = omega (arith, same, h.few);
              uninvited = λ f. same ∙ h.uninvited f;
            })

    other_send : (o : Option ℕ) → Keeps (Invited k) (send_invite i e.provider_message_id text o)
    unfolding send_invite
    other_send none = rolled_back
    other_send (some id) =
        Keeps-bind _ _ (Keeps-commit (Invited-Durable k) (outside i) (Invited-commit k)) (λ a.
          Keeps-bind _ _
            (Keeps-catch _ _ (Keeps-bind _ _ other_call (λ r. Keeps-pure (some r)))
              (refused _ (Keeps-pure none)))
            (Keeps-confirm_invite id))

    other : Keeps (Invited k) (reserve_and_invite i e text)
    unfolding reserve_and_invite
    other = Keeps-bind _ _ (Keeps-user e) (λ user. Keeps-bind _ _ (Keeps-session e user.id) (λ c.
        Keeps-bind _ _
          (grown _ (λ t db.
            reserved-reserve_typed "dm_invite" t c.id (reservation_key e.provider_message_id) text
              db k))
          other_send))

-- The invitation for the comment itself.
module _ (i : Inviter) (e : InboundEvent) (text : String) where
  abbrev own : String
  own = reservation_key e.provider_message_id

  Noted-lost :
      (committed current : Db) (wire : List Wire)
      → Noted own committed current wire
      → Invited own committed committed wire
  Noted-lost committed current wire h = (Invited-Durable own).lost committed current wire h.invited

  own_call :
      Leads (Due own) (λ r. Invited own) (Invited own) (call_invite i e.provider_message_id text)
  own_call =
      Leads-call_send (outside i)
        (λ committed current wire h.
          (Invited-Durable own).lost committed current wire
            (Due-Invited own committed current wire h))
        (Invited own) e.provider_message_id text (some own) none
        (λ committed current wire h.
          let few : (taken : Bool)
              → answers own (wire_of taken e.provider_message_id text (some own) none ∷ wire) ≤ 1 =
            λ taken. omega (
              arith,
              h.silent,
              answers-own own taken e.provider_message_id text (some own) none wire,
            ) in
          let after : (taken : Bool) (now : Db)
              → reserved own now ≡ true
              → Invited own committed now
                  (wire_of taken e.provider_message_id text (some own) none ∷ wire) =
            λ taken now there. record {
              stays = λ x. there;
              few = few taken;
              uninvited = λ x. absurd (cc (h.durable, x));
            } in
          (after true current h.here, after false current h.here, after false committed h.durable))

  abbrev after_reserve : Option ℕ → View
  after_reserve none = Invited own
  after_reserve (some id) = Noted own

  own_send :
      (o : Option ℕ)
      → Leads
          (after_reserve o)
          (λ b. Invited own)
          (Invited own)
          (send_invite i e.provider_message_id text o)
  unfolding send_invite
  own_send none = Leads-of_Keeps (λ x y z h. h) (rolled_back own i)
  own_send (some id) =
      Leads-bind (λ a. Due own) (λ b. Invited own) _ _
        (Leads-commit (outside i) Noted-lost (Due own) (λ committed current wire h. record {
          durable = h.here;
          here = h.here;
          silent = h.silent;
        }))
        (λ a.
          Leads-bind (λ o. Invited own) (λ b. Invited own) _ _
            (Leads-catch (λ o. Invited own) (Invited own) _ _
              (Leads-bind (λ r. Invited own) (λ o. Invited own) _ _ own_call
                (λ r. Leads-of_Keeps (λ x y z h. h) (Keeps-pure (some r))))
              (λ f. Leads-of_Keeps (λ x y z h. h) (refused own i _ (Keeps-pure none) f)))
            (λ o. Leads-of_Keeps (λ x y z h. h) (Keeps-confirm_invite own i id o)))

  reserve_leads :
      (c t : ℕ) (committed current : Db) (wire : List Wire) (r : Option ℕ)
      → Invited own committed current wire
      → (Messages.reserve_typed "dm_invite" t c own text current).0 ≡ r
      → after_reserve r committed (Messages.reserve_typed "dm_invite" t c own text current).1 wire
  reserve_leads c t committed current wire none h x =
      Invited-of_grown own committed current _ wire
        (reserved-reserve_typed "dm_invite" t c own text current own) h
  reserve_leads c t committed current wire (some id) h x = record {
    here = reserve_typed_taken "dm_invite" t c own text current id x;
    invited =
        Invited-of_grown own committed current _ wire
          (reserved-reserve_typed "dm_invite" t c own text current own) h;
    silent = h.uninvited (elim (Bool-cases (reserved own committed)) [
      | inl there ↦
          absurd (cc (h.stays there, reserve_typed_fresh "dm_invite" t c own text current id x))
      | inr f ↦ f
    ]);
  }

  Keeps-own : Keeps (Invited own) (reserve_and_invite i e text)
  unfolding reserve_and_invite
  Keeps-own = Keeps-bind _ _ (Keeps-user own i e) (λ user.
      Keeps-bind _ _ (Keeps-session own i e user.id) (λ c. record {
        at =
            Leads-At (λ b. Invited own) (Invited own) _ (λ a x y z h. h) (λ x y z h. h)
              (Leads-bind after_reserve (λ b. Invited own) _ _
                (Leads-statement (outside i) (Invited-Durable own).lost after_reserve _
                  (λ t committed current wire r h x.
                    reserve_leads c.id t committed current wire r h (cc x)))
                own_send);
      }))

module _ (k : String) where
  Keeps-reserve_and_invite :
      (i : Inviter) (e : InboundEvent) (text : String)
      → Keeps (Invited k) (reserve_and_invite i e text)
  Keeps-reserve_and_invite i e text =
      elim (Bool-cases (str_eq (reservation_key e.provider_message_id) k)) [
        | inl same ↦
            subst (λ x. Keeps (Invited x) (reserve_and_invite i e text))
              ((eq_iff (reservation_key e.provider_message_id) k).0 same) (Keeps-own i e text)
        | inr apart ↦ other k i e text apart
      ]

  Keeps-invite_after_comment :
      (i : Inviter) (e : InboundEvent) → Keeps (Invited k) (invite_after_comment i e)
  unfolding invite_after_comment
  Keeps-invite_after_comment i e =
      Keeps-if (not (dm_invite_enabled i.channels i.channel)) _ _ (Keeps-pure false) (
        Keeps-if (str_eq (i.strip (dm_invite_message i i.channel)) "") _ _ (Keeps-pure false) (
          Keeps-if (str_eq e.provider_message_id "" || str_eq e.sender_id "") _ _ (Keeps-pure false)
            (Keeps-reserve_and_invite i e (dm_invite_message i i.channel))))

  Invited-attempts :
      (tasks : List (Inviter × InboundEvent)) (w : World)
      → At (Invited k) w
      → At (Invited k) (invite_attempts tasks w)
  unfolding invite_attempts invite_attempt
  Invited-attempts [] w h = h
  Invited-attempts ((i, e) ∷ tasks) w h = Invited-attempts tasks (invite_attempt i e w).1 (
      (Keeps-invite_after_comment i e).at _
        ((Invited-Durable k).lost w.committed w.current w.wire h))

-- From a database without a reservation for the invitation after a comment, and with no call made for
-- it: after any sequence of attempts to invite after comments, each with its own settings, clock,
-- failures and moment of death, at most one call to invite after that comment was made.
pub invite_attempts_once :
    (tasks : List (Inviter × InboundEvent)) (w : World) (comment_id : String)
    → reserved (reservation_key comment_id) w.committed ≡ false
    → answers (reservation_key comment_id) w.wire ≡ 0
    → answers (reservation_key comment_id) (invite_attempts tasks w).wire ≤ 1
invite_attempts_once tasks w comment_id unreserved silent =
    (Invited-attempts (reservation_key comment_id) tasks w (record {
      stays = λ e. absurd (cc (e, unreserved));
      few = omega (arith, silent);
      uninvited = λ e. silent;
    })).few
