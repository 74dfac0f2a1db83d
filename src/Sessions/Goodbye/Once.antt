-- ===== src/Sessions/Goodbye/Once.antt =====
-- At most one goodbye to a session.
use whatsapp_ai_bot.Prelude.{
  ℕ, ◌≤◌, not, List, [], ◌∷◌, Option, none, some, subst, ◌==◌, ◌≡◌, refl, arith, if◌then◌else◌,
  select, any, length, Bool-cases, inl, inr,
}
use whatsapp_ai_bot.Store.Rows.{Db}
use whatsapp_ai_bot.Store.Conversations.{claim_idle_sessions}
use whatsapp_ai_bot.Store.Users.{idle_targets}
use whatsapp_ai_bot.World.{World, Wire}
use whatsapp_ai_bot.World.Effects.{pure}
use whatsapp_ai_bot.World.Keeps.{At, Keeps, Keeps-now, Keeps-pure}
use whatsapp_ai_bot.World.Leads.{
  Leads, Leads-of_Keeps, Leads-bind, Leads-pure, Leads-if, Leads-At, Leads-statement, Leads-commit,
}
use whatsapp_ai_bot.Sessions.{
  Sweeper, outside, finish_claimed, close_idle_sessions, idle_bound, sweep_batch_size, sweep,
  sweeps,
}
use whatsapp_ai_bot.Sessions.Goodbye.{
  Left, Taken, Left-lost, Taken-lost, Taken-commit, goodbyes, rows_of, remaining,
}
use whatsapp_ai_bot.Sessions.Goodbye.Rows.{
  rows_of-claim_idle_sessions, unmarked-claim_stays, claimed_unmarked, claimed_marked,
  remaining-idle_targets, remaining_unclaimed,
}
use whatsapp_ai_bot.Sessions.Goodbye.Steps.{Left-Durable, Left-finish_sessions}

-- What a statement returned, from the equation of its result.
abbrev or_nothing : {A : Type 0} → Option (List A) → List A
or_nothing none = []
or_nothing (some xs) = xs

module _ (i : ℕ) where
  abbrev claims : List ℕ → ℕ
  claims ids = if any (λ j. j == i) ids then 1 else 0

  claim_takes :
      (t idle_before limit : ℕ) (committed current : Db) (wire : List Wire)
      → Left i 0 committed current wire
      → Taken i
          (claims (claim_idle_sessions t idle_before limit current).0)
          committed
          (claim_idle_sessions t idle_before limit current).1
          wire
  claim_takes t idle_before limit committed current wire h =
      let ids = (claim_idle_sessions t idle_before limit current).0 in
      let same = rows_of-claim_idle_sessions i t idle_before limit current in
      elim (Bool-cases (any (λ j. j == i) ids)) [
        | inl own ↦ record {
          single_committed = h.single_committed;
          single = omega (arith, same, h.single);
          few =
              ground
                (arith, own, h.few, h.here, claimed_unmarked i t idle_before limit current own);
          held = λ e. h.held (omega (arith, e));
          here = λ e. claimed_marked i t idle_before limit current h.single own;
        }
        | inr other ↦ record {
          single_committed = h.single_committed;
          single = omega (arith, same, h.single);
          few = ground (arith, other, h.few);
          held = λ e. h.held (omega (arith, e));
          here = λ e.
              unmarked-claim_stays i t idle_before limit current
                (h.here (ground (arith, other, e)));
        }
      ]

  rows_of_lem : (db : Db) → rows_of i db ≡ length (select (λ c. c.id == i) db.conversations)
  unfolding rows_of
  rows_of_lem db = refl

  targets_few :
      (ids : List ℕ) (committed current : Db) (wire : List Wire)
      → Taken i (claims ids) committed current wire
      → Taken i
          (remaining i (idle_targets ids current current.conversations))
          committed
          current
          wire
  targets_few ids committed current wire h =
      let targets = idle_targets ids current current.conversations in
      let rows_are = rows_of_lem current in
      let few : remaining i targets ≤ claims ids = elim (Bool-cases (any (λ j. j == i) ids)) [
        | inl own ↦ ground (
          arith,
          own,
          h.single,
          rows_are,
          remaining-idle_targets i ids current current.conversations,
        )
        | inr other ↦ omega (arith, remaining_unclaimed i ids current current.conversations other)
      ] in
      record {
        single_committed = h.single_committed;
        single = h.single;
        few = omega (arith, few, h.few);
        held = h.held;
        here = λ e. h.here (omega (arith, few, e));
      }

  module _ (s : Sweeper) where
    finish_leads :
        (ids : List ℕ)
        → Leads (Taken i (claims ids)) (λ n. Left i 0) (Left i 0) (finish_claimed s ids)
    unfolding finish_claimed goodbyes any
    finish_leads [] =
        Leads-pure 0 (λ n. Left i 0)
          (λ committed current wire h. record {
            single_committed = h.single_committed;
            single = h.single;
            few = h.few;
            held = λ e. h.held (omega (arith, e));
            here = h.here;
          })
    finish_leads (id ∷ ids) =
        Leads-bind (λ targets. Taken i (remaining i targets)) (λ n. Left i 0) _ _
          (Leads-statement (outside s) (Taken-lost i (claims (id ∷ ids)))
            (λ targets. Taken i (remaining i targets)) _
            (λ t committed current wire targets h e.
              subst (λ o. Taken i (remaining i (or_nothing o)) committed current wire) e
                (targets_few (id ∷ ids) committed current wire h)))
          (λ targets.
            Leads-bind (λ a. Left i (remaining i targets)) (λ n. Left i 0) _ _
              (Leads-commit (outside s) (Taken-lost i (remaining i targets))
                (Left i (remaining i targets)) (Taken-commit i (remaining i targets)))
              (λ a.
                Leads-bind (λ b. Left i 0) (λ n. Left i 0) _ _ (Left-finish_sessions i s targets)
                  (λ b. Leads-of_Keeps (λ x y z h. h) (Keeps-pure _))))

    idle : Leads {A = ℕ} (Left i 0) (λ n. Left i 0) (Left i 0) (pure 0)
    idle = Leads-of_Keeps (λ x y z h. h) (Keeps-pure 0)

    Left-close_idle_sessions : Keeps (Left i 0) (close_idle_sessions s)
    unfolding close_idle_sessions
    Left-close_idle_sessions = record {
      at =
          Leads-At (λ n. Left i 0) (Left i 0) _ (λ n x y z h. h) (λ x y z h. h)
            (Leads-if (λ n. Left i 0) (not s.service.settings.enable_conversation_session) _ _ idle
              (Leads-if (λ n. Left i 0) (not s.service.settings.conversation_close_after_idle) _ _
                idle
                (Leads-bind (λ t. Left i 0) (λ n. Left i 0) _ _
                  (Leads-of_Keeps (λ x y z h. h) (Keeps-now (Left-Durable i s 0) (outside s)))
                  (λ t.
                    Leads-bind (λ ids. Taken i (claims ids)) (λ n. Left i 0) _ _
                      (Leads-statement (outside s) (Left-lost i 0) (λ ids. Taken i (claims ids)) _
                        (λ later committed current wire ids h e.
                          subst
                            (λ o.
                              Taken i (claims (or_nothing o)) committed
                                (claim_idle_sessions later (idle_bound s t) sweep_batch_size
                                  current).1
                                wire)
                            e
                            (claim_takes later (idle_bound s t) sweep_batch_size committed current
                              wire h)))
                      finish_leads))));
    }

    Left-sweep : (w : World) → Left i 0 w.committed w.committed w.wire → At (Left i 0) (sweep s w).1
    unfolding sweep
    Left-sweep w h = Left-close_idle_sessions.at _ h

  goodbyes-sweeps :
      (tasks : List Sweeper) (w : World)
      → Left i 0 w.committed w.committed w.wire
      → goodbyes i (sweeps tasks w).wire ≤ 1
  unfolding sweeps
  goodbyes-sweeps [] w h = omega (arith, h.few)
  goodbyes-sweeps (s ∷ tasks) w h =
      let after = (sweep s w).1 in
      goodbyes-sweeps tasks after
        (Left-lost i 0 after.committed after.current after.wire (Left-sweep s w h))

-- From a database with at most one row of an id, and with no call made to say goodbye to that session:
-- after any sequence of sweeps, each with its own settings, clock, failures and moment of death, at
-- most one call to say goodbye to it was made.
pub sweeps_close_once :
    (tasks : List Sweeper) (w : World) (i : ℕ)
    → rows_of i w.committed ≤ 1
    → goodbyes i w.wire ≡ 0
    → goodbyes i (sweeps tasks w).wire ≤ 1
sweeps_close_once tasks w i single silent = goodbyes-sweeps i tasks w (record {
  single_committed = single;
  single = single;
  few = omega (arith, silent);
  held = λ e. absurd (omega (arith, e, silent));
  here = λ e. absurd (omega (arith, e, silent));
})
