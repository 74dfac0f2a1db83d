-- ===== src/Sessions/Closing/Live.antt =====
-- A whole sweep of app/services/session_service.py when nothing dies.
use whatsapp_ai_bot.Prelude.{ℕ, ◌+◌, true, false, List, [], ◌∷◌, ◌==◌, ◌≡◌, refl, any}
use whatsapp_ai_bot.Settings.{conversation_idle_timeout}
use whatsapp_ai_bot.Store.Conversations
use whatsapp_ai_bot.World.{World, ok}
use whatsapp_ai_bot.World.Effects.{◌>>=◌, now, statement}
use whatsapp_ai_bot.World.Runs.{Runs, Runs-pure, Runs-bind, Runs-commit, Runs-statement}
use whatsapp_ai_bot.Sessions.{
  Sweeper, outside, finish_claimed, close_idle_sessions, idle_bound, sweep_batch_size, sweep,
}
use whatsapp_ai_bot.Sessions.Closing.{
  is_still_open, awaits, Plain, has_customer, awaits-idle_targets, has_customer-claim, Done,
}
use whatsapp_ai_bot.Sessions.Closing.Steps.{Runs-finish_all}

module _ (i : ℕ) where
  module _ (s : Sweeper) (live : (t : ℕ) → (outside s).dies t ≡ false)
      (plain : (t : ℕ) → Plain ((outside s).send t)) where
    -- From the open transaction in which the session was claimed.
    Runs-claimed :
        (ids : List ℕ)
        → any (λ j. j == i) ids ≡ true
        → Runs (λ x y w. has_customer i y ≡ true) (λ n. Done i false) (finish_claimed s ids)
    unfolding finish_claimed any
    Runs-claimed [] e = absurd (cc e)
    Runs-claimed (id ∷ ids) e =
        Runs-bind (λ targets x y w. awaits i targets ≡ true) (λ n. Done i false) _ _
          (Runs-statement (outside s) live (λ targets x y w. awaits i targets ≡ true) _
            (λ t x y w h. (_, refl, awaits-idle_targets i (id ∷ ids) y e h)))
          (λ targets.
            Runs-bind (λ a. Done i (awaits i targets)) (λ n. Done i false) _ _
              (Runs-commit (outside s) live (Done i (awaits i targets)) (λ x y w h. record {
                durable = λ n. absurd (cc (h, n));
                here = λ n. absurd (cc (h, n));
              }))
              (λ a.
                Runs-bind (λ b. Done i false) (λ n. Done i false) _ _
                  (Runs-finish_all i s live plain targets)
                  (λ b. Runs-pure _ (λ n. Done i false) (λ x y w h. h))))

-- In an environment in which nothing dies and each send is refused, or accepted without an id: a sweep
-- that is switched on returns, and a session that it claims, whose customer's row is there, is
-- durably closed.
pub sweep_closes :
    (s : Sweeper) (w : World) (i : ℕ)
    → s.service.settings.enable_conversation_session ≡ true
    → s.service.settings.conversation_close_after_idle ≡ true
    → ((t : ℕ) → (outside s).dies t ≡ false)
    → ((t : ℕ) → Plain ((outside s).send t))
    → has_customer i w.committed ≡ true
    → any
        (λ j. j == i)
        (Conversations.claim_idle_sessions
          ((outside s).clock w.tick)
          (idle_bound s ((outside s).clock w.tick))
          sweep_batch_size
          w.committed).0
      ≡ true
    → (n : ℕ) × ((sweep s w).0 ≡ ok n) × (is_still_open i (sweep s w).1.committed ≡ false)
unfolding sweep close_idle_sessions ◌>>=◌ now statement conversation_idle_timeout
sweep_closes s w i enabled closes live plain customer claimed =
    let t = (outside s).clock w.tick in
    let claim = Conversations.claim_idle_sessions t (idle_bound s t) sweep_batch_size w.committed in
    let (n, e, done) =
      (Runs-claimed i s live plain claim.0 claimed).at
        (record w { current = claim.1; tick = w.tick + 1 })
        (has_customer-claim i t (idle_bound s t) sweep_batch_size w.committed customer) in
    rw (enabled, closes, live w.tick) (n, e, done.durable refl)
