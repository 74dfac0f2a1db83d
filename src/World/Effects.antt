-- ===== src/World/Effects.antt =====
-- The effects from which the services are built, and the monad of a process.
use whatsapp_ai_bot.Prelude.{
  ℕ, ◌+◌, String, Bool, true, false, List, ◌∷◌, Option, none, some, if◌then◌else◌,
}
use whatsapp_ai_bot.Json.{Json}
use whatsapp_ai_bot.Store.Rows.{Db}
use whatsapp_ai_bot.Redis.{Redis}
use whatsapp_ai_bot.Tokens.{Turn}
use whatsapp_ai_bot.World.{
  M, World, Outcome, ok, raise, Fault, external_service, redis_down, killed, Wire, Event,
  SendResult, accepted, refused, broken, GenerateResult, Outside,
}

abbrev pub continue {ℓ} : {A : Type ℓ} {B : Type 0} → Outcome A → (A → M B) → M B
continue (ok a) f w = f a w
continue (raise e) f w = (raise e, w)

infixl 5 ◌>>=◌ ◌>>◌
unfoldable pub ◌>>=◌ : {A B : Type 0} → M A → (A → M B) → M B
◌>>=◌ m f w = let (r, w') = m w in continue r f w'

abbrev pub ◌>>◌ : {B : Type 0} → M (Unit {0}) → M B → M B
m >> k = m >>= λ _. k

unfoldable pub pure : {A : Type 0} → A → M A
pure a w = (ok a, w)

unfoldable pub throw : {A : Type 0} → Fault → M A
throw e w = (raise e, w)

abbrev pub on_fault : {A : Type 0} → (Fault → M A) → Outcome A → M A
on_fault handler (ok a) w = (ok a, w)
on_fault handler (raise e) w = handler e w

-- `try: m except ...: handler`; a handler passes on what it does not name.
unfoldable pub catch : {A : Type 0} → M A → (Fault → M A) → M A
catch m handler w = let (r, w') = m w in on_fault handler r w'

-- The session ends without a commit, and the exception goes on.
unfoldable pub die : {A : Type 0} → World → Outcome A × World
die w = (raise killed, record w { current = w.committed; tick = w.tick + 1 })

abbrev pub settle : {A : Type 0} → Option A × Db → M A
settle (none, db) w = die w
settle (some a, db) w = (ok a, record w { current = db; tick = w.tick + 1 })

abbrev pub wire_of : Bool → String → String → Option String → Option ℕ → Wire
wire_of taken recipient text answering closing = record {
  recipient = recipient;
  text = text;
  answering = answering;
  closing = closing;
  accepted = taken;
}

abbrev pub deliver : Bool → String → String → Option String → Option ℕ → World → World
deliver taken recipient text answering closing w = record w {
  wire = wire_of taken recipient text answering closing ∷ w.wire;
  tick = w.tick + 1;
}

abbrev pub outcome_of : SendResult → String → String → Option String → Option ℕ → M Json
outcome_of (accepted response) recipient text answering closing w =
    (ok response, deliver true recipient text answering closing w)
outcome_of refused recipient text answering closing w =
    (raise external_service, deliver false recipient text answering closing w)
outcome_of broken recipient text answering closing w =
    die (deliver false recipient text answering closing w)

module _ (o : Outside) where
  -- The moment of the running effect.
  unfoldable pub now : M ℕ
  now w = (ok (o.clock w.tick), w)

  -- One statement on the open transaction; with `none` it raises.
  unfoldable pub statement : {A : Type 0} → (ℕ → Db → Option A × Db) → M A
  unfolding die
  statement f w = if o.dies w.tick then die w else settle (f (o.clock w.tick) w.current) w

  unfoldable pub commit : M (Unit {0})
  unfolding die
  commit w =
      if o.dies w.tick
      then die w
      else (ok tt, record w { committed = w.current; tick = w.tick + 1 })

  unfoldable pub rollback : M (Unit {0})
  rollback w = (ok tt, record w { current = w.committed; tick = w.tick + 1 })

  -- A send method of the client or of an adapter. The worker may be killed before the call.
  unfoldable pub call_send : String → String → Option String → Option ℕ → M Json
  unfolding die
  call_send recipient text answering closing w =
      if o.dies w.tick then die w else outcome_of (o.send w.tick) recipient text answering closing w

  unfoldable pub call_generate : List Turn → M GenerateResult
  unfolding die
  call_generate history w =
      if o.dies w.tick
      then die w
      else (ok (o.generate w.tick history), record w { tick = w.tick + 1 })

  -- One round trip to Redis, at the moment that it is given.
  unfoldable pub redis : {A : Type 0} → (ℕ → Redis → A × Redis) → M A
  unfolding die
  redis f w =
      if o.dies w.tick
      then die w
      else if o.redis_fails w.tick
      then (raise redis_down, record w { tick = w.tick + 1 })
      else let (a, r) = f (o.clock w.tick) w.redis in
        (ok a, record w { redis = r; tick = w.tick + 1 })

  -- `publish` swallows its failures.
  unfoldable pub publish : Event → M (Unit {0})
  unfolding die
  publish e w =
      if o.dies w.tick
      then die w
      else (ok tt, record w { events = e ∷ w.events; tick = w.tick + 1 })

  -- `mark_as_read` swallows `ExternalServiceError`.
  unfoldable pub call_receipt : M (Unit {0})
  unfolding die
  call_receipt w = if o.dies w.tick then die w else (ok tt, record w { tick = w.tick + 1 })
