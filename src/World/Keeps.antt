-- ===== src/World/Keeps.antt =====
-- Invariants of a process: a predicate on what is durable, what is open and what was sent, kept by
-- an action on every path, whether it returns, raises or dies. One rule for each way to build an
-- action.
use whatsapp_ai_bot.Prelude.{
  ℕ, String, Bool, true, false, List, ◌∷◌, Option, none, some, if◌then◌else◌,
}
use whatsapp_ai_bot.Store.Rows.{Db}
use whatsapp_ai_bot.Redis.{Redis}
use whatsapp_ai_bot.Tokens.{Turn}
use whatsapp_ai_bot.World.{
  M, World, Outcome, ok, raise, Fault, Wire, Event, Outside, SendResult, accepted, refused, broken,
}
use whatsapp_ai_bot.World.Effects.{
  ◌>>=◌, pure, throw, catch, die, now, statement, commit, rollback, call_send, call_generate,
  call_receipt, redis, publish, continue, on_fault, settle, outcome_of, deliver, wire_of,
}

-- A predicate on the durable database, the open one, and the sends.
abbrev pub View : Type 1
View = Db → Db → List Wire → Type 0

abbrev pub At : View → World → Type 0
At P w = P w.committed w.current w.wire

pub record Keeps {A : Type 0} (P : View) (m : M A) : Type 0 where
  pub at : (w : World) → At P w → At P (m w).1

module _ {P : View} where
  pub Keeps-pure : {A : Type 0} (a : A) → Keeps P (pure a)
  unfolding pure
  Keeps-pure a = record { at = λ w h. h }

  pub Keeps-throw : {A : Type 0} (e : Fault) → Keeps P (throw {A = A} e)
  unfolding throw
  Keeps-throw e = record { at = λ w h. h }

  Keeps-continue :
      {A B : Type 0} (f : A → M B) (r : Outcome A) (w : World)
      → ((a : A) → Keeps P (f a))
      → At P w
      → At P (continue r f w).1
  Keeps-continue f (ok a) w k h = (k a).at w h
  Keeps-continue f (raise e) w k h = h

  pub Keeps-bind :
      {A B : Type 0} (m : M A) (f : A → M B)
      → Keeps P m
      → ((a : A) → Keeps P (f a))
      → Keeps P (m >>= f)
  unfolding ◌>>=◌
  Keeps-bind m f km kf = record { at = λ w h. Keeps-continue f (m w).0 (m w).1 kf (km.at w h) }

  Keeps-on_fault :
      {A : Type 0} (handler : Fault → M A) (r : Outcome A) (w : World)
      → ((e : Fault) → Keeps P (handler e))
      → At P w
      → At P (on_fault handler r w).1
  Keeps-on_fault handler (ok a) w k h = h
  Keeps-on_fault handler (raise e) w k h = (k e).at w h

  pub Keeps-catch :
      {A : Type 0} (m : M A) (handler : Fault → M A)
      → Keeps P m
      → ((e : Fault) → Keeps P (handler e))
      → Keeps P (catch m handler)
  unfolding catch
  Keeps-catch m handler km kh = record {
    at = λ w h. Keeps-on_fault handler (m w).0 (m w).1 kh (km.at w h);
  }

  pub Keeps-if :
      {A : Type 0} (b : Bool) (m n : M A) → Keeps P m → Keeps P n → Keeps P (if b then m else n)
  Keeps-if true m n km kn = km
  Keeps-if false m n km kn = kn

-- A view that a lost transaction keeps.
pub record Durable (P : View) : Type 0 where
  pub lost :
      (committed current : Db) (wire : List Wire)
      → P committed current wire
      → P committed committed wire

module _ {P : View} (d : Durable P) (o : Outside) where
  pub Keeps-now : Keeps P (now o)
  unfolding now
  Keeps-now = record { at = λ w h. h }

  pub Keeps-die : {A : Type 0} → Keeps P (die {A = A})
  unfolding die
  Keeps-die = record { at = λ w h. d.lost w.committed w.current w.wire h }

  pub Keeps-rollback : Keeps P (rollback o)
  unfolding rollback
  Keeps-rollback = record { at = λ w h. d.lost w.committed w.current w.wire h }

  die_at : (w : World) → At P w → P w.committed w.committed w.wire
  die_at w h = d.lost w.committed w.current w.wire h

  if_At :
      {A : Type 0} (b : Bool) (x y : Outcome A × World)
      → At P x.1
      → At P y.1
      → At P (if b then x else y).1
  if_At true x y hx hy = hx
  if_At false x y hx hy = hy

  pub Keeps-redis : {A : Type 0} (f : ℕ → Redis → A × Redis) → Keeps P (redis o f)
  unfolding redis
  Keeps-redis f = record {
    at = λ w h. if_At (o.dies w.tick) _ _ (die_at w h) (if_At (o.redis_fails w.tick) _ _ h h);
  }

  pub Keeps-publish : (e : Event) → Keeps P (publish o e)
  unfolding publish
  Keeps-publish e = record { at = λ w h. if_At (o.dies w.tick) _ _ (die_at w h) h }

  pub Keeps-call_generate : (history : List Turn) → Keeps P (call_generate o history)
  unfolding call_generate
  Keeps-call_generate history = record { at = λ w h. if_At (o.dies w.tick) _ _ (die_at w h) h }

  pub Keeps-call_receipt : Keeps P (call_receipt o)
  unfolding call_receipt
  Keeps-call_receipt = record { at = λ w h. if_At (o.dies w.tick) _ _ (die_at w h) h }

  settle-At :
      {A : Type 0} (r : Option A × Db) (w : World)
      → At P w
      → P w.committed r.1 w.wire
      → At P (settle r w).1
  unfolding die
  settle-At (none, db) w h k = die_at w h
  settle-At (some a, db) w h k = k

  -- A statement that keeps the view of the open transaction, whatever it returns.
  pub Keeps-statement :
      {A : Type 0} (f : ℕ → Db → Option A × Db)
      → ((t : ℕ) (committed current : Db) (wire : List Wire)
          → P committed current wire
          → P committed (f t current).1 wire)
      → Keeps P (statement o f)
  unfolding statement
  Keeps-statement f k = record {
    at = λ w h. if_At (o.dies w.tick) _ _ (die_at w h) (
        settle-At (f (o.clock w.tick) w.current) w h
          (k (o.clock w.tick) w.committed w.current w.wire h));
  }

  pub Keeps-commit :
      ((committed current : Db) (wire : List Wire)
        → P committed current wire
        → P current current wire)
      → Keeps P (commit o)
  unfolding commit
  Keeps-commit k = record {
    at = λ w h. if_At (o.dies w.tick) _ _ (die_at w h) (k w.committed w.current w.wire h);
  }

  send-At :
      (r : SendResult) (recipient text : String) (answering : Option String) (closing : Option ℕ)
      (w : World)
      → At P w
      → ((taken : Bool) → At P (deliver taken recipient text answering closing w))
      → At P (outcome_of r recipient text answering closing w).1
  unfolding die
  send-At (accepted response) recipient text answering closing w h k = k true
  send-At refused recipient text answering closing w h k = k false
  send-At broken recipient text answering closing w h k =
      die_at (deliver false recipient text answering closing w) (k false)

  pub Keeps-call_send :
      (recipient text : String) (answering : Option String) (closing : Option ℕ)
      → ((committed current : Db) (wire : List Wire) (taken : Bool)
          → P committed current wire
          → P committed current (wire_of taken recipient text answering closing ∷ wire))
      → Keeps P (call_send o recipient text answering closing)
  unfolding call_send
  Keeps-call_send recipient text answering closing k = record {
    at = λ w h. if_At (o.dies w.tick) _ _ (die_at w h) (
        send-At (o.send w.tick) recipient text answering closing w h
          (λ taken. k w.committed w.current w.wire taken h));
  }
