-- ===== src/World/Leads.antt =====
-- Conditions before and after an action: from `P`, the action returns with `Q` at its result, or
-- raises with `E`. One rule for each way to build an action.
use whatsapp_ai_bot.Prelude.{
  ℕ, String, Bool, true, false, List, ◌∷◌, Option, none, some, if◌then◌else◌, ◌≡◌, refl,
}
use whatsapp_ai_bot.Json.{Json}
use whatsapp_ai_bot.Store.Rows.{Db}
use whatsapp_ai_bot.World.{
  M, World, Outcome, ok, raise, Fault, Wire, Event, Outside, SendResult, accepted, refused, broken,
}
use whatsapp_ai_bot.World.Effects.{
  ◌>>=◌, pure, catch, die, now, statement, commit, call_send, publish, continue, on_fault, settle,
  outcome_of, deliver, wire_of,
}
use whatsapp_ai_bot.World.Keeps.{View, At, Keeps}

abbrev pub Post : {A : Type 0} → (A → View) → View → Outcome A × World → Type 0
Post Q E (ok a, w) = At (Q a) w
Post Q E (raise e, w) = At E w

pub record Leads {A : Type 0} (P : View) (Q : A → View) (E : View) (m : M A) : Type 0 where
  pub at : (w : World) → At P w → Post Q E (m w)

-- One view implies another.
abbrev pub Implies : View → View → Type 0
Implies P Q =
    (committed current : Db) (wire : List Wire)
    → P committed current wire
    → Q committed current wire

Post-of_kept :
    {A : Type 0} (P E : View) (r : Outcome A × World) → Implies P E → At P r.1 → Post (λ a. P) E r
Post-of_kept P E (ok a, w) i h = h
Post-of_kept P E (raise e, w) i h = i w.committed w.current w.wire h

Post-continue :
    {A B : Type 0} (Q : A → View) (R : B → View) (E : View) (f : A → M B) (r : Outcome A × World)
    → ((a : A) → Leads (Q a) R E (f a))
    → Post Q E r
    → Post R E (continue r.0 f r.1)
Post-continue Q R E f (ok a, w) k h = (k a).at w h
Post-continue Q R E f (raise e, w) k h = h

Post-fault :
    {A : Type 0} (Q : A → View) (E F : View) (handler : Fault → M A) (r : Outcome A × World)
    → ((e : Fault) → Leads E Q F (handler e))
    → Post Q E r
    → Post Q F (on_fault handler r.0 r.1)
Post-fault Q E F handler (ok a, w) k h = h
Post-fault Q E F handler (raise e, w) k h = (k e).at w h

both_ends :
    {A : Type 0} (Q : A → View) (E R : View) (r : Outcome A × World)
    → ((a : A) → Implies (Q a) R)
    → Implies E R
    → Post Q E r
    → At R r.1
both_ends Q E R (ok a, w) i j h = i a w.committed w.current w.wire h
both_ends Q E R (raise e, w) i j h = j w.committed w.current w.wire h

Post-weaken :
    {A : Type 0} (Q : A → View) (E F : View) (r : Outcome A × World)
    → Implies E F
    → Post Q E r
    → Post Q F r
Post-weaken Q E F (ok a, w) i h = h
Post-weaken Q E F (raise e, w) i h = i w.committed w.current w.wire h

Post-if :
    {A : Type 0} (Q : A → View) (E : View) (b : Bool) (x y : Outcome A × World)
    → Post Q E x
    → Post Q E y
    → Post Q E (if b then x else y)
Post-if Q E true x y hx hy = hx
Post-if Q E false x y hx hy = hy

Post-settle :
    {A : Type 0} (Q : A → View) (E : View) (r : Option A × Db) (w : World)
    → E w.committed w.committed w.wire
    → ((a : A) → r.0 ≡ some a → Q a w.committed r.1 w.wire)
    → Post Q E (settle r w)
unfolding die
Post-settle Q E (none, db) w h k = h
Post-settle Q E (some a, db) w h k = k a refl

Post-send :
    (Q : Json → View) (E : View) (r : SendResult) (recipient text : String)
    (answering : Option String) (closing : Option ℕ) (w : World)
    → ((a : Json) → At (Q a) (deliver true recipient text answering closing w))
    → At E (deliver false recipient text answering closing w)
    → E w.committed w.committed (wire_of false recipient text answering closing ∷ w.wire)
    → Post Q E (outcome_of r recipient text answering closing w)
unfolding die
Post-send Q E (accepted response) recipient text answering closing w q e d = q response
Post-send Q E refused recipient text answering closing w q e d = e
Post-send Q E broken recipient text answering closing w q e d = d

module _ {P E : View} where
  pub Leads-of_Keeps : {A : Type 0} {m : M A} → Implies P E → Keeps P m → Leads P (λ a. P) E m
  Leads-of_Keeps {m = m} i k = record { at = λ w h. Post-of_kept P E (m w) i (k.at w h) }

  pub Leads-pure : {A : Type 0} (a : A) (Q : A → View) → Implies P (Q a) → Leads P Q E (pure a)
  unfolding pure
  Leads-pure a Q i = record { at = λ w h. i w.committed w.current w.wire h }

  pub Leads-bind :
      {A B : Type 0} (Q : A → View) (R : B → View) (m : M A) (f : A → M B)
      → Leads P Q E m
      → ((a : A) → Leads (Q a) R E (f a))
      → Leads P R E (m >>= f)
  unfolding ◌>>=◌
  Leads-bind Q R m f km kf = record { at = λ w h. Post-continue Q R E f (m w) kf (km.at w h) }

  pub Leads-catch :
      {A : Type 0} (Q : A → View) (F : View) (m : M A) (handler : Fault → M A)
      → Leads P Q E m
      → ((e : Fault) → Leads E Q F (handler e))
      → Leads P Q F (catch m handler)
  unfolding catch
  Leads-catch Q F m handler km kh = record {
    at = λ w h. Post-fault Q E F handler (m w) kh (km.at w h);
  }

  pub Leads-weaken :
      {A : Type 0} (Q : A → View) (F : View) (m : M A) → Implies E F → Leads P Q E m → Leads P Q F m
  Leads-weaken Q F m i l = record { at = λ w h. Post-weaken Q E F (m w) i (l.at w h) }

  pub Leads-if :
      {A : Type 0} (Q : A → View) (b : Bool) (m n : M A)
      → Leads P Q E m
      → Leads P Q E n
      → Leads P Q E (if b then m else n)
  Leads-if Q true m n km kn = km
  Leads-if Q false m n km kn = kn

  -- What an action leads to is kept, when both ends imply it.
  pub Leads-At :
      {A : Type 0} (Q : A → View) (R : View) (m : M A)
      → ((a : A) → Implies (Q a) R)
      → Implies E R
      → Leads P Q E m
      → (w : World) → At P w
      → At R (m w).1
  Leads-At Q R m i j l w h = both_ends Q E R (m w) i j (l.at w h)

  pub Leads-now : (o : Outside) → Leads P (λ t. P) E (now o)
  unfolding now
  Leads-now o = record { at = λ w h. h }

  module _ (o : Outside)
      (lost : (committed current : Db) (wire : List Wire)
        → P committed current wire
        → E committed committed wire) where
    pub Leads-commit :
        (Q : View)
        → ((committed current : Db) (wire : List Wire)
            → P committed current wire
            → Q current current wire)
        → Leads P (λ a. Q) E (commit o)
    unfolding commit die
    Leads-commit Q k = record {
      at = λ w h.
          Post-if (λ a. Q) E (o.dies w.tick) _ _ (lost w.committed w.current w.wire h)
            (k w.committed w.current w.wire h);
    }

    pub Leads-publish : (e : Event) → Leads P (λ a. P) E (publish o e)
    unfolding publish die
    Leads-publish e = record {
      at = λ w h. Post-if (λ a. P) E (o.dies w.tick) _ _ (lost w.committed w.current w.wire h) h;
    }

    pub Leads-query :
        {A : Type 0} (f : Db → A) → Leads P (λ a. P) E (statement o (λ t db. (some (f db), db)))
    unfolding statement die
    Leads-query f = record {
      at = λ w h. Post-if (λ a. P) E (o.dies w.tick) _ _ (lost w.committed w.current w.wire h) h;
    }

    pub Leads-statement :
        {A : Type 0} (Q : A → View) (f : ℕ → Db → Option A × Db)
        → ((t : ℕ) (committed current : Db) (wire : List Wire) (a : A)
            → P committed current wire
            → (f t current).0 ≡ some a
            → Q a committed (f t current).1 wire)
        → Leads P Q E (statement o f)
    unfolding statement
    Leads-statement Q f k = record {
      at = λ w h.
          let gone = lost w.committed w.current w.wire h in
          Post-if Q E (o.dies w.tick) _ _ gone (
            Post-settle Q E (f (o.clock w.tick) w.current) w gone
              (λ a e. k (o.clock w.tick) w.committed w.current w.wire a h e));
    }

    pub Leads-call_send :
        (Q : View) (recipient text : String) (answering : Option String) (closing : Option ℕ)
        → ((committed current : Db) (wire : List Wire)
            → P committed current wire
            → Q committed current (wire_of true recipient text answering closing ∷ wire)
              × E committed current (wire_of false recipient text answering closing ∷ wire)
              × E committed committed (wire_of false recipient text answering closing ∷ wire))
        → Leads P (λ a. Q) E (call_send o recipient text answering closing)
    unfolding call_send
    Leads-call_send Q recipient text answering closing k = record {
      at = λ w h.
          let ends = k w.committed w.current w.wire h in
          Post-if (λ a. Q) E (o.dies w.tick) _ _ (lost w.committed w.current w.wire h)
            (Post-send (λ a. Q) E (o.send w.tick) recipient text answering closing w (λ a. ends.0)
              ends.1 ends.2);
    }
