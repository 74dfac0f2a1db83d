-- ===== src/World/Runs.antt =====
-- Actions that return: from `P` the action returns a result, with `Q` at that result, in an
-- environment in which nothing dies. One rule for each way to build an action.
use whatsapp_ai_bot.Prelude.{
  ℕ, Bool, true, false, Option, none, some, if◌then◌else◌, ◌≡◌, refl, ap, subst,
}
use whatsapp_ai_bot.Store.Rows.{Db}
use whatsapp_ai_bot.World.{M, World, Outcome, ok, raise, Event, Outside}
use whatsapp_ai_bot.World.Effects.{◌>>=◌, pure, now, statement, commit, publish, continue, settle}
use whatsapp_ai_bot.World.Keeps.{View, At}

abbrev pub Returned : {A : Type 0} → (A → View) → Outcome A × World → Type 0
Returned Q r = (a : _) × (r.0 ≡ ok a) × At (Q a) r.1

pub record Runs {A : Type 0} (P : View) (Q : A → View) (m : M A) : Type 0 where
  pub at : (w : World) → At P w → Returned Q (m w)

Returned-continue :
    {A B : Type 0} (Q : A → View) (R : B → View) (f : A → M B) (r : Outcome A) (w : World)
    → ((a : A) → Runs (Q a) R (f a))
    → Returned Q (r, w)
    → Returned R (continue r f w)
Returned-continue Q R f (ok b) w k (a, e, h) = (k b).at w (subst (λ x. At (Q x) w) (inner a b e) h)
  where
    inner : {A : Type 0} (a b : A) → ok b ≡ ok a → a ≡ b
    inner a b e = cc e
Returned-continue Q R f (raise x) w k (a, e, h) = absurd (cc e)

module _ {P : View} where
  pub Runs-pure :
      {A : Type 0} (a : A) (Q : A → View)
      → ((committed current : Db) (wire : _)
          → P committed current wire
          → Q a committed current wire)
      → Runs P Q (pure a)
  unfolding pure
  Runs-pure a Q i = record { at = λ w h. (a, refl, i w.committed w.current w.wire h) }

  pub Runs-bind :
      {A B : Type 0} (Q : A → View) (R : B → View) (m : M A) (f : A → M B)
      → Runs P Q m
      → ((a : A) → Runs (Q a) R (f a))
      → Runs P R (m >>= f)
  unfolding ◌>>=◌
  Runs-bind Q R m f km kf = record {
    at = λ w h. Returned-continue Q R f (m w).0 (m w).1 kf (km.at w h);
  }

  pub Runs-if :
      {A : Type 0} (Q : A → View) (b : Bool) (m n : M A)
      → Runs P Q m
      → Runs P Q n
      → Runs P Q (if b then m else n)
  Runs-if Q true m n km kn = km
  Runs-if Q false m n km kn = kn

  module _ (o : Outside) where
    pub Runs-now : Runs P (λ t. P) (now o)
    unfolding now
    Runs-now = record { at = λ w h. (o.clock w.tick, refl, h) }

    module _ (live : (t : ℕ) → o.dies t ≡ false) where
      pub Runs-commit :
          (Q : View)
          → ((committed current : Db) (wire : _)
              → P committed current wire
              → Q current current wire)
          → Runs P (λ a. Q) (commit o)
      unfolding commit
      Runs-commit Q k = record {
        at = λ w h. rw (live w.tick) (tt, refl, k w.committed w.current w.wire h);
      }

      pub Runs-publish : (e : Event) → Runs P (λ a. P) (publish o e)
      unfolding publish
      Runs-publish e = record { at = λ w h. rw (live w.tick) (tt, refl, h) }

      pub Runs-statement :
          {A : Type 0} (Q : A → View) (f : ℕ → Db → Option A × Db)
          → ((t : ℕ) (committed current : Db) (wire : _)
              → P committed current wire
              → (a : A) × ((f t current).0 ≡ some a) × Q a committed (f t current).1 wire)
          → Runs P Q (statement o f)
      unfolding statement
      Runs-statement Q f k = record {
        at = λ w h. rw (live w.tick) (
            settled Q (f (o.clock w.tick) w.current) w
              (k (o.clock w.tick) w.committed w.current w.wire h));
      }
        where
          settled :
              {A : Type 0} (Q : A → View) (r : Option A × Db) (w : World)
              → (a : A) × (r.0 ≡ some a) × Q a w.committed r.1 w.wire
              → Returned Q (settle r w)
          settled Q (none, db) w (a, e, h) = absurd (cc e)
          settled Q (some b, db) w (a, e, h) = (a, ap ok (inner a b e), h)
            where
              inner : {A : Type 0} (a b : A) → some b ≡ some a → b ≡ a
              inner a b e = cc e
