-- ===== src/Chat/Reservation/Views.antt =====
-- The answers to one inbound message, and what holds of them between the steps of `_send_once`.
use whatsapp_ai_bot.Prelude.{
  ℕ, suc, ◌≤◌, String, Bool, true, false, ◌&&◌, List, [], ◌∷◌, Option, ◌≡◌, refl, arith, select,
  length, Bool-cases, inl, inr,
}
use whatsapp_ai_bot.Store.Rows.{Db}
use whatsapp_ai_bot.Store.Messages.{holds, reserved}
use whatsapp_ai_bot.World.{Wire}
use whatsapp_ai_bot.World.Effects.{wire_of}
use whatsapp_ai_bot.World.Keeps.{Durable}
use whatsapp_ai_bot.World.Leads.{Implies}

-- The calls that were made to answer the message, and those of them that returned.
unfoldable pub answers : String → List Wire → ℕ
answers m wire = length (select (λ x. holds x.answering m) wire)

unfoldable pub accepted_answers : String → List Wire → ℕ
accepted_answers m wire = length (select (λ x. x.accepted && holds x.answering m) wire)

module _ (m : String) where
  -- Before and after every handler.
  pub record Once (committed current : Db) (wire : List Wire) : Type 0 where
    pub stays : reserved m committed ≡ true → reserved m current ≡ true
    pub few : answers m wire ≤ 2
    pub one : accepted_answers m wire ≤ 1
    pub unanswered : reserved m committed ≡ false → answers m wire ≡ 0

  -- The reservation is written, and not yet committed.
  pub record Written (committed current : Db) (wire : List Wire) : Type 0 where
    pub here : reserved m current ≡ true
    pub once : Once committed current wire
    pub silent : answers m wire ≡ 0

  -- It is committed, and at most `n` calls failed.
  pub record Held (n : ℕ) (committed current : Db) (wire : List Wire) : Type 0 where
    pub durable : reserved m committed ≡ true
    pub here : reserved m current ≡ true
    pub tried : answers m wire ≤ n
    pub none_taken : accepted_answers m wire ≡ 0

  pub accepted-answers : (wire : List Wire) → accepted_answers m wire ≤ answers m wire
  unfolding accepted_answers answers select
  accepted-answers [] = omega arith
  accepted-answers (x ∷ xs) = ground (arith, accepted-answers xs)

  pub answers-other :
      (taken : Bool) (recipient text : String) (answering : Option String) (closing : Option ℕ)
      (wire : List Wire)
      → holds answering m ≡ false
      → answers m (wire_of taken recipient text answering closing ∷ wire) ≡ answers m wire
  unfolding answers select
  answers-other taken recipient text answering closing wire h = ground (arith, h)

  pub accepted_answers-other :
      (taken : Bool) (recipient text : String) (answering : Option String) (closing : Option ℕ)
      (wire : List Wire)
      → holds answering m ≡ false
      → accepted_answers m (wire_of taken recipient text answering closing ∷ wire)
        ≡ accepted_answers m wire
  unfolding accepted_answers select
  accepted_answers-other taken recipient text answering closing wire h = ground (arith, h)

  pub answers-own :
      (taken : Bool) (recipient text : String) (answering : Option String) (closing : Option ℕ)
      (wire : List Wire)
      → answers m (wire_of taken recipient text answering closing ∷ wire) ≤ suc (answers m wire)
  unfolding answers select
  answers-own taken recipient text answering closing wire = ground arith

  pub accepted_answers-refused :
      (recipient text : String) (answering : Option String) (closing : Option ℕ) (wire : List Wire)
      → accepted_answers m (wire_of false recipient text answering closing ∷ wire)
        ≡ accepted_answers m wire
  unfolding accepted_answers select
  accepted_answers-refused recipient text answering closing wire = refl

  pub accepted_answers-own :
      (taken : Bool) (recipient text : String) (answering : Option String) (closing : Option ℕ)
      (wire : List Wire)
      → accepted_answers m (wire_of taken recipient text answering closing ∷ wire)
        ≤ suc (accepted_answers m wire)
  unfolding accepted_answers select
  accepted_answers-own taken recipient text answering closing wire = ground arith

  pub Once-Durable : Durable Once
  Once-Durable = record {
    lost = λ committed current wire h. record {
      stays = λ e. e;
      few = h.few;
      one = h.one;
      unanswered = h.unanswered;
    };
  }

  -- A statement that keeps the reservation keeps the view.
  pub Once-of_grown :
      (committed current after : Db) (wire : List Wire)
      → (reserved m current ≡ true → reserved m after ≡ true)
      → Once committed current wire
      → Once committed after wire
  Once-of_grown committed current after wire g h = record {
    stays = λ e. g (h.stays e);
    few = h.few;
    one = h.one;
    unanswered = h.unanswered;
  }

  pub Once-of_committed :
      (committed current : Db) (wire : List Wire)
      → Once committed current wire
      → Once current current wire
  Once-of_committed committed current wire h = record {
    stays = λ e. e;
    few = h.few;
    one = h.one;
    unanswered = λ e. elim (Bool-cases (reserved m committed)) [
      | inl t ↦ absurd (cc (h.stays t, e))
      | inr f ↦ h.unanswered f
    ];
  }

  pub Once-of_other :
      (committed current : Db) (wire : List Wire) (taken : Bool) (recipient text : String)
      (answering : Option String) (closing : Option ℕ)
      → holds answering m ≡ false
      → Once committed current wire
      → Once committed current (wire_of taken recipient text answering closing ∷ wire)
  Once-of_other committed current wire taken recipient text answering closing apart h =
      let same = answers-other taken recipient text answering closing wire apart in
      record {
        stays = h.stays;
        few = omega (arith, same, h.few);
        one = omega (
          arith,
          accepted_answers-other taken recipient text answering closing wire apart,
          h.one,
        );
        unanswered = λ e. omega (arith, same, h.unanswered e);
      }

  pub Once-of_Held : (n : ℕ) → n ≤ 2 → Implies (Held n) Once
  Once-of_Held n small committed current wire h = record {
    stays = λ e. h.here;
    few = omega (arith, small, h.tried);
    one = omega (arith, h.none_taken);
    unanswered = λ e. absurd (cc (h.durable, e));
  }
