-- ===== src/Store/Conversations/Laws.antt =====
-- The rows of conversations that the statements keep: one active session for each customer, and ids that
-- fall from the newest row to the oldest.
use whatsapp_ai_bot.Prelude.{
  ℕ, ◌<◌, ◌≡◌, refl, ◌∙◌, ap, subst, sym, Bool, true, false, List, [], ◌∷◌, some, ◌==◌, select,
  find, any, update_where, All, All-zip, select_none, Bool-cases, inl, inr, arith,
}
use whatsapp_ai_bot.Store.Rows.{Db, Conversation, is_active}
use whatsapp_ai_bot.Store.Conversations.{is_open_for, index_holds}

-- The ids fall, below a bound.
abbrev pub IdsBelow : ℕ → List Conversation → Type 0
IdsBelow n [] = Unit
IdsBelow n (c ∷ cs) = (c.id < n) × IdsBelow c.id cs

pub record WellFormed (db : Db) : Type 0 where
  pub one_active : index_holds db.conversations ≡ true
  pub falling : IdsBelow db.next_conversation db.conversations

abbrev pub Find : List Conversation → Conversation → Type 0
Find cs c = find (λ x. x.id == c.id) cs ≡ some c

All-below :
    (n : ℕ) (cs : List Conversation) → IdsBelow n cs → All (λ (c : Conversation). c.id < n) cs
All-below n [] h = tt
All-below n (c ∷ cs) h = (
  h.0,
  All-zip (λ (x : Conversation). x.id < c.id) (λ (x : Conversation). x.id < c.id)
      (λ (x : Conversation). x.id < n) cs (λ x p q. omega (arith, p, h.0)) (All-below c.id cs h.1)
      (All-below c.id cs h.1),
)

-- Every row is the one that its id finds.
pub found_by_id : (n : ℕ) (cs : List Conversation) → IdsBelow n cs → All (Find cs) cs
unfolding find
found_by_id n [] h = tt
found_by_id n (c ∷ cs) h = (
  ground arith,
  All-zip (Find cs) (λ (x : Conversation). x.id < c.id) (Find (c ∷ cs)) cs
      (λ x p q. ground (arith, p, q)) (found_by_id c.id cs h.1) (All-below c.id cs h.1),
)

index_tail :
    (c : Conversation) (cs : List Conversation)
    → index_holds (c ∷ cs) ≡ true
    → index_holds cs ≡ true
unfolding index_holds
index_tail c cs h = ground arith

index_head :
    (c : Conversation) (cs : List Conversation)
    → index_holds (c ∷ cs) ≡ true
    → is_active c.status ≡ true
    → any (is_open_for c.user_id) cs ≡ false
unfolding index_holds
index_head c cs h a = ground arith

open_user : (user : ℕ) (c : Conversation) → is_open_for user c ≡ true → c.user_id ≡ user
unfolding is_open_for
open_user user c h = ground arith

open_active : (user : ℕ) (c : Conversation) → is_open_for user c ≡ true → is_active c.status ≡ true
unfolding is_open_for
open_active user c h = ground arith

only_open :
    (user : ℕ) (d : Conversation) (cs : List Conversation)
    → index_holds (d ∷ cs) ≡ true
    → is_open_for user d ≡ true
    → select (is_open_for user) cs ≡ []
only_open user d cs h o = select_none (is_open_for user) cs (
    subst (λ u. any (is_open_for u) cs ≡ false) (open_user user d o)
      (index_head d cs h (open_active user d o)))

module _ (p : Conversation → Bool) (f : Conversation → Conversation) where
  -- An update that keeps the ids keeps their order.
  pub IdsBelow-update :
      (n : ℕ) (cs : List Conversation)
      → ((c : Conversation) → (f c).id ≡ c.id)
      → IdsBelow n cs
      → IdsBelow n (update_where p f cs)
  unfolding update_where
  IdsBelow-update n [] k h = tt
  IdsBelow-update n (c ∷ cs) k h = elim (Bool-cases (p c)) [
    | inl e ↦ rw e (
      subst (λ i. i < n) (sym (k c)) h.0,
      subst (λ i. IdsBelow i (update_where p f cs)) (sym (k c)) (IdsBelow-update c.id cs k h.1),
    )
    | inr e ↦ rw e (h.0, IdsBelow-update c.id cs k h.1)
  ]

  -- An update that opens no row opens none for a customer.
  any_open-update :
      (user : ℕ) (cs : List Conversation)
      → ((c : Conversation) → is_open_for user c ≡ false → is_open_for user (f c) ≡ false)
      → any (is_open_for user) cs ≡ false
      → any (is_open_for user) (update_where p f cs) ≡ false
  unfolding any update_where
  any_open-update user [] k h = refl
  any_open-update user (c ∷ cs) k h = ground (arith, k c, any_open-update user cs k)

  stays_shut :
      (user : ℕ) (c : Conversation)
      → (f c).user_id ≡ c.user_id
      → (is_active c.status ≡ false → is_active (f c).status ≡ false)
      → is_open_for user c ≡ false
      → is_open_for user (f c) ≡ false
  unfolding is_open_for
  stays_shut user c k l h = ground (arith, k, l)

  -- An update that opens no row keeps the index.
  pub index_holds-update :
      (cs : List Conversation)
      → ((c : Conversation) → (f c).user_id ≡ c.user_id)
      → ((c : Conversation) → is_active c.status ≡ false → is_active (f c).status ≡ false)
      → index_holds cs ≡ true
      → index_holds (update_where p f cs) ≡ true
  unfolding index_holds update_where
  index_holds-update [] k l h = refl
  index_holds-update (c ∷ cs) k l h =
      let rest = index_holds-update cs k l (index_tail c cs h) in
      elim (Bool-cases (is_active c.status)) [
        | inl on ↦
            let none_else =
              any_open-update c.user_id cs (λ x. stays_shut c.user_id x (k x) (l x))
                (index_head c cs h on) in
            elim (Bool-cases (p c)) [
              | inl e ↦ rw (e, k c, none_else, rest) (ground arith)
              | inr e ↦ rw (e, on, none_else, rest) refl
            ]
        | inr off ↦ elim (Bool-cases (p c)) [
          | inl e ↦ rw (e, l c off, rest) refl
          | inr e ↦ rw (e, off, rest) refl
        ]
      ]

-- The customer's open row is the only one.
pub select_open :
    (user : ℕ) (cs : List Conversation) (c : Conversation) (q : Conversation → Bool)
    → index_holds cs ≡ true
    → find q cs ≡ some c
    → is_open_for user c ≡ true
    → select (is_open_for user) cs ≡ c ∷ []
unfolding index_holds find select
select_open user [] c q h e o = absurd (cc e)
select_open user (d ∷ cs) c q h e o = elim (Bool-cases (q d)) [
  | inl here ↦
      let same : d ≡ c = cc (rw here at e) in
      let od : is_open_for user d ≡ true = ap (is_open_for user) same ∙ o in
      rw (od, only_open user d cs h od, same) refl
  | inr later_on ↦
      let rest = select_open user cs c q (index_tail d cs h) (rw later_on at e) o in
      elim (Bool-cases (is_open_for user d)) [
        | inl od ↦ absurd (cc (rest, only_open user d cs h od))
        | inr shut ↦ rw (shut, rest) refl
      ]
]
