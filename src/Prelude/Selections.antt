-- ===== src/Prelude/Selections.antt =====
-- What a selection contains, and what is found in it.
use mathlib.Core.Path.{◌≡◌, refl, subst}
use mathlib.Core.Logic.{inl, inr}
use mathlib.Core.List.{List, [], ◌∷◌}
use mathlib.Core.Bool.{Bool, true, false}
use mathlib.Core.Option.{Option, none, some}
use Prim.Native.Nat.{ℕ}
use native.Mathlib.Omega.{arith}
use whatsapp_ai_bot.Prelude.Tests.{Bool-cases, ltb}
use whatsapp_ai_bot.Prelude.Lists.{All, select, any, latest, later}

module _ {ℓ} {A : Type ℓ} where
  pub All-zip {κ μ ν} :
      (P : A → Type κ) (Q : A → Type μ) (R : A → Type ν) (xs : List A)
      → ((x : A) → P x → Q x → R x)
      → All P xs
      → All Q xs
      → All R xs
  All-zip P Q R [] f hp hq = tt
  All-zip P Q R (x ∷ xs) f hp hq = (f x hp.0 hq.0, All-zip P Q R xs f hp.1 hq.1)

  pub All-select {κ} :
      (P : A → Type κ) (p : A → Bool) (xs : List A) → All P xs → All P (select p xs)
  unfolding select
  All-select P p [] h = tt
  All-select P p (x ∷ xs) h = elim (Bool-cases (p x)) [
    | inl e ↦ rw e (h.0, All-select P p xs h.1)
    | inr e ↦ rw e (All-select P p xs h.1)
  ]

  pub select-passes : (p : A → Bool) (xs : List A) → All (λ x. p x ≡ true) (select p xs)
  unfolding select
  select-passes p [] = tt
  select-passes p (x ∷ xs) = elim (Bool-cases (p x)) [
    | inl e ↦ rw e (e, select-passes p xs)
    | inr e ↦ rw e (select-passes p xs)
  ]

  pub select_none : (p : A → Bool) (xs : List A) → any p xs ≡ false → select p xs ≡ []
  unfolding select any
  select_none p [] h = refl
  select_none p (x ∷ xs) h = ground (arith, select_none p xs)

  pub latest-All {κ} :
      (P : A → Type κ) (key : A → ℕ) (xs : List A) (a : A) → All P xs → latest key xs ≡ some a → P a
  unfolding latest later
  latest-All P key [] a h e = absurd (cc e)
  latest-All P key (x ∷ xs) a h e = go (latest key xs) (λ y q. latest-All P key xs y h.1 q) e
    where
      go : (r : Option A) → ((y : A) → r ≡ some y → P y) → later key x r ≡ some a → P a
      go none k q = subst P (cc q) h.0
      go (some y) k q = elim (Bool-cases (ltb (key x) (key y))) [
        | inl t ↦ k a (rw t at q)
        | inr f ↦ subst P (cc (rw f at q)) h.0
      ]

  pub latest_exists :
      (key : A → ℕ) (p : A → Bool) (xs : List A)
      → any p xs ≡ true
      → (a : A) × (latest key (select p xs) ≡ some a)
  unfolding any select latest later
  latest_exists key p [] h = absurd (cc h)
  latest_exists key p (x ∷ xs) h = elim (Bool-cases (p x)) [
    | inl e ↦ rw e (later_exists x (latest key (select p xs)))
    | inr e ↦ rw e (latest_exists key p xs (rw e at h))
  ]
    where
      later_exists : (x : A) (r : Option A) → (a : A) × (later key x r ≡ some a)
      later_exists x none = (x, refl)
      later_exists x (some y) = elim (Bool-cases (ltb (key x) (key y))) [
        | inl t ↦ (y, rw t refl)
        | inr f ↦ (x, rw f refl)
      ]
