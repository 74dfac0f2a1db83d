-- ===== src/Tokens/Loop.antt =====
-- The loop of `trim_history` of app/utils/tokens.py as the entries that it takes and leaves.
use mathlib.Core.List.{append_assoc, append-nil}
use whatsapp_ai_bot.Prelude.{
  ℕ, ◌+◌, ◌≤◌, ◌<◌, String, Bool, true, ◌&&◌, List, [], ◌∷◌, ◌++◌, ltb, if◌then◌else◌, ◌≡◌, refl,
  sym, inl, inr, arith, Bool-cases,
}
use whatsapp_ai_bot.Tokens.{Turn, cost, collect, is_nonempty}

module _ (count_tokens : String → ℕ) where
  -- The tokens that a history costs.
  unfoldable pub total_cost : List Turn → ℕ
  total_cost [] = 0
  total_cost (m ∷ ms) = cost count_tokens m + total_cost ms

  -- The entries that the loop takes, and those that it leaves, from newest to oldest.
  unfoldable pub pick : ℕ → Bool → ℕ → List Turn → List Turn
  pick max_tokens started total [] = []
  pick max_tokens started total (m ∷ older) =
      let rest = pick max_tokens true (total + cost count_tokens m) older in
      if started && ltb max_tokens (total + cost count_tokens m) then [] else m ∷ rest

  unfoldable pub leave : ℕ → Bool → ℕ → List Turn → List Turn
  leave max_tokens started total [] = []
  leave max_tokens started total (m ∷ older) =
      let rest = leave max_tokens true (total + cost count_tokens m) older in
      if started && ltb max_tokens (total + cost count_tokens m) then m ∷ older else rest

  is_nonempty-snoc : (xs : List Turn) (m : Turn) → is_nonempty (xs ++ m ∷ []) ≡ true
  is_nonempty-snoc [] m = refl
  is_nonempty-snoc (x ∷ xs) m = refl

  pub collect-eq-pick :
      (b total : ℕ) (trimmed rs : List Turn)
      → collect count_tokens b total trimmed rs ≡ trimmed ++ pick b (is_nonempty trimmed) total rs
  unfolding collect pick
  collect-eq-pick b total trimmed [] = sym (append-nil trimmed)
  collect-eq-pick b total trimmed (m ∷ rs) =
      elim (Bool-cases (is_nonempty trimmed && ltb b (total + cost count_tokens m))) [
        | inl e ↦ rw (e) (sym (append-nil trimmed))
        | inr e ↦ rw (e) (
            rw
              (
                collect-eq-pick b (total + cost count_tokens m) (trimmed ++ m ∷ []) rs,
                is_nonempty-snoc trimmed m,
              )
              (append_assoc trimmed (m ∷ []) (pick b true (total + cost count_tokens m) rs)))
      ]

  pub pick-append-leave :
      (b : ℕ) (s : Bool) (total : ℕ) (rs : List Turn) → pick b s total rs ++ leave b s total rs ≡ rs
  unfolding pick leave
  pick-append-leave b s total [] = refl
  pick-append-leave b s total (m ∷ rs) =
      ground (arith, pick-append-leave b true (total + cost count_tokens m) rs)

  -- Once something is taken, the budget is kept.
  pub pick_fits :
      (b total : ℕ) (rs : List Turn) → total ≤ b → total + total_cost (pick b true total rs) ≤ b
  unfolding pick total_cost
  pick_fits b total [] h = omega arith
  pick_fits b total (m ∷ rs) h = ground (arith, pick_fits b (total + cost count_tokens m) rs)

  -- What is left first would not have fitted.
  pub leave_full :
      (b total : ℕ) (rs : List Turn) (m : Turn) (ms : List Turn)
      → leave b true total rs ≡ m ∷ ms
      → b < total + total_cost (pick b true total rs) + cost count_tokens m
  unfolding pick leave total_cost
  leave_full b total [] m ms h = absurd (cc)
  leave_full b total (x ∷ rs) m ms h =
      ground (arith, leave_full b (total + cost count_tokens x) rs m ms)

  -- Nothing more is taken once the budget is passed.
  pub pick_over : (b total : ℕ) (rs : List Turn) → b < total → pick b true total rs ≡ []
  unfolding pick
  pick_over b total [] h = refl
  pick_over b total (m ∷ rs) h = ground arith

  pub total_cost-append :
      (xs ys : List Turn) → total_cost (xs ++ ys) ≡ total_cost xs + total_cost ys
  unfolding total_cost
  total_cost-append [] ys = omega arith
  total_cost-append (x ∷ xs) ys = omega (arith, total_cost-append xs ys)
