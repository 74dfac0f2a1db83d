-- ===== src/Tokens/Window.antt =====
-- What `trim_history` of app/utils/tokens.py keeps of a history.
use mathlib.Core.List.{reverse-append, reverse-reverse, append_assoc}
use whatsapp_ai_bot.Prelude.{
  ℕ, ◌+◌, ◌-◌, ◌≤◌, ◌<◌, String, false, List, [], ◌∷◌, ◌++◌, reverse, take, drop, length,
  length-append, length-drop, length-take, take-append-drop, ◌≡◌, refl, ap, ◌⊎◌, inl, ◌≢◌, arith,
}
use whatsapp_ai_bot.Tokens.{Turn, cost, trim_history, slice_last}
use whatsapp_ai_bot.Tokens.Loop.{
  total_cost, total_cost-append, pick, leave, pick_over, pick_fits, leave_full, pick-append-leave,
  collect-eq-pick,
}

length-reverse : (xs : List Turn) → length (reverse xs) ≡ length xs
length-reverse [] = refl
length-reverse (x ∷ xs) =
    rw (reverse-append (x ∷ []) xs)
      (omega (arith, length-append (reverse xs) (x ∷ []), length-reverse xs))

nil_of_length : (xs : List Turn) → length xs ≡ 0 → xs ≡ []
nil_of_length [] h = refl
nil_of_length (x ∷ xs) h = absurd (omega arith)

-- The entries that `history[-max_messages:]` drops.
abbrev outside : ℕ → List Turn → List Turn
outside n history = take (length history - n) history

slice_last-eq-drop :
    (n : ℕ) (history : List Turn) → 0 < n → slice_last n history ≡ drop (length history - n) history
unfolding slice_last
slice_last-eq-drop n history h = ground arith

outside-append-slice_last :
    (n : ℕ) (history : List Turn) → 0 < n → outside n history ++ slice_last n history ≡ history
outside-append-slice_last n history h =
    rw (slice_last-eq-drop n history h) (take-append-drop (length history - n) history)

length-slice_last : (n : ℕ) (history : List Turn) → 0 < n → length (slice_last n history) ≤ n
length-slice_last n history h =
    rw (slice_last-eq-drop n history h) (omega (arith, length-drop (length history - n) history))

outside_short :
    (n : ℕ) (history : List Turn)
    → 0 < n
    → length (slice_last n history) < n
    → outside n history ≡ []
outside_short n history p h = nil_of_length (outside n history) (
    omega (
      arith,
      ap length (slice_last-eq-drop n history p),
      length-drop (length history - n) history,
      length-take (length history - n) history,
    ))

module _ (count_tokens : String → ℕ) where
  total_cost-reverse :
      (xs : List Turn) → total_cost count_tokens (reverse xs) ≡ total_cost count_tokens xs
  unfolding total_cost
  total_cost-reverse [] = refl
  total_cost-reverse (x ∷ xs) =
      rw (reverse-append (x ∷ []) xs)
        (omega (arith, total_cost-append count_tokens (reverse xs) (x ∷ []), total_cost-reverse xs))

  -- What the loop takes and leaves, from the newest entry of the slice.
  abbrev kept : ℕ → List Turn → List Turn
  kept b rs = pick count_tokens b false 0 rs

  abbrev rest : ℕ → List Turn → List Turn
  rest b rs = leave count_tokens b false 0 rs

  kept_fits :
      (b : ℕ) (rs : List Turn)
      → (total_cost count_tokens (kept b rs) ≤ b) ⊎ (length (kept b rs) ≡ 1)
  unfolding pick total_cost
  kept_fits b [] = inl (omega arith)
  kept_fits b (m ∷ rs) = ground (
    arith,
    pick_fits count_tokens b (cost count_tokens m) rs,
    pick_over count_tokens b (cost count_tokens m) rs,
  )

  rest_full :
      (b : ℕ) (rs : List Turn) (m : Turn) (ms : List Turn)
      → rest b rs ≡ m ∷ ms
      → b < total_cost count_tokens (kept b rs) + cost count_tokens m
  unfolding pick leave total_cost
  rest_full b [] m ms h = absurd (cc)
  rest_full b (x ∷ rs) m ms h =
      ground (arith, leave_full count_tokens b (cost count_tokens x) rs m ms)

  kept_nonempty : (b : ℕ) (rs : List Turn) → rs ≢ [] → kept b rs ≢ []
  unfolding pick
  kept_nonempty b [] h = absurd (h refl)
  kept_nonempty b (m ∷ rs) h = λ e. cc

  -- What stands before the kept entries in the history.
  unfoldable pub older : List Turn → ℕ → ℕ → List Turn
  older history n b = outside n history ++ reverse (rest b (reverse (slice_last n history)))

  trim_history-eq-kept :
      (history : List Turn) (n b : ℕ)
      → trim_history count_tokens history n b ≡ reverse (kept b (reverse (slice_last n history)))
  unfolding trim_history
  trim_history-eq-kept history n b =
      ap reverse (collect-eq-pick count_tokens b 0 [] (reverse (slice_last n history)))

  older-append-trim_history :
      (history : List Turn) (n b : ℕ)
      → 0 < n
      → older history n b ++ trim_history count_tokens history n b ≡ history
  unfolding older
  older-append-trim_history history n b p =
      rw
        (
          trim_history-eq-kept history n b,
          append_assoc,
          ← reverse-append,
          pick-append-leave count_tokens b false 0 (reverse (slice_last n history)),
          reverse-reverse,
        )
        (outside-append-slice_last n history p)

  slice_last-nonempty :
      (n : ℕ) (history : List Turn) → 0 < n → history ≢ [] → slice_last n history ≢ []
  slice_last-nonempty n [] p h = absurd (h refl)
  slice_last-nonempty n (m ∷ ms) p h = λ e. absurd (
      omega (
        arith,
        ap length (slice_last-eq-drop n (m ∷ ms) p),
        length-drop (length (m ∷ ms) - n) (m ∷ ms),
        ap length e,
      ))

  reverse-nonempty : (xs : List Turn) → xs ≢ [] → reverse xs ≢ []
  reverse-nonempty xs h = λ e. h (nil_of_length xs (omega (arith, ap length e, length-reverse xs)))

  kept_bounded : (b : ℕ) (rs : List Turn) → length (kept b rs) ≤ length rs
  kept_bounded b rs = omega (
    arith,
    ap length (pick-append-leave count_tokens b false 0 rs),
    length-append (kept b rs) (rest b rs),
  )

  -- Of a history that is not empty, with a positive limit on messages, `trim_history` keeps a
  -- suffix: it is not empty, it has at most `n` messages, and it costs at most `b` tokens unless
  -- it is the newest message alone.
  pub trim_history_window :
      (history : List Turn) (n b : ℕ)
      → 0 < n
      → history ≢ []
      → (older history n b ++ trim_history count_tokens history n b ≡ history)
        × (trim_history count_tokens history n b ≢ [])
        × (length (trim_history count_tokens history n b) ≤ n)
        × ((total_cost count_tokens (trim_history count_tokens history n b) ≤ b)
            ⊎ (length (trim_history count_tokens history n b) ≡ 1))
  trim_history_window history n b p h =
      let w = reverse (slice_last n history) in
      let same = trim_history-eq-kept history n b in
      let filled = reverse-nonempty (slice_last n history) (slice_last-nonempty n history p h) in
      (
        older-append-trim_history history n b p,
        rw same (reverse-nonempty (kept b w) (kept_nonempty b w filled)),
        rw same (
            omega (
              arith,
              length-reverse (kept b w),
              kept_bounded b w,
              length-reverse (slice_last n history),
              length-slice_last n history p,
            )),
        rw (same, length-reverse (kept b w), total_cost-reverse (kept b w)) (kept_fits b w),
      )

  older_closed :
      (history : List Turn) (n b : ℕ)
      → 0 < n
      → length (trim_history count_tokens history n b) < n
      → rest b (reverse (slice_last n history)) ≡ []
      → older history n b ≡ []
  unfolding older
  older_closed history n b p short e =
      let w = reverse (slice_last n history) in
      let whole : kept b w ++ rest b w ≡ w = pick-append-leave count_tokens b false 0 w in
      let few : length (slice_last n history) < n = omega (
        arith,
        ap length (trim_history-eq-kept history n b),
        length-reverse (kept b w),
        ap length whole,
        length-append (kept b w) (rest b w),
        ap length e,
        length-reverse (slice_last n history),
      ) in
      rw (outside_short n history p few, e) refl

  older_last :
      (history before : List Turn) (m : Turn) (n b : ℕ)
      → older history n b ≡ before ++ m ∷ []
      → rest b (reverse (slice_last n history)) ++ reverse (outside n history) ≡ m ∷ reverse before
  unfolding older
  older_last history before m n b e =
      let left = rest b (reverse (slice_last n history)) in
      rw (← reverse-reverse left, ← reverse-append, e, reverse-append) refl

  -- The suffix is the longest that fits: where fewer than `n` messages were kept, the newest
  -- message `m` that was left out would have passed the budget `b`.
  pub trim_history_maximal :
      (history before : List Turn) (m : Turn) (n b : ℕ)
      → 0 < n
      → older history n b ≡ before ++ m ∷ []
      → length (trim_history count_tokens history n b) < n
      → b < total_cost count_tokens (trim_history count_tokens history n b) + cost count_tokens m
  trim_history_maximal history before m n b p e short =
      go (rest b (reverse (slice_last n history))) refl
    where
      go :
          (left : List Turn)
          → rest b (reverse (slice_last n history)) ≡ left
          → b
            < total_cost count_tokens (trim_history count_tokens history n b) + cost count_tokens m
      go [] q = absurd (
          omega (
            arith,
            ap length (older_closed history n b p short q),
            ap length e,
            length-append before (m ∷ []),
          ))
      go (x ∷ left) q =
          let w = reverse (slice_last n history) in
          let same : x ≡ m = cc (q, older_last history before m n b e) in
          rw (trim_history-eq-kept history n b, total_cost-reverse (kept b w), ← same)
            (rest_full b w x left q)
