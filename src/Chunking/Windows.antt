-- ===== src/Chunking/Windows.antt =====
-- `_windows` of app/core/chunking.py: it ends, and it loses no token.
use whatsapp_ai_bot.Prelude.{
  ℕ, zero, suc, ◌≤◌, List, [], ◌∷◌, ◌++◌, map, Option, some, ◌≡◌, refl, ◌∙◌, ap, arith, length,
  take, drop, length-take, length-drop, take-append-drop, All,
}
use whatsapp_ai_bot.Chunking.{Tokens, windows_from, windows}

abbrev pub join : List Tokens → Tokens
join [] = []
join (w ∷ ws) = w ++ join ws

take-take : (n m : ℕ) (xs : Tokens) → n ≤ m → take n (take m xs) ≡ take n xs
take-take zero m xs h = refl
take-take (suc n) zero xs h = absurd (omega (arith, h))
take-take (suc n) (suc m) [] h = refl
take-take (suc n) (suc m) (x ∷ xs) h = ap (λ t. x ∷ t) (take-take n m xs (omega (arith, h)))

-- The windows of the tokens, with what they leave when each is cut to its first `step` tokens.
abbrev pub Rejoined : ℕ → ℕ → Tokens → Option (List Tokens) → Type 0
Rejoined size step tokens r =
    (ws : List Tokens) × (r ≡ some ws)
    × (join (map (take step) ws) ≡ tokens)
    × All (λ w. length w ≤ size) ws

windows_from_rejoin :
    (fuel size step : ℕ) (tokens : Tokens)
    → 1 ≤ step
    → step ≤ size
    → length tokens ≤ fuel
    → Rejoined size step tokens (windows_from fuel size step tokens)
unfolding windows_from
windows_from_rejoin zero size step [] p le h = ([], refl, refl, tt)
windows_from_rejoin zero size step (t ∷ ts) p le h = absurd (omega (arith, h))
windows_from_rejoin (suc fuel) size step [] p le h = ([], refl, refl, tt)
windows_from_rejoin (suc fuel) size step (t ∷ ts) p le h =
    let shorter : length (drop step (t ∷ ts)) ≤ fuel =
      omega (arith, h, p, length-drop step (t ∷ ts)) in
    let (ws, e, joins, small) =
      windows_from_rejoin fuel size step (drop step (t ∷ ts)) p le shorter in
    rw e (
      take size (t ∷ ts) ∷ ws,
      refl,
      ap (λ x. x ++ join (map (take step) ws)) (take-take step size (t ∷ ts) le)
          ∙ ap (λ x. take step (t ∷ ts) ++ x) joins
          ∙ take-append-drop step (t ∷ ts),
      (omega (arith, length-take size (t ∷ ts)), small),
    )

-- For a positive step that is no longer than a window, `_windows` ends; its windows are no longer
-- than the size, and their first `step` tokens are, in order, the tokens of the paragraph.
pub windows_rejoin :
    (tokens : Tokens) (size step : ℕ)
    → 1 ≤ step
    → step ≤ size
    → (ws : List Tokens) × (windows tokens size step ≡ some ws)
      × (join (map (take step) ws) ≡ tokens)
      × All (λ w. length w ≤ size) ws
unfolding windows
windows_rejoin tokens size step p le =
    windows_from_rejoin (length tokens) size step tokens p le (omega arith)
