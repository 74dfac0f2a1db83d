-- ===== src/Retrieval/Budget.antt =====
-- Which hits `retrieve` of app/services/retrieval.py hands to the model.
use whatsapp_ai_bot.Prelude.{
  ℕ, suc, ◌+◌, ◌-◌, ◌≤◌, ◌<◌, String, false, List, [], ◌∷◌, map, ◌≡◌, refl, ap, ◌⊎◌, inl, inr,
  arith, ltb, length, take, Bool-cases, str_eq,
}
use whatsapp_ai_bot.Retrieval.{
  Retriever, Hit, RetrievedDocument, document_of, within_budget, retrieve,
}

module _ (r : Retriever) where
  -- The characters of some hits.
  abbrev pub size_of : List Hit → ℕ
  size_of [] = 0
  size_of (h ∷ hs) = r.length_of h.content + size_of hs

  abbrev pub LongestPrefix : ℕ → List Hit → List RetrievedDocument → Type 0
  LongestPrefix budget hits documents =
      (n : ℕ) × (n ≤ length hits)
      × (documents ≡ map (document_of r) (take n hits))
      × (size_of (take n hits) ≤ budget)
      × ((n ≡ length hits) ⊎ (budget < size_of (take (suc n) hits)))

  within_budget_longest :
      (budget : ℕ) (hits : List Hit) → LongestPrefix budget hits (within_budget r budget hits)
  unfolding within_budget
  within_budget_longest budget [] = (0, omega arith, refl, omega arith, inl refl)
  within_budget_longest budget (h ∷ hs) = elim (Bool-cases (ltb budget (r.length_of h.content))) [
    | inl over ↦ rw over (0, omega arith, refl, omega arith, inr (ground (arith, over)))
    | inr fits ↦
        let (n, within, same, small, longest) =
          within_budget_longest (budget - r.length_of h.content) hs in
        rw fits (
          suc n,
          omega (arith, within),
          ap (λ ds. document_of r h ∷ ds) same,
          ground (arith, fits, small),
          longer (r.length_of h.content) budget n hs fits longest,
        )
  ]
    where
      longer :
          (k budget n : ℕ) (hs : List Hit)
          → ltb budget k ≡ false
          → (n ≡ length hs) ⊎ (budget - k < size_of (take (suc n) hs))
          → (suc n ≡ suc (length hs)) ⊎ (budget < k + size_of (take (suc n) hs))
      longer k budget n hs fits (inl e) = inl (ap suc e)
      longer k budget n hs fits (inr more) = inr (ground (arith, fits, more))

  -- For a query that is not blank, the documents are those of the first hits in their order, they fit
  -- the budget of characters together, and either no hit is left or the next one would exceed it.
  pub retrieve_longest :
      (query : String) (limit : ℕ)
      → str_eq (r.strip query) "" ≡ false
      → LongestPrefix r.rag_max_context_chars
          (r.search (r.strip query) limit)
          (retrieve r query limit)
  unfolding retrieve
  retrieve_longest query limit asked = rw asked (within_budget_longest _ _)
