-- ===== src/Retrieval.antt =====
-- `DocumentRetriever.retrieve` of app/services/retrieval.py. The embedding of the query and the search
-- of the database are one parameter, as are Python's `str.strip`, `len` of a text, `round` and the
-- print of a page number.
pub mod Budget
use Prim.Native.String.{◌++◌ as append_text}
use whatsapp_ai_bot.Prelude.{
  ℕ, zero, suc, ◌-◌, String, List, [], ◌∷◌, Option, none, some, ltb, if◌then◌else◌, str_eq,
}

-- One hit of the search: the chunk, with the title of its document.
pub record Hit : Type 0 where
  pub content : String
  pub title : String
  pub page : Option ℕ
  pub score : ℕ

pub record RetrievedDocument : Type 0 where
  pub content : String
  pub source : String
  pub score : ℕ

pub record Retriever : Type 0 where
  pub search : String → ℕ → List Hit
  pub strip : String → String
  pub length_of : String → ℕ
  pub round : ℕ → ℕ
  pub print : ℕ → String
  pub rag_max_context_chars : ℕ

module _ (r : Retriever) where
  -- `_label`; the page 0 counts as none.
  unfoldable pub label_of_page : String → Option ℕ → String
  label_of_page title none = title
  label_of_page title (some zero) = title
  label_of_page title (some (suc n)) =
      append_text title (append_text " (p. " (append_text (r.print (suc n)) ")"))

  unfoldable pub document_of : Hit → RetrievedDocument
  unfolding label_of_page
  document_of h = record {
    content = h.content;
    source = label_of_page h.title h.page;
    score = r.round h.score;
  }

  -- The loop over the hits, with what is left of the budget.
  unfoldable pub within_budget : ℕ → List Hit → List RetrievedDocument
  unfolding document_of
  within_budget budget [] = []
  within_budget budget (h ∷ hs) =
      let rest = within_budget (budget - r.length_of h.content) hs in
      if ltb budget (r.length_of h.content) then [] else document_of h ∷ rest

  -- `retrieve`
  unfoldable pub retrieve : String → ℕ → List RetrievedDocument
  unfolding within_budget
  retrieve query limit =
      let cleaned = r.strip query in
      if str_eq cleaned ""
      then []
      else within_budget r.rag_max_context_chars (r.search cleaned limit)
