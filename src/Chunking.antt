-- ===== src/Chunking.antt =====
-- app/core/chunking.py: `_windows` and `chunk_text`. A text becomes a list of tokens by the encoder
-- of tiktoken, which is a parameter with its decoder, like `normalize_text` and the split into
-- paragraphs, which run Python's regular expressions.
pub mod Windows
pub mod Packing
pub mod Bounds
use whatsapp_ai_bot.Prelude.{
  ℕ, zero, suc, ◌+◌, ◌-◌, String, Bool, true, false, ◌&&◌, List, [], ◌∷◌, ◌++◌, Option, none, some,
  leb, ltb, if◌then◌else◌, min, max, length, take, drop, take_last, str_eq,
}

abbrev pub Tokens : Type 0
Tokens = List ℕ

pub record TextChunk : Type 0 where
  pub text : String
  pub token_count : ℕ

-- `_windows`, with the tokens from `start` on. Each turn drops `step` tokens, so that as many turns
-- as there are tokens are enough for a positive step; a step of zero would run for ever, and `none`
-- stands for what has not ended.
unfoldable pub windows_from : ℕ → ℕ → ℕ → Tokens → Option (List Tokens)
windows_from zero size step [] = some []
windows_from zero size step (t ∷ ts) = none
windows_from (suc fuel) size step [] = some []
windows_from (suc fuel) size step (t ∷ ts) =
    elim (windows_from fuel size step (drop step (t ∷ ts))) [
      | none ↦ none
      | some rest ↦ some (take size (t ∷ ts) ∷ rest)
    ]

unfoldable pub windows : Tokens → ℕ → ℕ → Option (List Tokens)
unfolding windows_from
windows tokens size step = windows_from (length tokens) size step tokens

-- `overlap`, of a positive bound.
unfoldable pub overlap_of : ℕ → ℕ → ℕ
overlap_of max_tokens overlap_tokens = min overlap_tokens (max_tokens - 1)

unfoldable pub window_size : ℕ → ℕ → ℕ → ℕ
window_size max_tokens overlap sep_len = max 1 (max_tokens - overlap - sep_len)

unfoldable pub window_step : ℕ → ℕ → ℕ
window_step size overlap = max 1 (size - overlap)

-- The units of one paragraph.
unfoldable pub units_of : ℕ → ℕ → ℕ → Tokens → Option (List Tokens)
unfolding windows window_size window_step
units_of max_tokens overlap sep_len tokens =
    if leb (length tokens) max_tokens
    then some (tokens ∷ [])
    else windows tokens (window_size max_tokens overlap sep_len)
        (window_step (window_size max_tokens overlap sep_len) overlap)

-- `current[-overlap:] if overlap else []`
unfoldable pub carried : ℕ → Tokens → Tokens
carried zero current = []
carried (suc n) current = take_last (suc n) current

-- `current + separator + unit if current else list(unit)`
unfoldable pub joined : Tokens → Tokens → Tokens → Tokens
joined separator [] unit = unit
joined separator (t ∷ ts) unit = (t ∷ ts) ++ separator ++ unit

abbrev pub is_nonempty : Tokens → Bool
is_nonempty [] = false
is_nonempty (t ∷ ts) = true

abbrev pub flush : Tokens → List Tokens
flush [] = []
flush (t ∷ ts) = (t ∷ ts) ∷ []

-- The loop over the units, from the chunk that is being filled.
unfoldable pub pack : ℕ → ℕ → Tokens → Tokens → List Tokens → List Tokens
unfolding carried joined
pack max_tokens overlap separator current [] = flush current
pack max_tokens overlap separator current (unit ∷ units) =
    let closed =
      pack max_tokens overlap separator (joined separator (carried overlap current) unit) units in
    let filled = pack max_tokens overlap separator (joined separator current unit) units in
    if is_nonempty current && ltb max_tokens (length current + length separator + length unit)
    then current ∷ closed
    else filled

-- tiktoken, and Python's text functions.
pub record Codec : Type 0 where
  pub encode : String → Tokens
  pub decode : Tokens → String
  pub strip : String → String
  pub normalize : String → String
  pub paragraphs : String → List String

module _ (c : Codec) where
  abbrev append_units : Option (List Tokens) → Option (List Tokens) → Option (List Tokens)
  append_units none rest = none
  append_units (some us) none = none
  append_units (some us) (some rest) = some (us ++ rest)

  -- The loop over the paragraphs.
  unfoldable pub units_of_all : ℕ → ℕ → ℕ → List String → Option (List Tokens)
  unfolding units_of
  units_of_all max_tokens overlap sep_len [] = some []
  units_of_all max_tokens overlap sep_len (p ∷ ps) =
      let rest = units_of_all max_tokens overlap sep_len ps in
      if str_eq (c.strip p) ""
      then rest
      else append_units (units_of max_tokens overlap sep_len (c.encode (c.strip p))) rest

  unfoldable pub decoded : List Tokens → List TextChunk
  decoded [] = []
  decoded (tokens ∷ rest) =
      let others = decoded rest in
      if str_eq (c.strip (c.decode tokens)) ""
      then others
      else record { text = c.strip (c.decode tokens); token_count = length tokens } ∷ others

  -- `chunk_text` for a positive bound: the chunks of tokens, before they are decoded.
  unfoldable pub chunk_tokens : String → ℕ → ℕ → Option (List Tokens)
  unfolding units_of_all overlap_of pack
  chunk_tokens text max_tokens overlap_tokens =
      let cleaned = c.normalize text in
      let overlap = overlap_of max_tokens overlap_tokens in
      let separator = c.encode "\n\n" in
      if str_eq cleaned ""
      then some []
      else elim (units_of_all max_tokens overlap (length separator) (c.paragraphs cleaned)) [
        | none ↦ none
        | some units ↦ some (pack max_tokens overlap separator [] units)
      ]

  -- `chunk_text`; `none` would be a loop that does not end.
  unfoldable pub chunk_text : String → ℕ → ℕ → Option (List TextChunk)
  unfolding chunk_tokens decoded
  chunk_text text max_tokens overlap_tokens = elim (chunk_tokens text max_tokens overlap_tokens) [
    | none ↦ none
    | some chunks ↦ some (decoded chunks)
  ]
