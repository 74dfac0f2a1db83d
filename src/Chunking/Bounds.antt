-- ===== src/Chunking/Bounds.antt =====
-- `chunk_text` of app/core/chunking.py from the text to the chunks: it ends, and how long a chunk can
-- be.
use whatsapp_ai_bot.Prelude.{
  ℕ, zero, suc, ◌+◌, ◌-◌, ◌≤◌, String, false, List, [], ◌∷◌, ◌++◌, Option, some, ◌≡◌, refl, sym,
  subst, inl, inr, arith, leb, max, length, length-append, length-drop, All, All-append, Bool-cases,
  str_eq, leb→le,
}
use whatsapp_ai_bot.Chunking.{
  Tokens, Codec, window_size, window_step, units_of, overlap_of, carried, joined, flush, pack,
  units_of_all, chunk_tokens, chunk_text, decoded,
}
use whatsapp_ai_bot.Chunking.Windows.{windows_rejoin}
use whatsapp_ai_bot.Chunking.Packing.{overflows, pack_overflow, pack_fits}

abbrev pub Short : ℕ → List Tokens → Type 0
Short n units = All (λ u. length u ≤ n) units

length-carried : (k : ℕ) (current : Tokens) → length (carried k current) ≤ k
unfolding carried
length-carried zero current = omega arith
length-carried (suc k) current = omega (arith, length-drop (length current - suc k) current)

length-joined :
    (separator current unit : Tokens)
    → length (joined separator current unit) ≤ length current + length separator + length unit
unfolding joined
length-joined separator [] unit = omega arith
length-joined separator (t ∷ ts) unit =
    omega (arith, length-append (t ∷ ts) separator, length-append ((t ∷ ts) ++ separator) unit)

length-joined_fits :
    (max_tokens bound : ℕ) (separator current unit : Tokens)
    → overflows max_tokens 0 separator current unit ≡ false
    → max_tokens ≤ bound
    → length unit ≤ bound
    → length (joined separator current unit) ≤ bound
unfolding joined
length-joined_fits max_tokens bound separator [] unit e le u = u
length-joined_fits max_tokens bound separator (t ∷ ts) unit e le u =
    ground
      (arith, e, le, length-append (t ∷ ts) separator, length-append ((t ∷ ts) ++ separator) unit)

Short-flush : (bound : ℕ) (current : Tokens) → length current ≤ bound → Short bound (flush current)
Short-flush bound [] h = tt
Short-flush bound (t ∷ ts) h = (h, tt)

module _ (max_tokens overlap bound n : ℕ) (separator : Tokens) (full : max_tokens ≤ bound)
    (carry : overlap + length separator + n ≤ bound) where
  pack-Short :
      (current : Tokens) (units : List Tokens)
      → length current ≤ bound
      → Short n units
      → Short bound (pack max_tokens overlap separator current units)
  unfolding pack
  pack-Short current [] h s = Short-flush bound current h
  pack-Short current (unit ∷ units) h s =
      elim (Bool-cases (overflows max_tokens overlap separator current unit)) [
        | inl e ↦
            subst (Short bound)
              (sym (pack_overflow max_tokens overlap separator current unit units e))
              (
                h,
                pack-Short (joined separator (carried overlap current) unit) units
                    (omega (
                      arith,
                      carry,
                      s.0,
                      length-carried overlap current,
                      length-joined separator (carried overlap current) unit,
                    ))
                    s.1,
              )
        | inr e ↦
            subst (Short bound) (sym (pack_fits max_tokens overlap separator current unit units e))
              (pack-Short (joined separator current unit) units
                (length-joined_fits max_tokens bound separator current unit e full
                  (omega (arith, carry, s.0)))
                s.1)
      ]

-- The units of one paragraph.
Units : ℕ → Option (List Tokens) → Type 0
Units n r = (us : List Tokens) × (r ≡ some us) × Short n us

Short-weaken : (n m : ℕ) (us : List Tokens) → n ≤ m → Short n us → Short m us
Short-weaken n m [] le h = tt
Short-weaken n m (u ∷ us) le h = (omega (arith, le, h.0), Short-weaken n m us le h.1)

units_of_short :
    (max_tokens overlap sep_len : ℕ) (tokens : Tokens)
    → 1 ≤ max_tokens
    → Units max_tokens (units_of max_tokens overlap sep_len tokens)
unfolding units_of Units window_size window_step
units_of_short max_tokens overlap sep_len tokens p =
    elim (Bool-cases (leb (length tokens) max_tokens)) [
      | inl e ↦ rw e (tokens ∷ [], refl, (leb→le (length tokens) max_tokens e, tt))
      | inr e ↦
          let size = max 1 (max_tokens - overlap - sep_len) in
          let (ws, made, joins, small) =
            windows_rejoin tokens size (max 1 (size - overlap)) (omega arith) (omega arith) in
          rw e (ws, made, Short-weaken size max_tokens ws (omega (arith, p)) small)
    ]

module _ (c : Codec) (max_tokens : ℕ) (positive : 1 ≤ max_tokens) where
  units_of_all_short :
      (overlap sep_len : ℕ) (ps : List String)
      → Units max_tokens (units_of_all c max_tokens overlap sep_len ps)
  unfolding units_of_all Units
  units_of_all_short overlap sep_len [] = ([], refl, tt)
  units_of_all_short overlap sep_len (p ∷ ps) =
      let (rest, e, short) = units_of_all_short overlap sep_len ps in
      elim (Bool-cases (str_eq (c.strip p) "")) [
        | inl blank ↦ rw blank (rest, e, short)
        | inr text ↦
            let (us, made, small) =
              units_of_short max_tokens overlap sep_len (c.encode (c.strip p)) positive in
            rw (text, made, e)
              (us ++ rest, refl, All-append (λ u. length u ≤ max_tokens) us rest small short)
      ]

  abbrev Bounded : ℕ → String → List Tokens → Type 0
  Bounded overlap text chunks =
      All (λ chunk. length chunk ≤ max_tokens + overlap + length (c.encode "\n\n")) chunks

  chunk_tokens_short :
      (text : String) (overlap_tokens : ℕ)
      → (chunks : List Tokens) × (chunk_tokens c text max_tokens overlap_tokens ≡ some chunks)
        × Bounded (overlap_of max_tokens overlap_tokens) text chunks
  unfolding chunk_tokens Units
  chunk_tokens_short text overlap_tokens =
      let overlap = overlap_of max_tokens overlap_tokens in
      let separator = c.encode "\n\n" in
      elim (Bool-cases (str_eq (c.normalize text) "")) [
        | inl blank ↦ rw blank ([], refl, tt)
        | inr more ↦
            let (units, e, short) =
              units_of_all_short overlap (length separator) (c.paragraphs (c.normalize text)) in
            rw (more, e)
              (
                pack max_tokens overlap separator [] units,
                refl,
                pack-Short max_tokens overlap (max_tokens + overlap + length separator) max_tokens
                    separator (omega arith) (omega arith) [] units (omega arith) short,
              )
      ]

  decoded_tokens :
      (text : String) (overlap_tokens : ℕ) (chunks : List Tokens)
      → chunk_tokens c text max_tokens overlap_tokens ≡ some chunks
      → chunk_text c text max_tokens overlap_tokens ≡ some (decoded c chunks)
  unfolding chunk_text
  decoded_tokens text overlap_tokens chunks e = rw (e, chunk_text) refl

-- For a positive bound `chunk_text` ends; it decodes chunks of which each has at most as many tokens
-- as the bound, the overlap and the separator together.
pub chunk_text_bounded :
    (c : Codec) (text : String) (max_tokens overlap_tokens : ℕ)
    → 1 ≤ max_tokens
    → (chunks : List Tokens) × (chunk_text c text max_tokens overlap_tokens
        ≡ some (decoded c chunks))
      × All
          (λ chunk.
            length chunk
            ≤ max_tokens + overlap_of max_tokens overlap_tokens + length (c.encode "\n\n"))
          chunks
chunk_text_bounded c text max_tokens overlap_tokens positive =
    let (chunks, e, short) = chunk_tokens_short c max_tokens positive text overlap_tokens in
    (chunks, decoded_tokens c max_tokens positive text overlap_tokens chunks e, short)
