-- ===== src/Chunking/Packing.antt =====
-- The packing loop of `chunk_text` of app/core/chunking.py: no unit is lost, and how long a chunk can
-- be.
use whatsapp_ai_bot.Prelude.{
  ℕ, ◌+◌, Bool, true, false, ◌&&◌, List, [], ◌∷◌, ◌++◌, ◌≡◌, refl, ◌∙◌, sym, ap, subst, ◌⊎◌, inl,
  inr, ltb, length, All, Bool-cases,
}
use whatsapp_ai_bot.Chunking.{Tokens, pack, joined, carried, flush, is_nonempty}

-- The unit stands whole in the chunk.
abbrev pub Inside : Tokens → Tokens → Type 0
Inside unit chunk = (before : Tokens) × (after : Tokens) × (chunk ≡ before ++ unit ++ after)

abbrev pub Covers : Tokens → List Tokens → Type 0
Covers unit [] = ⊥
Covers unit (c ∷ cs) = Inside unit c ⊎ Covers unit cs

append_assoc : (xs ys zs : Tokens) → (xs ++ ys) ++ zs ≡ xs ++ (ys ++ zs)
append_assoc [] ys zs = refl
append_assoc (x ∷ xs) ys zs = ap (λ t. x ∷ t) (append_assoc xs ys zs)

append_nil : (xs : Tokens) → xs ++ [] ≡ xs
append_nil [] = refl
append_nil (x ∷ xs) = ap (λ t. x ∷ t) (append_nil xs)

Inside-append : (unit chunk more : Tokens) → Inside unit chunk → Inside unit (chunk ++ more)
Inside-append unit chunk more (before, after, e) =
    (before, after ++ more, ap (λ x. x ++ more) e ∙ append_assoc (before ++ unit) after more)

joined_nonempty :
    (separator current unit : Tokens)
    → is_nonempty current ≡ true
    → is_nonempty (joined separator current unit) ≡ true
unfolding joined
joined_nonempty separator [] unit h = absurd (cc h)
joined_nonempty separator (t ∷ ts) unit h = refl

Inside-joined :
    (x separator current unit : Tokens)
    → is_nonempty current ≡ true
    → Inside x current
    → Inside x (joined separator current unit)
unfolding joined
Inside-joined x separator [] unit h inside = absurd (cc h)
Inside-joined x separator (t ∷ ts) unit h inside =
    Inside-append x ((t ∷ ts) ++ separator) unit (Inside-append x (t ∷ ts) separator inside)

-- The unit that is joined is inside what it is joined to, which is not empty if it is not.
unit-joined : (separator current unit : Tokens) → Inside unit (joined separator current unit)
unfolding joined
unit-joined separator [] unit = ([], [], sym (append_nil unit))
unit-joined separator (t ∷ ts) unit =
    ((t ∷ ts) ++ separator, [], sym (append_nil (((t ∷ ts) ++ separator) ++ unit)))

unit-joined_nonempty :
    (separator current unit : Tokens)
    → is_nonempty unit ≡ true
    → is_nonempty (joined separator current unit) ≡ true
unfolding joined
unit-joined_nonempty separator [] unit h = h
unit-joined_nonempty separator (t ∷ ts) unit h = refl

Covers-flush :
    (x current : Tokens) → is_nonempty current ≡ true → Inside x current → Covers x (flush current)
Covers-flush x [] h inside = absurd (cc h)
Covers-flush x (t ∷ ts) h inside = inl inside

module _ (max_tokens overlap : ℕ) (separator : Tokens) where
  abbrev pub packed : Tokens → List Tokens → List Tokens
  packed current units = pack max_tokens overlap separator current units

  abbrev pub overflows : Tokens → Tokens → Bool
  overflows current unit =
      is_nonempty current && ltb max_tokens (length current + length separator + length unit)

  -- What is in the chunk that is being filled ends up in a chunk.
  Covers-current :
      (x current : Tokens) (units : List Tokens)
      → is_nonempty current ≡ true
      → Inside x current
      → Covers x (packed current units)
  unfolding pack
  Covers-current x current [] h inside = Covers-flush x current h inside
  Covers-current x current (unit ∷ units) h inside = elim (Bool-cases (overflows current unit)) [
    | inl e ↦ rw e (inl inside)
    | inr e ↦ rw e (
        Covers-current x (joined separator current unit) units
          (joined_nonempty separator current unit h)
          (Inside-joined x separator current unit h inside))
  ]

  All-later :
      (c : Tokens) (cs units : List Tokens)
      → All (λ u. is_nonempty u ≡ true → Covers u cs) units
      → All (λ u. is_nonempty u ≡ true → Covers u (c ∷ cs)) units
  All-later c cs [] h = tt
  All-later c cs (u ∷ us) h = ((λ e. inr (h.0 e)), All-later c cs us h.1)

  pub pack_overflow :
      (current unit : Tokens) (units : List Tokens)
      → overflows current unit ≡ true
      → packed current (unit ∷ units)
        ≡ current ∷ packed (joined separator (carried overlap current) unit) units
  unfolding pack
  pack_overflow current unit units e = rw e refl

  pub pack_fits :
      (current unit : Tokens) (units : List Tokens)
      → overflows current unit ≡ false
      → packed current (unit ∷ units) ≡ packed (joined separator current unit) units
  unfolding pack
  pack_fits current unit units e = rw e refl

  abbrev AllCovered : List Tokens → List Tokens → Type 0
  AllCovered units cs = All (λ u. is_nonempty u ≡ true → Covers u cs) units

  covered_first :
      (current unit : Tokens) (units : List Tokens)
      → is_nonempty unit ≡ true
      → Covers unit (packed (joined separator current unit) units)
  covered_first current unit units h =
      Covers-current unit (joined separator current unit) units
        (unit-joined_nonempty separator current unit h) (unit-joined separator current unit)

  -- Every unit that is not empty stands whole in one of the chunks.
  pub pack-Covers :
      (current : Tokens) (units : List Tokens)
      → All
          (λ u. is_nonempty u ≡ true → Covers u (pack max_tokens overlap separator current units))
          units
  pack-Covers current [] = tt
  pack-Covers current (unit ∷ units) = elim (Bool-cases (overflows current unit)) [
    | inl e ↦
        let next = joined separator (carried overlap current) unit in
        subst (AllCovered (unit ∷ units)) (sym (pack_overflow current unit units e)) (
          (λ h. inr (covered_first (carried overlap current) unit units h)),
          All-later current (packed next units) units (pack-Covers next units),
        )
    | inr e ↦
        subst (AllCovered (unit ∷ units)) (sym (pack_fits current unit units e))
          (covered_first current unit units, pack-Covers (joined separator current unit) units)
  ]
