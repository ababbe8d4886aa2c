-- ===== src/Ingestion/Venues/GpuModel/Occurrence.antt =====
-- core/ingestion/providers/base.py: Python's test `family in name`, as the text of a family between
-- two others.
use Prim.Native.Char.{Char, code}
use Prim.Native.String.{String, ◌++◌ as append}
use text.Mathlib.TextEquality.{Char-path}
use text.Mathlib.TextLemmas.{nil-append, cons-append}
use compute_quant_lab.Prelude.{◌≡◌, refl, sym, ap, ◌∙◌, true, inl, inr, arith, Bool-cases}
use compute_quant_lab.Ingestion.Venues.GpuModel.{begins_with, is_in}

-- The family stands somewhere in the name.
abbrev pub Contains : String → String → Type 0
Contains name family =
    (before : String) × (after : String) × (name ≡ append (append before family) after)

begins_with-append : (t rest : String) → begins_with t (append t rest) ≡ true
unfolding begins_with
begins_with-append String.[] rest = refl
begins_with-append (String.◌∷◌ c t) rest =
    rw (cons-append c t rest) (ground (arith, begins_with-append t rest))

append_of_begins_with :
    (t s : String) → begins_with t s ≡ true → (rest : String) × (append t rest ≡ s)
unfolding begins_with
append_of_begins_with String.[] s e = (s, nil-append s)
append_of_begins_with (String.◌∷◌ d t) String.[] e = absurd (ground arith)
append_of_begins_with (String.◌∷◌ d t) (String.◌∷◌ c s) e =
    let found : begins_with t s ≡ true = ground arith in
    let codes : code d ≡ code c = ground arith in
    let (rest, same) = append_of_begins_with t s found in
    (
      rest,
      cons-append d t rest
          ∙ ap (String.◌∷◌ d) same
          ∙ ap (λ x. String.◌∷◌ x s) (Char-path d c codes),
    )

is_in_of_begins_with : (t s : String) → begins_with t s ≡ true → is_in t s ≡ true
unfolding is_in
is_in_of_begins_with t String.[] e = e
is_in_of_begins_with t (String.◌∷◌ c s) e = rw e refl

is_in-cons :
    (t : String) (c : Char) (s : String) → is_in t s ≡ true → is_in t (String.◌∷◌ c s) ≡ true
unfolding is_in
is_in-cons t c s e = ground arith

pub is_in_of_Contains : (family name : String) → Contains name family → is_in family name ≡ true
is_in_of_Contains family name (before, after, same) = rw same (inside before)
  where
    inside : (before : String) → is_in family (append (append before family) after) ≡ true
    inside String.[] =
        rw (nil-append family)
          (is_in_of_begins_with family (append family after) (begins_with-append family after))
    inside (String.◌∷◌ c before) =
        rw (cons-append c before family, cons-append c (append before family) after)
          (is_in-cons family c _ (inside before))

pub is_in-Contains : (family name : String) → is_in family name ≡ true → Contains name family
unfolding is_in
is_in-Contains family String.[] e =
    let (rest, same) = append_of_begins_with family String.[] e in
    (String.[], rest, sym same ∙ ap (λ s. append s rest) (sym (nil-append family)))
is_in-Contains family (String.◌∷◌ c s) e = elim (Bool-cases (begins_with family (String.◌∷◌ c s))) [
  | inl found ↦
      let (rest, same) = append_of_begins_with family (String.◌∷◌ c s) found in
      (String.[], rest, sym same ∙ ap (λ s. append s rest) (sym (nil-append family)))
  | inr missing ↦
      let later : is_in family s ≡ true = rw missing at e in
      let (before, after, same) = is_in-Contains family s later in
      (
        String.◌∷◌ c before,
        after,
        ap (String.◌∷◌ c) same
            ∙ sym (cons-append c (append before family) after)
            ∙ ap (λ s. append s after) (sym (cons-append c before family)),
      )
]
