-- ===== src/Features/PointInTime.antt =====
-- core/features/builders.py, `PointInTimeFeatureBuilder`: what a panel depends on.
use Prim.Native.String.{String}
use compute_quant_lab.Prelude.{
  ℕ, ◌≡◌, ◌≤◌, refl, ap, sym, ◌∙◌, List, [], ◌∷◌, All, Option, some, zero, suc, get_elem?, keep,
  keep-keep, leb, arith,
}
use compute_quant_lab.Prelude.Float.{Float}
use compute_quant_lab.Prelude.Result.{Result, ok, >>=-eq-ok, traverse}
use compute_quant_lab.Features.{
  Vintage, Frames, known, latest_known, as_of_snapshot, FeatureSpec, feature, feature_plan,
  build_asof, build_panel, Planned,
}

traverse_agree :
    {A B : Type 0} (f g : A → Result B)
    → (xs : List A) → All (λ x. f x ≡ g x) xs
    → traverse f xs ≡ traverse g xs
traverse_agree f g [] h = refl
traverse_agree f g (x ∷ xs) h = rw (h.0, traverse_agree f g xs h.1) refl

-- Each result of `traverse` stands where its argument does.
get_elem?-traverse :
    {A B : Type 0} (f : A → Result B) (xs : List A) {ys : List B} (i : ℕ) {x : A}
    → traverse f xs ≡ ok ys
    → get_elem? xs i ≡ some x
    → (y : B) × (f x ≡ ok y) × (get_elem? ys i ≡ some y)
get_elem?-traverse f [] i e at = absurd (cc)
get_elem?-traverse f (x ∷ xs) zero e at =
    let (y, made, e₁) = >>=-eq-ok (f x) _ e in
    let (rest, _, e₂) = >>=-eq-ok (traverse f xs) _ e₁ in (y, ground arith, ground arith)
get_elem?-traverse f (x ∷ xs) (suc i) e at =
    let (y, _, e₁) = >>=-eq-ok (f x) _ e in
    let (rest, made, e₂) = >>=-eq-ok (traverse f xs) _ e₁ in
    let (z, at_z, found) = get_elem?-traverse f xs i made at in (z, at_z, ground arith)

All-always : {A : Type 0} {P : A → Type 0} → ((x : A) → P x) → (xs : List A) → All P xs
All-always h [] = tt
All-always h (x ∷ xs) = (h x, All-always h xs)

module _ {F : Type 0} where
  -- What is known at `asof` is known at every later instant.
  known_earlier :
      (vintages : List (Vintage F)) (asof now : ℕ)
      → asof ≤ now
      → known (known vintages now) asof ≡ known vintages asof
  unfolding known
  known_earlier vintages asof now h =
      keep-keep (λ row. leb row.knowledge_ts now) (λ row. leb row.knowledge_ts asof)
        (λ row e. ground arith) vintages

  as_of_snapshot_agree :
      (frames : Frames F) (v w : List (Vintage F)) (asof now : ℕ)
      → asof ≤ now
      → known v now ≡ known w now
      → as_of_snapshot frames v asof ≡ as_of_snapshot frames w asof
  unfolding as_of_snapshot
  as_of_snapshot_agree frames v w asof now h same =
      let agree : known v asof ≡ known w asof =
        sym (known_earlier v asof now h)
        ∙ ap (λ k. known k asof) same
        ∙ known_earlier w asof now h in
      ap (latest_known frames) agree

module _ {F : Type 0} ⦃float : Float F⦄ (frames : Frames F) where
  feature_agree :
      (s s' : String → List (Vintage F)) (planned : Planned)
      → ((name : String) → s name ≡ s' name)
      → feature frames s planned ≡ feature frames s' planned
  unfolding feature
  feature_agree s s' planned h =
      ap (λ snapshot. feature frames (λ name. snapshot) planned) (h planned.variable)

  build_asof_agree :
      (source other : String → List (Vintage F)) (specs : List (String × FeatureSpec))
      (asof now : ℕ)
      → asof ≤ now
      → ((name : String) → known (source name) now ≡ known (other name) now)
      → build_asof frames source specs asof ≡ build_asof frames other specs asof
  unfolding build_asof
  build_asof_agree source other specs asof now h same = traverse_agree _ _ (feature_plan specs) (
      All-always
        (λ planned.
          feature_agree _ _ planned
            (λ name. as_of_snapshot_agree frames (source name) (other name) asof now h (same name)))
        (feature_plan specs))

  -- A row of a panel depends only on what is published by its own decision instant: where another
  -- source holds the same rows with a publication time up to the i-th instant, its features as of that
  -- instant, and its panel of that instant alone, are the i-th row. The other rows of the source and
  -- the other instants, earlier and later, have no effect.
  pub build_panel-causal :
      (source other : String → List (Vintage F)) (specs : List (String × FeatureSpec))
      (decision_index : List ℕ) {rows : List (List (Option F))} (i : ℕ) {asof : ℕ}
      → build_panel frames source specs decision_index ≡ ok rows
      → get_elem? decision_index i ≡ some asof
      → ((name : String)
          → keep (λ v. leb v.knowledge_ts asof) (source name)
            ≡ keep (λ v. leb v.knowledge_ts asof) (other name))
      → (row : List (Option F)) × (get_elem? rows i ≡ some row)
        × (build_asof frames other specs asof ≡ ok row)
        × (build_panel frames other specs (asof ∷ []) ≡ ok (row ∷ []))
  unfolding build_panel known
  build_panel-causal source other specs decision_index i {asof} e at same =
      let (row, made, found) =
        get_elem?-traverse (build_asof frames source specs) decision_index i e at in
      let agree = build_asof_agree source other specs asof asof (omega arith) same in
      let again : build_asof frames other specs asof ≡ ok row = sym agree ∙ made in
      (row, found, again, rw again refl)
