-- ===== src/Ingestion/ComputeIndex/Grouping.antt =====
-- core/ingestion/compute_index.py, `build_spot_index`: the snapshots of each source.
use Prim.Native.String.{String}
use text.Mathlib.Text.{◌==◌ as str_eq}
use text.Mathlib.TextEquality.{eq_iff}
use text.Mathlib.TextPositions.{eq_refl}
use mathlib.Core.List.{append-nil, append_assoc}
use mathlib.Core.Bool.{false≢true}
use compute_quant_lab.Prelude.{
  ◌≡◌, ◌<◌, refl, sym, ◌∙◌, Bool, true, false, List, [], ◌∷◌, ◌++◌, arith, inl, inr, length, keep,
  map, keep-append, All, All-imp, All-append, Bool-cases, length-append,
}
use compute_quant_lab.Ingestion.Protocols.{Snapshot}
use compute_quant_lab.Ingestion.ComputeIndex.{mem, add_offer, group_offers}

-- No name stands twice.
abbrev pub IsDistinct : List String → Type 0
IsDistinct [] = Unit
IsDistinct (x ∷ xs) = (mem x xs ≡ false) × IsDistinct xs

str_ne_sym : (x y : String) → str_eq x y ≡ false → str_eq y x ≡ false
str_ne_sym x y h = ground (arith, eq_iff x y, eq_iff y x)

module _ {F : Type 0} where
  abbrev pub keys : List (String × List (Snapshot F)) → List String
  keys = map (λ g. g.0)

  abbrev pub from : String → Snapshot F → Bool
  from source s = str_eq s.source source

  -- A group holds all snapshots of its source, in order, and is not empty.
  abbrev pub IsGroup : List (Snapshot F) → String × List (Snapshot F) → Type 0
  IsGroup done (source, offers) = (offers ≡ keep (from source) done) × (0 < length offers)

  pub record IsGrouping (done : List (Snapshot F)) (groups : List (String × List (Snapshot F)))
      : Type 0 where
    pub distinct : IsDistinct (keys groups)
    pub exact : All (IsGroup done) groups
    pub covered : All (λ s. mem s.source (keys groups) ≡ true) done

  mem_other :
      (x : String) (s : Snapshot F) (groups : List (String × List (Snapshot F)))
      → str_eq x s.source ≡ false
      → mem x (keys (add_offer s groups)) ≡ mem x (keys groups)
  unfolding add_offer
  mem_other x s [] h = ground arith
  mem_other x s ((source, offers) ∷ rest) h = ground (arith, mem_other x s rest h)

  mem-add_offer :
      (x : String) (s : Snapshot F) (groups : List (String × List (Snapshot F)))
      → mem x (keys groups) ≡ true
      → mem x (keys (add_offer s groups)) ≡ true
  unfolding add_offer
  mem-add_offer x s [] h = absurd (cc)
  mem-add_offer x s ((source, offers) ∷ rest) h = ground (arith, mem-add_offer x s rest)

  mem-add_offer_self :
      (s : Snapshot F) (groups : List (String × List (Snapshot F)))
      → mem s.source (keys (add_offer s groups)) ≡ true
  unfolding add_offer
  mem-add_offer_self s [] = ground (arith, eq_refl s.source)
  mem-add_offer_self s ((source, offers) ∷ rest) = ground (arith, mem-add_offer_self s rest)

  add_offer-IsDistinct :
      (s : Snapshot F) (groups : List (String × List (Snapshot F)))
      → IsDistinct (keys groups)
      → IsDistinct (keys (add_offer s groups))
  unfolding add_offer
  add_offer-IsDistinct s [] h = (refl, tt)
  add_offer-IsDistinct s ((source, offers) ∷ rest) (new, h) =
      elim (Bool-cases (str_eq s.source source)) [
        | inl e ↦ rw e (new, h)
        | inr e ↦ rw e (
          mem_other source s rest (str_ne_sym s.source source e) ∙ new,
          add_offer-IsDistinct s rest h,
        )
      ]

  -- The groups of other sources are not touched by `s`.
  other_groups :
      (done : List (Snapshot F)) (s : Snapshot F) (groups : List (String × List (Snapshot F)))
      → mem s.source (keys groups) ≡ false
      → All (IsGroup done) groups
      → All (IsGroup (done ++ (s ∷ []))) groups
  other_groups done s [] h g = tt
  other_groups done s ((source, offers) ∷ rest) h ((same, some_), gs) =
      let e : str_eq s.source source ≡ false = ground arith in
      let h' : mem s.source (keys rest) ≡ false = ground arith in
      ((same ∙ sym (rw keep-append (rw e (append-nil _))), some_), other_groups done s rest h' gs)

  add_offer-IsGroup :
      (done : List (Snapshot F)) (s : Snapshot F) (groups : List (String × List (Snapshot F)))
      → IsDistinct (keys groups)
      → (mem s.source (keys groups) ≡ false → keep (from s.source) done ≡ [])
      → All (IsGroup done) groups
      → All (IsGroup (done ++ (s ∷ []))) (add_offer s groups)
  unfolding add_offer
  add_offer-IsGroup done s [] d fresh g =
      ((sym (rw keep-append (rw (fresh refl, eq_refl s.source))), omega arith), tt)
  add_offer-IsGroup done s ((source, offers) ∷ rest) (new, d) fresh ((same, some_), gs) =
      elim (Bool-cases (str_eq s.source source)) [
        | inl e ↦
            let name : s.source ≡ source = (eq_iff s.source source).0 e in
            rw e (
              (sym (rw keep-append (rw (e, ← same))), omega (arith, length-append offers (s ∷ []))),
              other_groups done s rest (rw name new) gs,
            )
        | inr e ↦ rw e (
          (same ∙ sym (rw keep-append (rw e (append-nil _))), some_),
          add_offer-IsGroup done s rest d (λ h. fresh (rw e h)) gs,
        )
      ]

  fresh_of_covered :
      (x : String) (done : List (Snapshot F)) (groups : List (String × List (Snapshot F)))
      → All (λ s. mem s.source (keys groups) ≡ true) done
      → mem x (keys groups) ≡ false
      → keep (from x) done ≡ []
  fresh_of_covered x [] groups c h = refl
  fresh_of_covered x (s ∷ done) groups (c, cs) h = elim (Bool-cases (str_eq s.source x)) [
    | inl e ↦ let name : s.source ≡ x = (eq_iff s.source x).0 e in absurd (clash name)
    | inr e ↦ rw e (fresh_of_covered x done groups cs h)
  ]
    where
      clash : s.source ≡ x → ⊥
      clash name = false≢true (sym h ∙ rw name at c)

  add_offer-IsGrouping :
      (done : List (Snapshot F)) (s : Snapshot F) (groups : List (String × List (Snapshot F)))
      → IsGrouping done groups
      → IsGrouping (done ++ (s ∷ [])) (add_offer s groups)
  add_offer-IsGrouping done s groups g = record {
    distinct = add_offer-IsDistinct s groups g.distinct;
    exact =
        add_offer-IsGroup done s groups g.distinct (fresh_of_covered s.source done groups g.covered)
          g.exact;
    covered =
        All-append _ done (s ∷ [])
          (All-imp _ _ (λ o. mem-add_offer o.source s groups) done g.covered)
          (mem-add_offer_self s groups, tt);
  }

  group_offers-IsGrouping :
      (groups : List (String × List (Snapshot F))) (done rest : List (Snapshot F))
      → IsGrouping done groups
      → IsGrouping (done ++ rest) (group_offers groups rest)
  unfolding group_offers
  group_offers-IsGrouping groups done [] g = rw (append-nil done) g
  group_offers-IsGrouping groups done (s ∷ rest) g = rw (append_assoc done (s ∷ []) rest) at (
      group_offers-IsGrouping (add_offer s groups) (done ++ (s ∷ [])) rest
        (add_offer-IsGrouping done s groups g))

  -- The dictionary that the loop builds: every source among the snapshots has one group, which
  -- holds all of its snapshots in order.
  pub group_offers_lem :
      (snapshots : List (Snapshot F)) → IsGrouping snapshots (group_offers [] snapshots)
  group_offers_lem snapshots =
      group_offers-IsGrouping [] [] snapshots (record { distinct = tt; exact = tt; covered = tt })
