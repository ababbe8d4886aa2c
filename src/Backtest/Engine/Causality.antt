-- ===== src/Backtest/Engine/Causality.antt =====
-- core/backtest/engine.py: what a run computes up to a period depends on nothing later.
use compute_quant_lab.Prelude.{
  ℕ, zero, suc, ◌+◌, ◌-◌, ◌≡◌, ◌≤◌, ◌<◌, refl, sym, ap, ◌∙◌, inl, inr, List, [], ◌∷◌, ◌++◌,
  get_elem?, length, arith, take,
}
use mathlib.Core.Path.{fun_ext}
use native.Mathlib.Nat.{zero-add, add-zero}
use compute_quant_lab.Prelude.Int.{ℤ, pos, negsuc}
use compute_quant_lab.Prelude.Result.{
  Result, ok, err, ◌>>=◌, Result-cases, >>=-assoc, >>=_congr, >>=-eq-ok,
}
use compute_quant_lab.Backtest.Guards
use compute_quant_lab.Backtest.Guards.{PointInTimeView, GuardedView, view}
use compute_quant_lab.Backtest.Engine.{Strategy, positions_from, generate_positions}

-- Two series with the same values up to period `m` (excluded), neither of them shorter.
pub record Agree {F : Type 0} (m : ℕ) (p q : List F) : Type 0 where
  pub left : m ≤ length p
  pub right : m ≤ length q
  pub same : take m p ≡ take m q

module _ {F : Type 0} where
  take_agree : (p q : List F) (m n : ℕ) → take m p ≡ take m q → n ≤ m → take n p ≡ take n q
  take_agree p q m zero e h = refl
  take_agree p q zero (suc n) e h = absurd (omega arith)
  take_agree [] [] (suc m) (suc n) e h = refl
  take_agree [] (y ∷ q) (suc m) (suc n) e h = absurd (cc)
  take_agree (x ∷ p) [] (suc m) (suc n) e h = absurd (cc)
  take_agree (x ∷ p) (y ∷ q) (suc m) (suc n) e h = cc (take_agree p q m n (cc) (omega arith))

  pub get_elem?_agree :
      (p q : List F) (m i : ℕ) → take m p ≡ take m q → i < m → get_elem? p i ≡ get_elem? q i
  get_elem?_agree p q zero i e h = absurd (omega arith)
  get_elem?_agree [] [] (suc m) i e h = refl
  get_elem?_agree [] (y ∷ q) (suc m) i e h = absurd (cc)
  get_elem?_agree (x ∷ p) [] (suc m) i e h = absurd (cc)
  get_elem?_agree (x ∷ p) (y ∷ q) (suc m) zero e h = cc
  get_elem?_agree (x ∷ p) (y ∷ q) (suc m) (suc i) e h = get_elem?_agree p q m i (cc) (omega arith)

  take-append : (xs ys : List F) {m : ℕ} → length xs ≡ m → take m (xs ++ ys) ≡ xs
  take-append [] ys {m} h = rw (← h)
  take-append (x ∷ xs) ys {m} h = rw (← h) (ap (λ l. x ∷ l) (take-append xs ys refl))

  at_agree :
      (p q : List F) (m t : ℕ)
      → take m p ≡ take m q
      → t < m
      → (i : ℤ)
      → Guards.at (record { series = p; t = t }) i ≡ Guards.at (record { series = q; t = t }) i
  unfolding Guards.at
  at_agree p q m t e h (negsuc i) = ground arith
  at_agree p q m t e h (pos i) = ground (arith, get_elem?_agree p q m i e)

  view_agree :
      (p q : List F) (m t : ℕ)
      → take m p ≡ take m q
      → t < m
      → view (record { series = p; t = t }) ≡ view (record { series = q; t = t })
  unfolding view
  view_agree p q m t e h =
      let past = take_agree p q m (t + 1) e (omega arith) in
      let now = get_elem?_agree p q m t e h in let any = fun_ext (at_agree p q m t e h) in cc

  pub make_agree :
      (p : List F) (t : ℕ)
      → t < length p
      → Guards.make p (pos t) ≡ ok (record { series = p; t = t })
  unfolding Guards.make
  make_agree p t h = ground arith

module _ {S F : Type 0} (strategy : Strategy S F) where
  positions_from-Agree :
      (p q : List F) (m t left : ℕ) (s : S)
      → Agree m p q
      → t + left ≤ m
      → positions_from p strategy t left s ≡ positions_from q strategy t left s
  unfolding positions_from
  positions_from-Agree p q m t zero s a h = refl
  positions_from-Agree p q m t (suc left) s a h =
      let seen : PointInTimeView F = view (record { series = p; t = t }) in
      let seen' : PointInTimeView F = view (record { series = q; t = t }) in
      let lp = a.left in
      let lq = a.right in
      let same : seen ≡ seen' = view_agree p q m t a.same (omega arith) in
      rw (make_agree p t (omega arith), make_agree q t (omega arith), same)
        (elim (Result-cases (strategy s seen')) [
          | inl ((x, s'), e) ↦ rw (e, positions_from-Agree p q m (t + 1) left s' a (omega arith))
          | inr (x, e) ↦ rw e
        ])

  -- `b` more rounds from `u` on, behind those done.
  abbrev pub more_rounds : List F → ℕ → ℕ → List F × S → Result (List F × S)
  more_rounds p u b (xs, s) = do (ys, s') ← positions_from p strategy u b s; ok (xs ++ ys, s')

  abbrev prepend : F → List F × S → Result (List F × S)
  prepend x (xs, s) = ok (x ∷ xs, s)

  prepend_later :
      (p : List F) (u b : ℕ) (x : F) (m : Result (List F × S))
      → ((m >>= more_rounds p u b) >>= prepend x) ≡ ((m >>= prepend x) >>= more_rounds p u b)
  prepend_later p u b x (err e) = refl
  prepend_later p u b x (ok (xs, s)) = elim (Result-cases (positions_from p strategy u b s)) [
    | inl (r, e) ↦ rw e
    | inr (r, e) ↦ rw e
  ]

  -- The rounds may be cut in two.
  pub positions_from-add :
      (p : List F) (t a b : ℕ) (s : S)
      → positions_from p strategy t (a + b) s
        ≡ (positions_from p strategy t a s >>= more_rounds p (t + a) b)
  unfolding positions_from
  positions_from-add p t zero b s =
      rw (zero-add, add-zero)
        (elim (Result-cases (positions_from p strategy t b s)) [
          | inl (r, e) ↦ rw e
          | inr (r, e) ↦ rw e
        ])
  positions_from-add p t (suc a) b s =
      let shift : t + suc a ≡ t + 1 + a = omega arith in
      let count : suc a + b ≡ suc (a + b) = omega arith in
      rw (shift, count)
        (>>=_congr (Guards.make p (pos t)) _ _ (λ g.
            >>=_congr (strategy s (view g)) _ _ (λ r.
              rw (positions_from-add p (t + 1) a b r.1)
                (prepend_later p (t + 1 + a) b r.0 (positions_from p strategy (t + 1) a r.1)))
            ∙ sym (>>=-assoc (strategy s (view g)) _ _))
          ∙ sym (>>=-assoc (Guards.make p (pos t)) _ _))

  pub length-positions_from :
      (p : List F) (t left : ℕ) (s : S) {xs : List F} {s' : S}
      → positions_from p strategy t left s ≡ ok (xs, s')
      → length xs ≡ left
  unfolding positions_from
  length-positions_from p t zero s e = ground arith
  length-positions_from p t (suc left) s {xs} e =
      let (g, _, e₁) = >>=-eq-ok (Guards.make p (pos t)) _ e in
      let ((x, s₁), _, e₂) = >>=-eq-ok (strategy s (view g)) _ e₁ in
      let ((ys, s₂), e₃, e₄) = >>=-eq-ok (positions_from p strategy (t + 1) left s₁) _ e₂ in
      let size = length-positions_from p (t + 1) left s₁ e₃ in ground arith

  -- The first `m` positions are those of the first `m` rounds.
  positions_from-prefix :
      (p : List F) (m n : ℕ) (s : S) {xs : List F} {s' : S}
      → m ≤ n
      → positions_from p strategy 0 n s ≡ ok (xs, s')
      → (s₁ : S) × (positions_from p strategy 0 m s ≡ ok (take m xs, s₁))
  positions_from-prefix p m n s {xs} {s'} h e =
      let count : n ≡ m + (n - m) = omega arith in
      let e' : (positions_from p strategy 0 m s >>= more_rounds p (0 + m) (n - m)) ≡ ok (xs, s') =
        sym (positions_from-add p 0 m (n - m) s) ∙ rw (← count) e in
      let ((us, s₁), e₁, e₂) = >>=-eq-ok (positions_from p strategy 0 m s) _ e' in
      let ((bs, s₂), e₃, e₄) = >>=-eq-ok (positions_from p strategy (0 + m) (n - m) s₁) _ e₂ in
      let size : length us ≡ m = length-positions_from p 0 m s e₁ in
      let whole : xs ≡ us ++ bs = cc in (s₁, cc (take-append us bs size))

  -- Two runs over series that agree up to `m` take the same positions up to `m`.
  pub generate_positions-Agree :
      (p q : List F) (m : ℕ) (s : S) {xs ys : List F} {s₁ s₂ : S}
      → Agree m p q
      → generate_positions p strategy s ≡ ok (xs, s₁)
      → generate_positions q strategy s ≡ ok (ys, s₂)
      → take m xs ≡ take m ys
  unfolding generate_positions
  generate_positions-Agree p q m s a e e' =
      let (_, f) = positions_from-prefix p m (length p) s a.left e in
      let (_, f') = positions_from-prefix q m (length q) s a.right e' in
      let same = positions_from-Agree p q m 0 m s a (omega arith) in cc
