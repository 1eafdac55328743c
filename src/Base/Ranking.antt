-- ===== src/Base/Ranking.antt =====
-- `ORDER BY … LIMIT 1` on a list of rows.
use mathlib.Core.Path.{◌≡◌, subst}
use mathlib.Core.Logic.{inl, inr}
use mathlib.Core.Bool.{Bool, true, false}
use mathlib.Core.List.{List, [], ◌∷◌}
use mathlib.Core.Option.{Option, none, some}
use native.Mathlib.Omega.{arith}
use spectraplex.Base.Tests.{if◌then◌else◌, Bool-cases, Option-cases}
use spectraplex.Base.Lists.{In, head, tail}

-- `ORDER BY … LIMIT 1`, where `before a b` says that `a` comes strictly before `b`. Of rows that
-- tie, which SQL leaves open, it is the last in table order.
module _ {ℓ} {A : Type ℓ} (before : A → A → Bool) where
  unfoldable pub first_by : List A → Option A
  first_by [] = none
  first_by (x ∷ xs) = elim (first_by xs) [
    | none ↦ some x
    | some best ↦ some (if before x best then x else best)
  ]

  pub first_by-In : (xs : List A) {b : A} → first_by xs ≡ some b → In b xs
  unfolding first_by
  first_by-In [] h = cc
  first_by-In (x ∷ xs) {b} h = elim (Option-cases (first_by xs)) [
    | inl e ↦ let q : x ≡ b = ground (arith, e) in subst (λ y. In y (x ∷ xs)) q head
    | inr (c, e) ↦ elim (Bool-cases (before x c)) [
      | inl t ↦ let q : x ≡ b = ground (arith, e, t) in subst (λ y. In y (x ∷ xs)) q head
      | inr f ↦
          let q : c ≡ b = ground (arith, e, f) in
          subst (λ y. In y (x ∷ xs)) q (tail (first_by-In xs e))
    ]
  ]

  pub first_by-ne-none : (xs : List A) {r : A} → In r xs → first_by xs ≡ none → ⊥
  unfolding first_by
  first_by-ne-none [] m e = elim m [ ]
  first_by-ne-none (x ∷ xs) m e = elim (Option-cases (first_by xs)) [
    | inl k ↦ ground (arith, k)
    | inr (b, k) ↦ ground (arith, k)
  ]

  -- No row comes strictly before the first row.
  pub first_by-least :
      ((a : A) → before a a ≡ false)
      → ((a b c : A) → before a b ≡ true → before b c ≡ true → before a c ≡ true)
      → (xs : List A) {b r : A} → In r xs
      → first_by xs ≡ some b
      → before r b ≡ false
  unfolding first_by
  first_by-least irrefl trans [] m h = elim m [ ]
  first_by-least irrefl trans (x ∷ xs) {b} head h = elim (Option-cases (first_by xs)) [
    | inl k ↦ let q : x ≡ b = ground (arith, k) in subst (λ y. before x y ≡ false) q (irrefl x)
    | inr (c, k) ↦ elim (Bool-cases (before x c)) [
      | inl t ↦ let q : x ≡ b = ground (arith, k, t) in subst (λ y. before x y ≡ false) q (irrefl x)
      | inr f ↦ let q : c ≡ b = ground (arith, k, f) in subst (λ y. before x y ≡ false) q f
    ]
  ]
  first_by-least irrefl trans (x ∷ xs) {b} {r} (tail m) h = elim (Option-cases (first_by xs)) [
    | inl k ↦ absurd (first_by-ne-none xs m k)
    | inr (c, k) ↦
        let ih = first_by-least irrefl trans xs m k in
        elim (Bool-cases (before x c)) [
          | inl t ↦
              let q : x ≡ b = ground (arith, k, t) in
              subst (λ y. before r y ≡ false) q (ground (arith, trans r x c, ih, t))
          | inr f ↦ let q : c ≡ b = ground (arith, k, f) in subst (λ y. before r y ≡ false) q ih
        ]
  ]
