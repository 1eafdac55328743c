-- ===== src/Gold/Hex.antt =====
-- The values of hexadecimal texts, as hex_to_bigdecimal reads them.
use spectraplex.Base.{
  ℕ, zero, suc, ◌+◌, ◌*◌, ◌^◌, ◌<◌, ◌≤◌, ◌-◌, true, false, ◌≡◌, refl, sym, ap, subst, ◌∙◌, inl, inr,
  Bool-cases, Option-cases, Option, none, some, List, [], ◌∷◌, leb, length, arith,
}
use spectraplex.Gold.{Outside}
use spectraplex.Gold.Flows.{to_digit, strip_0x, hex_digits, hex_to_bigdecimal}

-- The numbers of BigDecimal continue the natural numbers.
pub record ReadsDigits (o : Outside) : Type 0 where
  pub zero_from : o.zero ≡ o.from_nat 0
  pub digit_step :
      (n d : ℕ)
      → o.plus (o.times (o.from_nat n) (o.from_nat 16)) (o.from_nat d) ≡ o.from_nat (n * 16 + d)

-- A digit counts by its place from the right.
abbrev pub place_value : ℕ → ℕ
place_value zero = 1
place_value (suc k) = 16 * place_value k

-- The value of a text of hexadecimal digits, and that a character is none of them.
abbrev pub hex_value : List ℕ → Option ℕ
hex_value [] = some 0
hex_value (c ∷ s) = elim (to_digit c) [
  | none ↦ none
  | some d ↦ elim (hex_value s) [ none ↦ none | some v ↦ some (d * place_value (length s) + v) ]
]

to_digit-lt : (c d : ℕ) → to_digit c ≡ some d → d < 16
to_digit-lt c d h = ground arith

place_value_pos : (k : ℕ) → 1 ≤ place_value k
place_value_pos zero = omega arith
place_value_pos (suc k) = omega (arith, place_value_pos k)

place_value_mono : (k m : ℕ) → place_value k ≤ place_value (m + k)
place_value_mono k zero = let e : 0 + k ≡ k = omega arith in rw e (omega arith)
place_value_mono k (suc m) =
    let e : suc m + k ≡ suc (m + k) = omega arith in rw e (omega (arith, place_value_mono k m))

digit_bound : (d v p : ℕ) → d < 16 → v < p → d * p + v < 16 * p
digit_bound d v p h k = grind arith

hex_value-lt : (s : List ℕ) (v : ℕ) → hex_value s ≡ some v → v < place_value (length s)
hex_value-lt [] v h = ground arith
hex_value-lt (c ∷ s) v h = elim (Option-cases (to_digit c)) [
  | inl e ↦ absurd (ground (arith, e, h))
  | inr (d, e) ↦ elim (Option-cases (hex_value s)) [
    | inl f ↦ absurd (ground (arith, e, f, h))
    | inr (w, f) ↦
        let q : d * place_value (length s) + w ≡ v = ground (arith, e, f, h) in
        subst (λ x. x < 16 * place_value (length s)) q
          (digit_bound d w (place_value (length s)) (to_digit-lt c d e) (hex_value-lt s w f))
  ]
]

module _ (o : Outside) (reads : ReadsDigits o) where
  open reads use {zero_from, digit_step}

  read_step :
      (c d n : ℕ) (s : List ℕ)
      → to_digit c ≡ some d
      → hex_digits o (c ∷ s) (o.from_nat n) ≡ hex_digits o s (o.from_nat (n * 16 + d))
  unfolding hex_digits
  read_step c d n s e = rw (e, hex_digits) (ap (hex_digits o s) (digit_step n d))

  refuse_step :
      (c n : ℕ) (s : List ℕ) → to_digit c ≡ none → hex_digits o (c ∷ s) (o.from_nat n) ≡ none
  unfolding hex_digits
  refuse_step c n s e = rw (e, hex_digits) refl

  regroup : (n d v p : ℕ) → (n * 16 + d) * p + v ≡ n * (16 * p) + (d * p + v)
  regroup n d v p = grind arith

  digits_read :
      (s : List ℕ) (n v : ℕ)
      → hex_value s ≡ some v
      → hex_digits o s (o.from_nat n) ≡ some (o.from_nat (n * place_value (length s) + v))
  unfolding hex_digits
  digits_read [] n v h =
      let e : n * 1 + v ≡ n = ground arith in ap (λ x. some (o.from_nat x)) (sym e)
  digits_read (c ∷ s) n v h = elim (Option-cases (to_digit c)) [
    | inl e ↦ absurd (ground (arith, e, h))
    | inr (d, e) ↦ elim (Option-cases (hex_value s)) [
      | inl f ↦ absurd (ground (arith, e, f, h))
      | inr (w, f) ↦
          let q : d * place_value (length s) + w ≡ v = ground (arith, e, f, h) in
          read_step c d n s e
          ∙ digits_read s (n * 16 + d) w f
          ∙ ap (λ x. some (o.from_nat x))
              (regroup n d w (place_value (length s))
                ∙ ap (λ x. n * (16 * place_value (length s)) + x) q)
    ]
  ]

  digits_refused : (s : List ℕ) (n : ℕ) → hex_value s ≡ none → hex_digits o s (o.from_nat n) ≡ none
  digits_refused [] n h = absurd (ground arith)
  digits_refused (c ∷ s) n h = elim (Option-cases (to_digit c)) [
    | inl e ↦ refuse_step c n s e
    | inr (d, e) ↦ elim (Option-cases (hex_value s)) [
      | inl f ↦ read_step c d n s e ∙ digits_refused s (n * 16 + d) f
      | inr (w, f) ↦ absurd (ground (arith, e, f, h))
    ]
  ]

  -- A text of at most 64 hexadecimal digits, with or without `0x` in front, is read as its value, which
  -- is below 2 to the 256; a longer text, and one with another character, is refused.
  pub hex_to_bigdecimal-bounded :
      (hex : List ℕ)
      → ((v : ℕ)
          → length (strip_0x hex) ≤ 64
          → hex_value (strip_0x hex) ≡ some v
          → (hex_to_bigdecimal o hex ≡ some (o.from_nat v)) × (v < 2 ^ 256))
        × (64 < length (strip_0x hex) → hex_to_bigdecimal o hex ≡ none)
        × (hex_value (strip_0x hex) ≡ none → hex_to_bigdecimal o hex ≡ none)
  unfolding hex_to_bigdecimal
  hex_to_bigdecimal-bounded hex =
      let s = strip_0x hex in
      (
        λ v l h.
            let t : leb (length (strip_0x hex)) 64 ≡ true = ground arith in
            let b = hex_value-lt s v h in
            let m = place_value_mono (length s) (64 - length s) in
            let k : 64 - length (strip_0x hex) + length (strip_0x hex) ≡ 64 = omega arith in
            let whole : place_value 64 ≡ 2 ^ 256 = refl in
            (
              rw t (
                  ap (hex_digits o s) zero_from
                  ∙ digits_read s 0 v h
                  ∙ ap (λ x. some (o.from_nat x)) (omega arith)),
              omega (arith, b, m, ap place_value k, whole),
            ),
        λ l. let t : leb (length (strip_0x hex)) 64 ≡ false = ground arith in rw t refl,
        λ h. elim (Bool-cases (leb (length s) 64)) [
          | inl t ↦ rw t (ap (hex_digits o s) zero_from ∙ digits_refused s 0 h)
          | inr t ↦ rw t refl
        ],
      )
