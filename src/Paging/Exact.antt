-- ===== src/Paging/Exact.antt =====
-- What the paging returns of a provider that answers as the RPC documents: the newest rows before the
-- cursor, up to the requested number.
use spectraplex.Base.{
  ℕ, zero, suc, ◌+◌, ◌-◌, ◌≤◌, ◌<◌, Bool, true, ◌&&◌, ◌≡◌, refl, sym, ◌∙◌, ap, subst, inl, inr,
  Option, none, some, List, [], ◌∷◌, ◌++◌, ltb, ◌==◌, last?, length, length-append, append_assoc,
  append_nil, In-append_left, not, take, drop, take-drop, length-take, take_short, take-append,
  is_empty, Result, err, ok, Bool-cases, arith, In, head, tail, if◌then◌else◌,
}
use spectraplex.Paging.{
  PagingError, Page, advance, is_cursor, page_limit, at_limit, paging_loop, signatures,
}

module _ {A : Type 0} where
  last?-some : (xs : List A) → 1 ≤ length xs → (x : A) × (last? xs ≡ some x) × In x xs
  last?-some [] h = absurd (omega arith)
  last?-some (x ∷ []) h = (x, refl, head)
  last?-some (x ∷ y ∷ xs) h = let (z, e, m) = last?-some (y ∷ xs) (omega arith) in (z, e, tail m)

  last?_empty : (xs : List A) → length xs ≡ 0 → last? xs ≡ none
  last?_empty [] h = refl
  last?_empty (x ∷ xs) h = absurd (omega (arith, h))

  is_empty-take : (xs : List A) → is_empty (take 1 xs) ≡ not (ltb 0 (length xs))
  is_empty-take [] = refl
  is_empty-take (x ∷ xs) = ground arith

  no_shift : (xs ys : List A) → ys ≡ xs ++ ys → 1 ≤ length xs → ⊥
  no_shift xs ys e h = omega (arith, ap length e, length-append xs ys)

module _ {R S : Type 0} (signature_of : R → Option S) (same : S → S → Bool)
    (fetch : Option S → ℕ → Result PagingError (List R)) (limit : ℕ) (reject_overflow : Bool)
    (rows_before : Option S → List R) (same_sound : (a b : S) → same a b ≡ true → a ≡ b)
    (answers : (before : Option S) (n : ℕ) → fetch before n ≡ ok (take n (rows_before before)))
    (parses : (before : Option S) (r : R)
      → In r (rows_before before)
      → (s : S) × (signature_of r ≡ some s))
    (resumes : (before : Option S) (page rest : List R) (r : R) (s : S)
      → rows_before before ≡ page ++ rest
      → last? page ≡ some r
      → signature_of r ≡ some s
      → rows_before (some s) ≡ rest) where
  -- The newest `limit` rows, or an error where more are rejected.
  abbrev pub expected : List R → Page R
  expected rows =
      if reject_overflow && ltb limit (length rows)
      then err PagingError.more_activity
      else ok (take limit rows, ltb (length rows) limit)

  repeated :
      (before : Option S) (s : S) (page rest : List R)
      → rows_before before ≡ page ++ rest
      → rows_before (some s) ≡ rest
      → 1 ≤ length page
      → is_cursor signature_of same fetch limit reject_overflow before s ≡ true
      → ⊥
  repeated none s page rest e a h t = cc
  repeated (some b) s page rest e a h t =
      no_shift page rest (sym a ∙ ap (λ c. rows_before (some c)) (sym (same_sound b s t)) ∙ e) h

  advance_lem :
      (before : Option S) (page rest : List R)
      → rows_before before ≡ page ++ rest
      → 1 ≤ length page
      → (s : S) × (advance signature_of same fetch limit reject_overflow before (last? page)
          ≡ ok (some s))
        × (rows_before (some s) ≡ rest)
  advance_lem before page rest e h =
      let (r, l, m) = last?-some page h in
      let (s, p) = parses before r (subst (In r) (sym e) (In-append_left rest m)) in
      let after = resumes before page rest r s e l p in
      elim (Bool-cases (is_cursor signature_of same fetch limit reject_overflow before s)) [
        | inr f ↦ (s, ground (arith, l, p, f), after)
        | inl t ↦ absurd (repeated before s page rest e after h t)
      ]

  -- A short page ends the paging.
  short_lem :
      (before : Option S) (page : List R)
      → rows_before before ≡ page
      → (next : Option S) × (advance signature_of same fetch limit reject_overflow before
            (last? page)
          ≡ ok next)
  short_lem before page e = elim (Bool-cases (ltb 0 (length page))) [
    | inl t ↦
        let (s, a, b) =
          advance_lem before page [] (e ∙ sym (append_nil page)) (ground (arith, t)) in
        (some s, a)
    | inr f ↦ let n = last?_empty page (ground (arith, f)) in (before, rw n refl)
  ]

  at_limit_lem :
      (s : S) (result page rest : List R)
      → rows_before (some s) ≡ rest
      → length (result ++ page) ≡ limit
      → at_limit signature_of same fetch limit reject_overflow (some s) (result ++ page)
        ≡ expected (result ++ (page ++ rest))
  at_limit_lem s result page rest e h =
      let all : result ++ (page ++ rest) ≡ (result ++ page) ++ rest =
        sym (append_assoc result page rest) in
      let size = length-append (result ++ page) rest in
      let kept : take limit ((result ++ page) ++ rest) ≡ result ++ page =
        take-append limit (result ++ page) rest (omega (arith, h)) ∙ tail_none in
      rw all (ground (arith, answers (some s) 1, ap (take 1) e, is_empty-take rest, kept, size, h))
    where
      tail_none : (result ++ page) ++ take (limit - length (result ++ page)) rest ≡ result ++ page
      tail_none =
          let z : limit - length (result ++ page) ≡ 0 = omega (arith, h) in
          rw z (append_nil (result ++ page))

  loop_lem :
      (fuel : ℕ) (before : Option S) (result : List R)
      → length result < limit
      → limit < fuel + length result
      → paging_loop signature_of same fetch limit reject_overflow fuel before result
        ≡ some (expected (result ++ rows_before before))
  unfolding paging_loop
  loop_lem zero before result h k = absurd (omega arith)
  loop_lem (suc fuel) before result h k =
      let rows = rows_before before in
      let page = take most rows in
      let rest = drop most rows in
      let split = take-drop most rows in
      let size = length-take most rows in
      let q = answers before most in
      let whole = length-append result rows in
      elim (Bool-cases (ltb (length rows) most)) [
        | inl t ↦
            let same_rows : page ≡ rows = take_short most rows (ground (arith, t)) in
            let (next, a) = short_lem before page (sym same_rows) in
            let kept : take limit (result ++ rows) ≡ result ++ rows =
              take_short limit (result ++ rows) (ground (arith, t, whole)) in
            let step : paging_loop signature_of same fetch limit reject_overflow (suc fuel) before
                  result
                ≡ some (ok (result ++ page, true)) =
              ground (arith, q, size, t, a) in
            step ∙ ground (arith, same_rows, kept, whole, t)
        | inr f ↦
            let (s, a, b) = advance_lem before page rest split (ground (arith, size, f)) in
            let sum = length-append result page in
            elim (Bool-cases (length (result ++ page) == limit)) [
              | inl v ↦
                  let step : paging_loop signature_of same fetch limit reject_overflow (suc fuel)
                        before result
                      ≡ some (
                          at_limit signature_of same fetch limit reject_overflow (some s)
                            (result ++ page)) =
                    ground (arith, q, size, f, a, v) in
                  step
                  ∙ ap some (
                      at_limit_lem s result page rest b (ground (arith, v))
                      ∙ ap (λ r. expected (result ++ r)) (sym split))
              | inr v ↦
                  let ih =
                    loop_lem fuel (some s) (result ++ page) (ground (arith, sum, size, v))
                      (ground (arith, sum, size, f)) in
                  let step : paging_loop signature_of same fetch limit reject_overflow (suc fuel)
                        before result
                      ≡ paging_loop signature_of same fetch limit reject_overflow fuel (some s)
                          (result ++ page) =
                    ground (arith, q, size, f, a, v) in
                  step
                  ∙ ih
                  ∙ ap (λ r. some (expected r))
                      (ap (λ r. (result ++ page) ++ r) b
                        ∙ append_assoc result page rest
                        ∙ ap (λ r. result ++ r) (sym split))
            ]
      ]
    where
      most : ℕ
      most = page_limit signature_of same fetch limit reject_overflow result

  -- If the provider answers every request with the newest rows before its cursor, as many as are asked
  -- for, the signatures of all of them are parsed, the rows before the signature of a row are those
  -- that follow it, and the limit is from 1 to 100000 and below the fuel, then the paging returns the
  -- newest rows before the cursor up to the limit, and reports the history as exhausted exactly if
  -- there are fewer than the limit; if more than the limit are to be rejected, more give an error.
  pub signatures_exact :
      (fuel : ℕ) (before : Option S)
      → 1 ≤ limit
      → limit ≤ 100000
      → limit < fuel
      → signatures signature_of same fetch limit reject_overflow fuel before
        ≡ some (expected (rows_before before))
  unfolding signatures
  signatures_exact fuel before h k l = ground (arith, loop_lem fuel before [])
