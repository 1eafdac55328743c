-- ===== src/Paging/Total.antt =====
-- That the paging ends, whatever the provider answers.
use spectraplex.Base.{
  ℕ, zero, suc, ◌+◌, ◌≤◌, ◌<◌, Bool, true, false, ◌&&◌, ◌≡◌, inl, inr, Option, some, List, [], ◌++◌,
  leb, ltb, ◌==◌, last?, length, length-append, is_empty, subst, Result, err, ok, Result-cases,
  Bool-cases, arith,
}
use spectraplex.Paging.{PagingError, Page, advance, page_limit, at_limit, paging_loop, signatures}

module _ {R S : Type 0} (signature_of : R → Option S) (same : S → S → Bool)
    (fetch : Option S → ℕ → Result PagingError (List R)) (limit : ℕ) (reject_overflow : Bool) where
  -- A result, and of a page that it is within the limit and, unless the history is exhausted, at it.
  abbrev pub IsBounded : Page R → Type 0
  IsBounded (err e) = Unit
  IsBounded (ok (rows, exhausted)) =
      (length rows ≤ limit) × (exhausted ≡ false → length rows ≡ limit)

  transport_bounds : {r r' : Page R} → r ≡ r' → IsBounded r → IsBounded r'
  transport_bounds {r} {r'} e h = subst IsBounded e h

  at_limit-IsBounded :
      (before : Option S) (result : List R)
      → length result ≡ limit
      → IsBounded (at_limit signature_of same fetch limit reject_overflow before result)
  at_limit-IsBounded before result h = elim (Bool-cases reject_overflow) [
    | inl t ↦ elim (Result-cases (fetch before 1)) [
      | inl (e, q) ↦ transport_bounds {r = err e} (ground (arith, t, q)) tt
      | inr (extra, q) ↦ elim (Bool-cases (is_empty extra)) [
        | inl n ↦
            transport_bounds {r = ok (result, false)} (ground (arith, t, q, n))
              (omega arith, λ k. h)
        | inr n ↦ transport_bounds {r = err PagingError.more_activity} (ground (arith, t, q, n)) tt
      ]
    ]
    | inr f ↦ transport_bounds {r = ok (result, false)} (ground (arith, f)) (omega arith, λ k. h)
  ]

  loop_ends :
      (fuel : ℕ) (before : Option S) (result : List R)
      → length result < limit
      → limit < fuel + length result
      → (r : Page R) × (paging_loop signature_of same fetch limit reject_overflow fuel before result
          ≡ some r)
        × IsBounded r
  unfolding paging_loop
  loop_ends zero before result h k = absurd (omega arith)
  loop_ends (suc fuel) before result h k = elim (Result-cases (fetch before most)) [
    | inl (e, q) ↦ (err e, ground (arith, q), tt)
    | inr (page, q) ↦ elim (Bool-cases (leb (length page) most)) [
      | inr f ↦ (err PagingError.page_too_large, ground (arith, q, f), tt)
      | inl t ↦
          elim (Result-cases
            (advance signature_of same fetch limit reject_overflow before (last? page))) [
              | inl (e, a) ↦ (err e, ground (arith, q, t, a), tt)
              | inr (next, a) ↦ elim (Bool-cases (ltb (length page) most)) [
                | inl u ↦ (
                  ok (result ++ page, true),
                  ground (arith, q, t, a, u),
                  (ground (arith, length-append result page, u), λ e. cc),
                )
                | inr u ↦ elim (Bool-cases (length (result ++ page) == limit)) [
                  | inl v ↦ (
                    at_limit signature_of same fetch limit reject_overflow next (result ++ page),
                    ground (arith, q, t, a, u, v),
                    at_limit-IsBounded next (result ++ page) (ground (arith, v)),
                  )
                  | inr v ↦
                      let sum = length-append result page in
                      let (r, e, b) =
                        loop_ends fuel next (result ++ page) (ground (arith, sum, u, t, v))
                          (ground (arith, sum, u)) in
                      (r, ground (arith, q, t, a, u, v, e), b)
                ]
              ]
            ]
    ]
  ]
    where
      most : ℕ
      most = page_limit signature_of same fetch limit reject_overflow result

  -- Whatever the provider answers, the same request always in the same way, the paging ends within one
  -- round more than the limit, with an error or with at most `limit` rows, of which there are `limit`
  -- unless the history is reported exhausted.
  pub signatures_end :
      (fuel : ℕ) (before : Option S)
      → limit < fuel
      → (r : Page R) × (signatures signature_of same fetch limit reject_overflow fuel before
          ≡ some r)
        × IsBounded r
  unfolding signatures
  signatures_end fuel before h = elim (Bool-cases (ltb 0 limit && leb limit 100000)) [
    | inr f ↦ (err PagingError.invalid_limit, ground (arith, f), tt)
    | inl t ↦
        let (r, e, b) = loop_ends fuel before [] (ground arith) (omega arith) in
        (r, ground (arith, t, e), b)
  ]
