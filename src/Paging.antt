-- ===== src/Paging.antt =====
-- The paging of a Solana wallet's signatures: `signatures` of adapters/src/solana_history.rs. The
-- requests, the rows they return and the parsing of a row's signature are parameters. What a request
-- returns is a function of its cursor and its number of rows.
pub mod Total
pub mod Exact
mod Samples
use spectraplex.Base.{
  ℕ, zero, suc, ◌-◌, min, Bool, true, false, ◌&&◌, Option, none, some, List, [], ◌∷◌, ◌++◌, leb,
  ltb, ◌==◌, is_empty, last?, length, Result, err, ok,
}

pub data PagingError : Type 0 where
  invalid_limit page_too_large invalid_signature repeated_cursor more_activity request_failed :
      PagingError

-- The rows, newest first, and whether the history is exhausted.
abbrev pub Page : Type 0 → Type 0
Page R = Result PagingError (List R × Bool)

module _ {R S : Type 0} (signature_of : R → Option S) (same : S → S → Bool)
    (fetch : Option S → ℕ → Result PagingError (List R)) (limit : ℕ) (reject_overflow : Bool) where
  abbrev pub is_cursor : Option S → S → Bool
  is_cursor none s = false
  is_cursor (some b) s = same b s

  -- The cursor after a page, which must move.
  abbrev pub advance : Option S → Option R → Result PagingError (Option S)
  advance before none = ok before
  advance before (some last) = elim (signature_of last) [
    | none ↦ err PagingError.invalid_signature
    | some next ↦ elim (is_cursor before next) [
      | true ↦ err PagingError.repeated_cursor
      | false ↦ ok (some next)
    ]
  ]

  abbrev pub page_limit : List R → ℕ
  page_limit result = min (limit - length result) 1000

  -- What is returned when the limit is reached.
  abbrev pub at_limit : Option S → List R → Page R
  at_limit before result = elim reject_overflow [
    | false ↦ ok (result, false)
    | true ↦ elim (fetch before 1) [
      | err e ↦ err e
      | ok extra ↦ elim (is_empty extra) [
        | true ↦ ok (result, false)
        | false ↦ err PagingError.more_activity
      ]
    ]
  ]

  -- The loop, for at most `fuel` rounds.
  unfoldable pub paging_loop : ℕ → Option S → List R → Option (Page R)
  paging_loop zero before result = none
  paging_loop (suc fuel) before result = elim (fetch before (page_limit result)) [
    | err e ↦ some (err e)
    | ok page ↦ elim (leb (length page) (page_limit result)) [
      | false ↦ some (err PagingError.page_too_large)
      | true ↦ elim (advance before (last? page)) [
        | err e ↦ some (err e)
        | ok next ↦ elim (ltb (length page) (page_limit result)) [
          | true ↦ some (ok (result ++ page, true))
          | false ↦ elim (length (result ++ page) == limit) [
            | true ↦ some (at_limit next (result ++ page))
            | false ↦ paging_loop fuel next (result ++ page)
          ]
        ]
      ]
    ]
  ]

  unfoldable pub signatures : ℕ → Option S → Option (Page R)
  signatures fuel before = elim (ltb 0 limit && leb limit 100000) [
    | true ↦ paging_loop fuel before []
    | false ↦ some (err PagingError.invalid_limit)
  ]
