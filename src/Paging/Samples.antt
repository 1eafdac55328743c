-- ===== src/Paging/Samples.antt =====
-- A provider with six rows, and the theorems on paging applied to it.
use spectraplex.Base.{
  ℕ, zero, suc, true, false, ◌≡◌, refl, ◌∙◌, ap, Option, none, some, List, [], ◌∷◌, ◌++◌, ◌==◌,
  ==_iff, take, last?, Result, ok, arith,
}
use spectraplex.Paging.{PagingError, Page, signatures, paging_loop}
use spectraplex.Paging.Total.{IsBounded, signatures_end}
use spectraplex.Paging.Exact.{signatures_exact}

-- Rows are numbers, and a row's signature is the row.
abbrev signature_of : ℕ → Option ℕ
signature_of r = some r

abbrev down : ℕ → List ℕ
down zero = []
down (suc n) = n ∷ down n

abbrev rows_before : Option ℕ → List ℕ
rows_before none = down 6
rows_before (some s) = down s

abbrev fetch : Option ℕ → ℕ → Result PagingError (List ℕ)
fetch before n = ok (take n (rows_before before))

down_resumes :
    (n : ℕ) (page rest : List ℕ) (r : ℕ)
    → down n ≡ page ++ rest
    → last? page ≡ some r
    → down r ≡ rest
down_resumes n [] rest r e l = cc
down_resumes zero (x ∷ page) rest r e l = cc
down_resumes (suc n) (x ∷ []) rest r e l =
    let q : r ≡ n = ground arith in let d : down n ≡ rest = ground arith in ap down q ∙ d
down_resumes (suc n) (x ∷ y ∷ page) rest r e l = down_resumes n (y ∷ page) rest r (ground arith) l

rows_resume :
    (before : Option ℕ) (page rest : List ℕ) (r s : ℕ)
    → rows_before before ≡ page ++ rest
    → last? page ≡ some r
    → signature_of r ≡ some s
    → rows_before (some s) ≡ rest
rows_resume none page rest r s e l p = ap down (ground arith) ∙ down_resumes 6 page rest r e l
rows_resume (some b) page rest r s e l p = ap down (ground arith) ∙ down_resumes b page rest r e l

signatures_exact_example :
    signatures signature_of ◌==◌ fetch 4 false 5 (some 5) ≡ some (ok (4 ∷ 3 ∷ 2 ∷ 1 ∷ [], false))
signatures_exact_example =
    signatures_exact signature_of ◌==◌ fetch 4 false rows_before (λ a b. (==_iff a b).0)
      (λ b n. refl) (λ b r m. (r, refl)) rows_resume 5 (some 5) (omega arith) (omega arith)
      (omega arith)

-- A provider that repeats its page, whose answers end the paging too.
abbrev stuck : Option ℕ → ℕ → Result PagingError (List ℕ)
stuck before n = ok (take n (7 ∷ []))

stuck_runs : signatures signature_of ◌==◌ stuck 4 false 5 none ≡ some (ok (7 ∷ [], true))
unfolding signatures paging_loop
stuck_runs = refl

signatures_end_example :
    (r : Page ℕ) × (signatures signature_of ◌==◌ stuck 4 true 5 (some 7) ≡ some r)
    × IsBounded signature_of ◌==◌ stuck 4 true r
signatures_end_example = signatures_end signature_of ◌==◌ stuck 4 true 5 (some 7) (omega arith)
