-- ===== src/Csv/Cells.antt =====
-- That the reader takes one cell back, whatever text it holds.
use spectraplex.Base.{
  ℕ, zero, suc, ◌+◌, ◌/◌, ltb, ℤ, pos, negsuc, true, false, ◌≡◌, refl, ap, ◌∙◌, some, List, [], ◌∷◌,
  ◌++◌, ◌==◌, any, append_assoc, append_nil, Bool-cases, inl, inr, arith, All, All-append,
}
use spectraplex.Csv.{
  Text, protect, is_special, double_quotes, quote, csv_escape, digits, integer_text,
}
use spectraplex.Csv.Reader.{
  Place, start, bare, within, behind, Reading, cell_ends, row_ends, takes, step, read,
}

abbrev pub IsPlain : Text → Type 0
IsPlain = All (λ c. is_special c ≡ false)

-- What follows a cell: another one, or the end of the row.
pub data End : Type 0 where
  next_cell end_of_row : End

abbrev pub char_of : End → ℕ
char_of next_cell = b','
char_of end_of_row = b'\n'

abbrev pub ended : End → Reading → Reading
ended next_cell r = cell_ends r
ended end_of_row r = row_ends r

-- The reading with a text at the end of its cell.
abbrev takes_all : Text → Reading → Reading
takes_all s r = record r { cell = r.cell ++ s }

next-read :
    (c : ℕ) (s : Text) (p p' : Place) (r r' : Reading)
    → step c p r ≡ some (p', r')
    → read (c ∷ s) p r ≡ read s p' r'
unfolding read
next-read c s p p' r r' h = rw (h, read) refl

step_within :
    (c : ℕ) (r : Reading) → (c == b'"') ≡ false → step c within r ≡ some (within, takes c r)
unfolding step
step_within c r h = rw h refl

read_within :
    (s rest : Text) (r : Reading)
    → read (double_quotes s ++ rest) within r ≡ read rest within (takes_all s r)
unfolding read step
read_within [] rest r = rw append_nil refl
read_within (c ∷ s) rest r = elim (Bool-cases (c == b'"')) [
  | inl e ↦
      let q : c ≡ b'"' = ground arith in
      rw q (
        read_within s rest (takes b'"' r)
        ∙ ap (λ t. read rest within (record r { cell = t })) (append_assoc r.cell (b'"' ∷ []) s))
  | inr e ↦ rw e (
      next-read c (double_quotes s ++ rest) within within r (takes c r) (step_within c r e)
      ∙ read_within s rest (takes c r)
      ∙ ap (λ t. read rest within (record r { cell = t })) (append_assoc r.cell (c ∷ []) s))
]

step_bare : (c : ℕ) (r : Reading) → is_special c ≡ false → step c bare r ≡ some (bare, takes c r)
unfolding step
step_bare c r h = ground arith

step_start : (c : ℕ) (r : Reading) → is_special c ≡ false → step c start r ≡ some (bare, takes c r)
unfolding step
step_start c r h = ground arith

read_bare :
    (s rest : Text) (r : Reading)
    → IsPlain s
    → read (s ++ rest) bare r ≡ read rest bare (takes_all s r)
unfolding read
read_bare [] rest r h = rw append_nil refl
read_bare (c ∷ s) rest r (h, hs) =
    next-read c (s ++ rest) bare bare r (takes c r) (step_bare c r h)
    ∙ read_bare s rest (takes c r) hs
    ∙ ap (λ t. read rest bare (record r { cell = t })) (append_assoc r.cell (c ∷ []) s)

read_end_bare :
    (e : End) (rest : Text) (r : Reading)
    → read (char_of e ∷ rest) bare r ≡ read rest start (ended e r)
unfolding read step
read_end_bare next_cell rest r = refl
read_end_bare end_of_row rest r = refl

read_end_start :
    (e : End) (rest : Text) (r : Reading)
    → read (char_of e ∷ rest) start r ≡ read rest start (ended e r)
unfolding read step
read_end_start next_cell rest r = refl
read_end_start end_of_row rest r = refl

read_end_behind :
    (e : End) (rest : Text) (r : Reading)
    → read (char_of e ∷ rest) behind r ≡ read rest start (ended e r)
unfolding read step
read_end_behind next_cell rest r = refl
read_end_behind end_of_row rest r = refl

-- At the start of a cell nothing of it is read.
abbrev pub fresh : List (List Text) → List Text → Text → Reading
fresh rows cells cell = record { rows = rows; cells = cells; cell = cell }

module _ (e : End) (rest : Text) (rows : List (List Text)) (cells : List Text) where
  pub read_plain :
      (s : Text)
      → IsPlain s
      → read (s ++ char_of e ∷ rest) start (fresh rows cells [])
        ≡ read rest start (ended e (fresh rows cells s))
  unfolding read
  read_plain [] h = read_end_start e rest _
  read_plain (c ∷ s) (h, hs) =
      next-read c (s ++ char_of e ∷ rest) start bare (fresh rows cells []) _ (step_start c _ h)
      ∙ read_bare s (char_of e ∷ rest) (fresh rows cells (c ∷ [])) hs
      ∙ read_end_bare e rest _

  read-quote :
      (s : Text)
      → read (quote s ++ char_of e ∷ rest) start (fresh rows cells [])
        ≡ read rest start (ended e (fresh rows cells s))
  unfolding read step
  read-quote s =
      ap (λ t. read t within (fresh rows cells []))
        (append_assoc (double_quotes s) (b'"' ∷ []) (char_of e ∷ rest))
      ∙ read_within s (b'"' ∷ char_of e ∷ rest) (fresh rows cells [])
      ∙ read_end_behind e rest (fresh rows cells s)

pub none_special : (s : Text) → any is_special s ≡ false → IsPlain s
none_special [] h = tt
none_special (c ∷ s) h = elim (Bool-cases (is_special c)) [
  | inl e ↦ let q : true ≡ false = rw e at h in cc
  | inr e ↦ (e, none_special s (rw e at h))
]

-- A text that is escaped is read back as the text that is shown in its place.
pub read_escaped :
    (e : End) (rest : Text) (rows : List (List Text)) (cells : List Text) (s : Text)
    → read (csv_escape s ++ char_of e ∷ rest) start (fresh rows cells [])
      ≡ read rest start (ended e (fresh rows cells (protect s)))
unfolding csv_escape
read_escaped e rest rows cells s = elim (Bool-cases (any is_special (protect s))) [
  | inl q ↦ rw q (read-quote e rest rows cells (protect s))
  | inr q ↦ rw q (read_plain e rest rows cells (protect s) (none_special (protect s) q))
]

digits-IsPlain : (fuel n : ℕ) → IsPlain (digits fuel n)
unfolding digits
digits-IsPlain zero n = tt
digits-IsPlain (suc fuel) n = elim (Bool-cases (ltb n 10)) [
  | inl e ↦ rw (e, digits) (ground arith, tt)
  | inr e ↦
      rw (e, digits)
        (All-append (λ c. is_special c ≡ false) (digits fuel (n / 10)) _
          (digits-IsPlain fuel (n / 10)) (ground arith, tt))
]

pub integer_text-IsPlain : (n : ℤ) → IsPlain (integer_text n)
unfolding integer_text
integer_text-IsPlain (pos n) = digits-IsPlain (n + 1) n
integer_text-IsPlain (negsuc n) = (refl, digits-IsPlain (n + 2) (n + 1))
