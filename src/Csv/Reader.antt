-- ===== src/Csv/Reader.antt =====
-- How a CSV file is read, after RFC 4180: rows that end in a line feed, of cells that commas separate,
-- where a cell in quotes holds any text, its quotes doubled. A text that is not of this form is
-- refused.
use spectraplex.Base.{ℕ, Option, none, some, List, [], ◌∷◌, ◌++◌, ◌==◌, if◌then◌else◌, ◌||◌}
use spectraplex.Csv.{Text}

-- Where the reader stands: at the start of a cell, within a bare cell, within quotes, or behind a quote
-- within quotes.
pub data Place : Type 0 where
  start bare within behind : Place

-- The rows read, the cells of the current row, and the text of the current cell.
pub record Reading : Type 0 where
  pub rows : List (List Text)
  pub cells : List Text
  pub cell : Text

abbrev pub cell_ends : Reading → Reading
cell_ends r = record { rows = r.rows; cells = r.cells ++ r.cell ∷ []; cell = [] }

abbrev pub row_ends : Reading → Reading
row_ends r = record { rows = r.rows ++ (r.cells ++ r.cell ∷ []) ∷ []; cells = []; cell = [] }

abbrev pub takes : ℕ → Reading → Reading
takes c r = record r { cell = r.cell ++ c ∷ [] }

-- One character that ends a cell, or else what `other` says.
abbrev pub ends_or : ℕ → Reading → Option (Place × Reading) → Option (Place × Reading)
ends_or c r other =
    if c == b','
    then some (start, cell_ends r)
    else if c == b'\n'
    then some (start, row_ends r)
    else other

unfoldable pub step : ℕ → Place → Reading → Option (Place × Reading)
step c start r =
    if c == b'"'
    then some (within, r)
    else if c == b'\r'
    then none
    else ends_or c r (some (bare, takes c r))
step c bare r = if c == b'"' || c == b'\r' then none else ends_or c r (some (bare, takes c r))
step c within r = if c == b'"' then some (behind, r) else some (within, takes c r)
step c behind r = if c == b'"' then some (within, takes b'"' r) else ends_or c r none

unfoldable pub read : Text → Place → Reading → Option (Place × Reading)
read [] p r = some (p, r)
read (c ∷ s) p r = elim (step c p r) [ none ↦ none | some (p', r') ↦ read s p' r' ]

-- A file is complete at the start of a cell that is the first of its row.
abbrev pub finished : Option (Place × Reading) → Option (List (List Text))
finished (some (start, r)) = elim (r.cells) [ [] ↦ some r.rows | _ ↦ none ]
finished _ = none

abbrev pub nothing_read : Reading
nothing_read = record { rows = []; cells = []; cell = [] }

unfoldable pub read_csv : Text → Option (List (List Text))
unfolding step read
read_csv s = finished (read s start nothing_read)
