-- ===== src/Csv/Roundtrip.antt =====
-- That the reader takes the rows of a file back.
use spectraplex.Base.{
  ℕ, true, false, ◌≡◌, refl, ap, sym, ◌∙◌, Option, none, some, List, [], ◌∷◌, ◌++◌, map, unwrap_or,
  append_assoc, append_nil,
}
use spectraplex.Csv.{
  Text, codes, protect, integer_text, Display, Arg, uuid, uuid_option, escaped, escaped_option,
  escaped_value, decimal, decimal_option, integer, integer_option, boolean, instant,
  unwrap_or_default, Row, show, write_line, write_rows,
}
use spectraplex.Csv.Reader.{start, read}
use spectraplex.Csv.Cells.{
  IsPlain, End, next_cell, end_of_row, char_of, ended, fresh, read_plain, read_escaped,
  none_special, integer_text-IsPlain,
}

-- The printing of numbers, UUIDs and times has no comma, quote or line break.
pub record PrintsPlain (o : Display) : Type 0 where
  pub uuid_plain : (u : ℕ) → IsPlain (o.uuid_text u)
  pub bigdecimal_plain : (d : o.BigDecimal) → IsPlain (o.bigdecimal_text d)
  pub rfc3339_plain : (t : ℕ) → IsPlain (o.to_rfc3339 t)

module _ (o : Display) where
  -- What a cell shows to its reader: a text with its protection, or a printed value.
  abbrev pub cell_of : Arg o.BigDecimal o.Value → Text
  cell_of (escaped s) = protect s
  cell_of (escaped_option s) = protect (unwrap_or s [])
  cell_of (escaped_value v) = protect (o.value_text v)
  cell_of (uuid u) = o.uuid_text u
  cell_of (uuid_option u) = unwrap_or_default o.uuid_text u
  cell_of (decimal d) = o.bigdecimal_text d
  cell_of (decimal_option d) = unwrap_or_default o.bigdecimal_text d
  cell_of (integer n) = integer_text n
  cell_of (integer_option n) = unwrap_or_default integer_text n
  cell_of (boolean true) = codes "true"
  cell_of (boolean false) = codes "false"
  cell_of (instant t) = o.to_rfc3339 t

  abbrev pub cells_of : Row o → List Text
  cells_of args = map cell_of args

  -- A row has at least one cell.
  abbrev pub HasCells : {R : Type 0} → (R → Row o) → Type 0
  HasCells {R} args = (r : R) → (a : Arg o.BigDecimal o.Value) × (as' : Row o) × (args r ≡ a ∷ as')

  module _ (plain : PrintsPlain o) where
    open plain use {uuid_plain, bigdecimal_plain, rfc3339_plain}

    default-IsPlain :
        {A : Type 0} (f : A → Text)
        → ((a : A) → IsPlain (f a))
        → (a : Option A) → IsPlain (unwrap_or_default f a)
    default-IsPlain f h none = tt
    default-IsPlain f h (some a) = h a

    read_cell :
        (a : Arg o.BigDecimal o.Value) (e : End) (rest : Text) (rows : List (List Text))
        (cells : List Text)
        → read (show o a ++ char_of e ∷ rest) start (fresh rows cells [])
          ≡ read rest start (ended e (fresh rows cells (cell_of a)))
    read_cell (escaped s) e rest rows cells = read_escaped e rest rows cells s
    read_cell (escaped_option s) e rest rows cells = read_escaped e rest rows cells (unwrap_or s [])
    read_cell (escaped_value v) e rest rows cells = read_escaped e rest rows cells (o.value_text v)
    read_cell (uuid u) e rest rows cells = read_plain e rest rows cells _ (uuid_plain u)
    read_cell (uuid_option u) e rest rows cells =
        read_plain e rest rows cells _ (default-IsPlain o.uuid_text uuid_plain u)
    read_cell (decimal d) e rest rows cells = read_plain e rest rows cells _ (bigdecimal_plain d)
    read_cell (decimal_option d) e rest rows cells =
        read_plain e rest rows cells _ (default-IsPlain o.bigdecimal_text bigdecimal_plain d)
    read_cell (integer n) e rest rows cells =
        read_plain e rest rows cells _ (integer_text-IsPlain n)
    read_cell (integer_option n) e rest rows cells =
        read_plain e rest rows cells _ (default-IsPlain integer_text integer_text-IsPlain n)
    read_cell (boolean true) e rest rows cells =
        read_plain e rest rows cells (codes "true") (none_special (codes "true") refl)
    read_cell (boolean false) e rest rows cells =
        read_plain e rest rows cells (codes "false") (none_special (codes "false") refl)
    read_cell (instant t) e rest rows cells = read_plain e rest rows cells _ (rfc3339_plain t)

    read_row :
        (a : Arg o.BigDecimal o.Value) (args : Row o) (rest : Text) (rows : List (List Text))
        (cells : List Text)
        → read (write_line o (a ∷ args) ++ rest) start (fresh rows cells [])
          ≡ read rest start (fresh (rows ++ (cells ++ cells_of (a ∷ args)) ∷ []) [] [])
    unfolding write_line
    read_row a [] rest rows cells =
        ap (λ t. read t start (fresh rows cells [])) (append_assoc (show o a) (b'\n' ∷ []) rest)
        ∙ read_cell a end_of_row rest rows cells
    read_row a (b ∷ args) rest rows cells =
        ap (λ t. read t start (fresh rows cells []))
          (append_assoc (show o a) (b',' ∷ write_line o (b ∷ args)) rest)
        ∙ read_cell a next_cell (write_line o (b ∷ args) ++ rest) rows cells
        ∙ read_row b args rest rows (cells ++ cell_of a ∷ [])
        ∙ ap (λ t. read rest start (fresh (rows ++ t ∷ []) [] []))
            (append_assoc cells (cell_of a ∷ []) (cells_of (b ∷ args)))

    module _ {R : Type 0} (args : R → Row o) where
      -- The rows of a list of records follow the rows that are read.
      pub read_rows :
          HasCells args
          → (records : List R) (rest : Text) (rows : List (List Text))
          → read (write_rows o args records ++ rest) start (fresh rows [] [])
            ≡ read rest start (fresh (rows ++ map (λ r. cells_of (args r)) records) [] [])
      unfolding write_rows
      read_rows h [] rest rows = rw append_nil refl
      read_rows h (r ∷ records) rest rows =
          let (a, as', e) = h r in
          ap (λ t. read t start (fresh rows [] []))
            (append_assoc (write_line o (args r)) (write_rows o args records) rest)
          ∙ ap
              (λ x.
                read (write_line o x ++ (write_rows o args records ++ rest)) start
                  (fresh rows [] []))
              e
          ∙ read_row a as' (write_rows o args records ++ rest) rows []
          ∙ ap
              (λ x.
                read (write_rows o args records ++ rest) start
                  (fresh (rows ++ cells_of x ∷ []) [] []))
              (sym e)
          ∙ read_rows h records rest (rows ++ cells_of (args r) ∷ [])
          ∙ ap (λ t. read rest start (fresh t [] []))
              (append_assoc rows (cells_of (args r) ∷ []) (map (λ x. cells_of (args x)) records))
