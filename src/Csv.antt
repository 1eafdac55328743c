-- ===== src/Csv.antt =====
-- The CSV files of exports: csv_escape and the formatting of a row, api/src/export_csv.rs. A text is
-- the list of its code points. BigDecimal, UUIDs, times and JSON documents are printed by code
-- outside of the repository, which is a parameter; an integer is printed as the standard library
-- does.
pub mod Records
pub mod Rows
pub mod Stream
pub mod Reader
pub mod Cells
pub mod Roundtrip
pub mod Datasets
pub mod Safety
pub mod Pages
pub mod Snapshot
pub mod Complete
mod Samples
use Prim.Native.Char.{code}
use spectraplex.Base.{
  ℕ, zero, suc, ◌+◌, ◌/◌, ◌%◌, ◌^◌, ℤ, pos, negsuc, String, Bool, true, false, ◌&&◌, ◌||◌, Option,
  none, some, List, [], ◌∷◌, ◌++◌, map, concat_map, leb, ltb, ◌==◌, if◌then◌else◌, any, unwrap_or,
}
use mathlib.Core.Option

abbrev pub Text : Type 0
Text = List ℕ

-- The code points of a literal.
abbrev pub codes : String → Text
codes String.[] = []
codes (String.◌∷◌ c s) = code c ∷ codes s

-- `char::is_whitespace`: the property White_Space of Unicode.
abbrev pub is_whitespace : ℕ → Bool
is_whitespace c =
    (leb 9 c && leb c 13)
    || c == 32
    || c == 0x85
    || c == 0xA0
    || c == 0x1680
    || (leb 0x2000 c && leb c 0x200A)
    || c == 0x2028
    || c == 0x2029
    || c == 0x202F
    || c == 0x205F
    || c == 0x3000

unfoldable pub trim_start : Text → Text
trim_start [] = []
trim_start (c ∷ s) = if is_whitespace c then trim_start s else c ∷ s

-- `s.starts_with([…])`
abbrev pub starts_with_any : (ℕ → Bool) → Text → Bool
starts_with_any test [] = false
starts_with_any test (c ∷ s) = test c

abbrev pub is_formula_char : ℕ → Bool
is_formula_char c = c == b'=' || c == b'+' || c == b'-' || c == b'@'

abbrev pub is_control_char : ℕ → Bool
is_control_char c = c == b'\t' || c == b'\r' || c == b'\n'

-- The condition under which a field gets a quote in front.
abbrev pub is_formula : Text → Bool
is_formula s = starts_with_any is_formula_char (trim_start s) || starts_with_any is_control_char s

abbrev pub protect : Text → Text
protect s = if is_formula s then b'\'' ∷ s else s

abbrev pub is_special : ℕ → Bool
is_special c = c == b',' || c == b'"' || c == b'\n' || c == b'\r'

-- `s.replace('"', "\"\"")`
abbrev pub double_quotes : Text → Text
double_quotes = concat_map (λ c. if c == b'"' then b'"' ∷ b'"' ∷ [] else c ∷ [])

abbrev pub quote : Text → Text
quote s = b'"' ∷ (double_quotes s ++ b'"' ∷ [])

unfoldable pub csv_escape : Text → Text
csv_escape s =
    let protected = protect s in if any is_special protected then quote protected else protected

-- The decimal digits of a number, on fuel of which the number and one is enough.
digits : ℕ → ℕ → Text
digits zero n = []
digits (suc fuel) n = elim (ltb n 10) [
  | true ↦ (b'0' + n) ∷ []
  | false ↦ digits fuel (n / 10) ++ (b'0' + n % 10) ∷ []
]

unfoldable pub integer_text : ℤ → Text
unfolding digits
integer_text (pos n) = digits (n + 1) n
integer_text (negsuc n) = b'-' ∷ digits (n + 2) (n + 1)

-- What is printed by code outside of the repository.
pub record Display : Type 1 where
  pub BigDecimal : Type 0
  pub Value : Type 0
  pub uuid_text : ℕ → Text
  pub bigdecimal_text : BigDecimal → Text
  pub to_rfc3339 : ℕ → Text
  pub value_text : Value → Text

-- An argument of the formats of rows, by the way it is printed. An optional one is printed as the
-- empty text if it is missing: `….map(…).unwrap_or_default()`, `….as_deref().unwrap_or("")`.
pub data Arg (D V : Type 0) : Type 0 where
  uuid : ℕ → Arg D V
  uuid_option : Option ℕ → Arg D V
  escaped : Text → Arg D V
  escaped_option : Option Text → Arg D V
  escaped_value : V → Arg D V
  decimal : D → Arg D V
  decimal_option : Option D → Arg D V
  integer : ℤ → Arg D V
  integer_option : Option ℤ → Arg D V
  boolean : Bool → Arg D V
  instant : ℕ → Arg D V

abbrev pub unwrap_or_default {ℓ} : {A : Type ℓ} → (A → Text) → Option A → Text
unwrap_or_default f none = []
unwrap_or_default f (some a) = f a

module _ (o : Display) where
  abbrev pub Row : Type 0
  Row = List (Arg o.BigDecimal o.Value)

  abbrev pub boolean_text : Bool → Text
  boolean_text true = codes "true"
  boolean_text false = codes "false"

  abbrev pub show : Arg o.BigDecimal o.Value → Text
  show (uuid u) = o.uuid_text u
  show (uuid_option u) = unwrap_or_default o.uuid_text u
  show (escaped s) = csv_escape s
  show (escaped_option s) = csv_escape (unwrap_or s [])
  show (escaped_value v) = csv_escape (o.value_text v)
  show (decimal d) = o.bigdecimal_text d
  show (decimal_option d) = unwrap_or_default o.bigdecimal_text d
  show (integer n) = integer_text n
  show (integer_option n) = unwrap_or_default integer_text n
  show (boolean b) = boolean_text b
  show (instant t) = o.to_rfc3339 t

  -- `"{},{},…,{}\n"` with these arguments.
  pub write_line : Row → Text
  write_line [] = b'\n' ∷ []
  write_line (a ∷ []) = show a ++ b'\n' ∷ []
  write_line (a ∷ b ∷ args) = show a ++ b',' ∷ write_line (b ∷ args)

  -- `for r in records { writeln!(w, …) }`, with the arguments for a record given by `args`.
  pub write_rows : {R : Type 0} → (R → Row) → List R → Text
  write_rows args [] = []
  write_rows args (r ∷ records) = write_line (args r) ++ write_rows args records
