-- ===== src/Csv/Safety.antt =====
-- What a reader of an exported text sees, where a spreadsheet would take the text for a formula.
use spectraplex.Base.{
  Bool, true, false, ◌&&◌, ◌||◌, ◌≡◌, refl, sym, ap, ◌∙◌, some, [], ◌∷◌, ◌++◌, inl, inr, Bool-cases,
  arith,
}
use spectraplex.Csv.{
  Text, is_whitespace, trim_start, starts_with_any, is_formula_char, is_control_char, is_formula,
  protect, csv_escape,
}
use spectraplex.Csv.Reader.{finished, read_csv}
use spectraplex.Csv.Cells.{end_of_row, read_escaped}

-- The first character that is not white space opens a formula.
abbrev pub opens_formula : Text → Bool
opens_formula [] = false
opens_formula (c ∷ s) = is_formula_char c || (is_whitespace c && opens_formula s)

-- A spreadsheet may take the cell for a formula.
abbrev pub is_dangerous : Text → Bool
is_dangerous s = opens_formula s || starts_with_any is_control_char s

trimmed_formula : (s : Text) → starts_with_any is_formula_char (trim_start s) ≡ opens_formula s
unfolding trim_start
trimmed_formula [] = refl
trimmed_formula (c ∷ s) = elim (Bool-cases (is_whitespace c)) [
  | inl e ↦ let f : is_formula_char c ≡ false = ground (arith, e) in rw (e, f) (trimmed_formula s)
  | inr e ↦ elim (Bool-cases (is_formula_char c)) [
    | inl f ↦ rw (e, f) refl
    | inr f ↦ rw (e, f) refl
  ]
]

formula-dangerous : (s : Text) → is_formula s ≡ is_dangerous s
formula-dangerous s = ap (λ b. b || starts_with_any is_control_char s) (trimmed_formula s)

protect-formula : (s : Text) → is_formula s ≡ true → protect s ≡ b'\'' ∷ s
protect-formula s e = rw e refl

protect-other : (s : Text) → is_formula s ≡ false → protect s ≡ s
protect-other s e = rw e refl

protect-safe : (s : Text) → is_dangerous (protect s) ≡ false
protect-safe s = elim (Bool-cases (is_formula s)) [
  | inl e ↦ rw e refl
  | inr e ↦ ap is_dangerous (protect-other s e) ∙ sym (formula-dangerous s) ∙ e
]

-- Every text that is escaped is read back as one cell whose first character is no tab and no line break,
-- and whose first one after white space does not open a formula: as the text itself if it is so
-- already, and else as the text with a quote in front.
pub csv_escape-safe :
    (s : Text)
    → (cell : Text) × (read_csv (csv_escape s ++ b'\n' ∷ []) ≡ some ((cell ∷ []) ∷ []))
      × (is_dangerous cell ≡ false)
      × (is_dangerous s ≡ false → cell ≡ s)
      × (is_dangerous s ≡ true → cell ≡ b'\'' ∷ s)
unfolding read_csv
csv_escape-safe s = (
  protect s,
  ap finished (read_escaped end_of_row [] [] [] s),
  protect-safe s,
  λ h. protect-other s (formula-dangerous s ∙ h),
  λ h. protect-formula s (formula-dangerous s ∙ h),
)
