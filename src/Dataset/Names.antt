-- ===== src/Dataset/Names.antt =====
-- Resolving canonical names and physical table names.
use spectraplex.Base.{
  String, false, ◌≡◌, ◌↔◌, ◌⊎◌, inl, inr, refl, sym, subst, none, some, arith, str_eq, str_eq_iff,
  Option-cases, Bool-cases,
}
use spectraplex.Dataset.{
  DatasetName, raw_transactions, hl_fills, hl_funding, positions, as_sql_str, physical_table,
  FromStr, from_physical_table, resolve,
}

-- The three table names that are no canonical names.
fills_not_canonical : (d : DatasetName) → str_eq "hl_fill_records" (as_sql_str d) ≡ false
unfolding as_sql_str
fills_not_canonical raw_transactions = refl
fills_not_canonical _ = refl

funding_not_canonical : (d : DatasetName) → str_eq "hl_funding_payments" (as_sql_str d) ≡ false
unfolding as_sql_str
funding_not_canonical raw_transactions = refl
funding_not_canonical _ = refl

positions_not_canonical : (d : DatasetName) → str_eq "hl_position_changes" (as_sql_str d) ≡ false
unfolding as_sql_str
positions_not_canonical raw_transactions = refl
positions_not_canonical _ = refl

module _ (fs : FromStr) where
  parse_none :
      (s : String) → ((d : DatasetName) → str_eq s (as_sql_str d) ≡ false) → fs.parse s ≡ none
  parse_none s h = elim (Option-cases (fs.parse s)) [
    | inl e ↦ e
    | inr (d, e) ↦ absurd (cc (h d, (str_eq_iff s (as_sql_str d)).1 (fs.only s d e)))
  ]

  from_physical-physical : (d : DatasetName) → from_physical_table fs (physical_table d) ≡ some d
  unfolding from_physical_table physical_table as_sql_str
  from_physical-physical hl_fills = refl
  from_physical-physical hl_funding = refl
  from_physical-physical positions = refl
  from_physical-physical d = fs.accepts d

  from_physical-canonical : (d : DatasetName) → from_physical_table fs (as_sql_str d) ≡ some d
  unfolding from_physical_table as_sql_str
  from_physical-canonical raw_transactions = fs.accepts raw_transactions
  from_physical-canonical d = fs.accepts d

  physical_inversion :
      (s : String) (d : DatasetName)
      → from_physical_table fs s ≡ some d
      → (s ≡ physical_table d) ⊎ (s ≡ as_sql_str d)
  unfolding from_physical_table physical_table
  physical_inversion s d h = elim (Bool-cases (str_eq s "hl_fill_records")) [
    | inl e ↦ inl (ground (arith, e, str_eq_iff s "hl_fill_records"))
    | inr e ↦ elim (Bool-cases (str_eq s "hl_funding_payments")) [
      | inl f ↦ inl (ground (arith, e, f, str_eq_iff s "hl_funding_payments"))
      | inr f ↦ elim (Bool-cases (str_eq s "hl_position_changes")) [
        | inl g ↦ inl (ground (arith, e, f, g, str_eq_iff s "hl_position_changes"))
        | inr g ↦ inr (fs.only s d (ground (arith, e, f, g)))
      ]
    ]
  ]

  -- A string resolves from the physical side to a dataset exactly when it is the dataset's table or
  -- its canonical name.
  from_physical_table_exact :
      (s : String) (d : DatasetName)
      → (from_physical_table fs s ≡ some d) ↔ ((s ≡ physical_table d) ⊎ (s ≡ as_sql_str d))
  from_physical_table_exact s d = (
    physical_inversion s d,
    elim [
      | inl e ↦ subst (λ x. from_physical_table fs x ≡ some d) (sym e) (from_physical-physical d)
      | inr e ↦ subst (λ x. from_physical_table fs x ≡ some d) (sym e) (from_physical-canonical d)
    ],
  )

  parse-physical :
      (d : DatasetName)
      → (fs.parse (physical_table d) ≡ none) ⊎ (fs.parse (physical_table d) ≡ some d)
  unfolding physical_table as_sql_str
  parse-physical hl_fills = inl (parse_none "hl_fill_records" fills_not_canonical)
  parse-physical hl_funding = inl (parse_none "hl_funding_payments" funding_not_canonical)
  parse-physical positions = inl (parse_none "hl_position_changes" positions_not_canonical)
  parse-physical d = inr (fs.accepts d)

  resolve_inversion :
      (s : String) (d : DatasetName)
      → resolve fs s ≡ some d
      → (s ≡ physical_table d) ⊎ (s ≡ as_sql_str d)
  unfolding resolve
  resolve_inversion s d h = elim (Option-cases (fs.parse s)) [
    | inl e ↦ physical_inversion s d (ground (arith, e))
    | inr (c, e) ↦ inr (fs.only s d (ground (arith, e)))
  ]

  resolve-physical : (d : DatasetName) → resolve fs (physical_table d) ≡ some d
  unfolding resolve
  resolve-physical d = elim (parse-physical d) [
    | inl e ↦ rw e (from_physical-physical d)
    | inr e ↦ rw e
  ]

  resolve-canonical : (d : DatasetName) → resolve fs (as_sql_str d) ≡ some d
  unfolding resolve
  resolve-canonical d = rw (fs.accepts d)

  -- The registry resolves a string to a dataset exactly when the string is the dataset's canonical
  -- name or the name of its table.
  resolve_exact :
      (s : String) (d : DatasetName)
      → (resolve fs s ≡ some d) ↔ ((s ≡ physical_table d) ⊎ (s ≡ as_sql_str d))
  resolve_exact s d = (
    resolve_inversion s d,
    elim [
      | inl e ↦ subst (λ x. resolve fs x ≡ some d) (sym e) (resolve-physical d)
      | inr e ↦ subst (λ x. resolve fs x ≡ some d) (sym e) (resolve-canonical d)
    ],
  )
