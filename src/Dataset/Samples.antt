-- ===== src/Dataset/Samples.antt =====
-- A concrete parser of dataset names, that meets what the model asks of it.
use spectraplex.Base.{String, ◌≡◌, refl, Option, some, find?, find?_sound, str_eq, str_eq_iff}
use spectraplex.Dataset.{DatasetName, ledger_entries, as_sql_str, all_datasets, FromStr}

abbrev parse_name : String → Option DatasetName
parse_name s = find? (λ d. str_eq s (as_sql_str d)) all_datasets

parse_name-as_sql_str : (d : DatasetName) → parse_name (as_sql_str d) ≡ some d
unfolding as_sql_str
parse_name-as_sql_str ledger_entries = refl
parse_name-as_sql_str d = refl

snake_case : FromStr
snake_case = record {
  parse = parse_name;
  accepts = parse_name-as_sql_str;
  only = λ s d h.
      (str_eq_iff s (as_sql_str d)).0 (find?_sound (λ d. str_eq s (as_sql_str d)) all_datasets h);
}
