-- ===== src/Csv/Complete.antt =====
-- The export of a snapshot as a whole: the paged reading, the file and its reader together.
use spectraplex.Base.{
  ℕ, suc, ◌*◌, ◌<◌, ◌≤◌, ◌≡◌, subst, some, List, ◌∷◌, map, length, take, i64_max,
}
use spectraplex.Csv.{Text, codes, Display}
use spectraplex.Csv.Stream.{World, ok, write_export_to_file, stream_paged_with_builder_in_tx}
use spectraplex.Csv.Reader.{read_csv}
use spectraplex.Csv.Roundtrip.{PrintsPlain, cells_of}
use spectraplex.Csv.Datasets.{
  Exported, name, columns, RecordOf, batch, args, read_csv-write_export_to_file,
}
use spectraplex.Csv.Snapshot.{IsCalm, snapshot_streamed}

module _ (o : Display) (d : Exported) where
  -- The export has these records: the file is read as the columns and a row for each, and both counts
  -- are their number.
  abbrev pub Exports : World (RecordOf o d) → ℕ → ℕ → ℕ → List (RecordOf o d) → Type 0
  Exports w page_size hard_cap fuel records =
      let s = stream_paged_with_builder_in_tx w page_size hard_cap fuel in
      (file : Text) × (s.result ≡ some (ok (length records)))
      × (write_export_to_file o (name d) (map (batch o d) s.pages) ≡ some (file, length records))
      × (read_csv file ≡ some (map codes (columns d) ∷ map (λ r. cells_of o (args o d r)) records))

  -- If nothing fails and nothing is cancelled, numbers, UUIDs and times are printed without commas, quotes
  -- and line breaks, and the cap is a number of whole pages, then the CSV export of any dataset has
  -- exactly the records of the snapshot up to the cap, in order and each once: the file is read as
  -- the columns and a row for each record, whatever texts it holds, and the number of records that
  -- the reading of the snapshot reports is the one that the writing of the file reports.
  pub export_complete :
      PrintsPlain o
      → (all : List (RecordOf o d)) (short : length all ≤ i64_max) (page_size : ℕ)
        (w : World (RecordOf o d)) (hard_cap : ℕ)
      → IsCalm all short page_size w hard_cap
      → 1 ≤ page_size
      → (m fuel : ℕ) → m < fuel
      → hard_cap ≡ suc m * page_size
      → Exports w page_size hard_cap fuel (take hard_cap all)
  export_complete plain all short page_size w hard_cap calm pos m fuel l c =
      let s = stream_paged_with_builder_in_tx w page_size hard_cap fuel in
      let (sent, counted) = snapshot_streamed all short page_size w hard_cap calm pos m fuel l c in
      let (file, written, read) = read_csv-write_export_to_file o plain d s.pages in
      (
        file,
        counted,
        subst
            (λ records.
              write_export_to_file o (name d) (map (batch o d) s.pages)
              ≡ some (file, length records))
            sent written,
        subst
            (λ records.
              read_csv file
              ≡ some (map codes (columns d) ∷ map (λ r. cells_of o (args o d r)) records))
            sent read,
      )
