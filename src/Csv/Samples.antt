-- ===== src/Csv/Samples.antt =====
-- A small export, and the theorems at it.
use spectraplex.Base.{
  ℕ, ◌≡◌, refl, true, false, some, none, List, [], ◌∷◌, ◌++◌, map, take, drop, pos, negsuc, ℤ, inr,
  arith,
}
use spectraplex.Csv.{Text, codes, csv_escape, trim_start, integer_text, Display}
use spectraplex.Csv.Records.{HlFundingPayment}
use spectraplex.Csv.Stream.{
  World, sent, ok, write_export_to_file, stream_loop, stream_paged_with_builder_in_tx, after_send,
  round,
}
use spectraplex.Csv.Reader.{read_csv}
use spectraplex.Csv.Cells.{integer_text-IsPlain}
use spectraplex.Csv.Roundtrip.{PrintsPlain, cells_of}
use spectraplex.Csv.Datasets.{
  Exported, columns, RecordOf, batch, args, read_csv-write_export_to_file,
}
use spectraplex.Csv.Safety.{is_dangerous, csv_escape-safe}
use spectraplex.Csv.Pages.{concat, IsPrefix, streamed-IsPrefix}
use spectraplex.Csv.Complete.{Exports, export_complete}
use spectraplex.Csv.Snapshot.{IsCalm, snapshot_streamed}

-- Integers for amounts, and numbers for UUIDs and times.
abbrev display : Display
display = record {
  BigDecimal = ℤ;
  Value = Text;
  uuid_text = λ u. integer_text (pos u);
  bigdecimal_text = integer_text;
  to_rfc3339 = λ t. integer_text (pos t);
  value_text = λ v. v;
}

display-PrintsPlain : PrintsPlain display
display-PrintsPlain = record {
  uuid_plain = λ u. integer_text-IsPlain (pos u);
  bigdecimal_plain = integer_text-IsPlain;
  rfc3339_plain = λ t. integer_text-IsPlain (pos t);
}

abbrev payment : HlFundingPayment ℤ Text
payment = record {
  id = 7;
  raw_transaction_id = none;
  network = codes "hyper,core";
  coin = codes "=\"ETH\"";
  amount = negsuc 11;
  funding_rate = some (pos 3);
  payment_time = pos 1700;
  dataset_version_id = some 2;
  created_at = 40;
}

program : Unit {0}
unfolding trim_start csv_escape integer_text after_send round stream_loop
    stream_paged_with_builder_in_tx
program = tt

abbrev pages : List (List (RecordOf display Exported.hl_funding))
pages = (payment ∷ []) ∷ (payment ∷ []) ∷ []

read_csv-write_export_to_file_example :
    (file : Text) × (write_export_to_file display "hl_funding"
        (map (batch display Exported.hl_funding) pages)
      ≡ some (file, 2))
    × (read_csv file
        ≡ some (
            map codes (columns Exported.hl_funding)
            ∷ map
                (λ r. cells_of display (args display Exported.hl_funding r))
                (payment ∷ payment ∷ [])))
read_csv-write_export_to_file_example =
    read_csv-write_export_to_file display display-PrintsPlain Exported.hl_funding pages

cells :
    cells_of display (args display Exported.hl_funding payment)
    ≡ map codes ("7" ∷ "" ∷ "hyper,core" ∷ "'=\"ETH\"" ∷ "-12" ∷ "3" ∷ "1700" ∷ "2" ∷ "40" ∷ [])
unfolding program
cells = refl

escaped_coin : csv_escape payment.coin ≡ codes "\"'=\"\"ETH\"\"\""
unfolding program
escaped_coin = refl

csv_escape-safe_example :
    (cell : Text) × (read_csv (csv_escape payment.coin ++ b'\n' ∷ []) ≡ some ((cell ∷ []) ∷ []))
    × (is_dangerous cell ≡ false)
    × (is_dangerous payment.coin ≡ false → cell ≡ payment.coin)
    × (is_dangerous payment.coin ≡ true → cell ≡ b'\'' ∷ payment.coin)
csv_escape-safe_example = csv_escape-safe payment.coin

abbrev snapshot : List ℕ
snapshot = 10 ∷ 20 ∷ 30 ∷ 40 ∷ 50 ∷ []

abbrev world : World ℕ
world = record {
  query = λ offset. some (take 2 (drop offset snapshot));
  is_cancelled = λ offset. false;
  send = λ offset. sent;
}

world-IsCalm : IsCalm snapshot (omega arith) 2 world 4
world-IsCalm = record { runs = λ offset. refl; answers = λ offset. refl; sends = λ offset. refl }

streamed-IsPrefix_example :
    IsPrefix snapshot (omega arith) 2 world 4 (stream_paged_with_builder_in_tx world 2 4 1)
streamed-IsPrefix_example =
    streamed-IsPrefix snapshot (omega arith) 2 world 4 (λ offset. inr refl) 1

snapshot_streamed_example :
    (concat (stream_paged_with_builder_in_tx world 2 4 3).pages ≡ 10 ∷ 20 ∷ 30 ∷ 40 ∷ [])
    × ((stream_paged_with_builder_in_tx world 2 4 3).result ≡ some (ok 4))
snapshot_streamed_example =
    snapshot_streamed snapshot (omega arith) 2 world 4 world-IsCalm (omega arith) 1 3 (omega arith)
      refl

abbrev payments : List (RecordOf display Exported.hl_funding)
payments = payment ∷ payment ∷ payment ∷ []

abbrev payment_world : World (RecordOf display Exported.hl_funding)
payment_world = record {
  query = λ offset. some (take 1 (drop offset payments));
  is_cancelled = λ offset. false;
  send = λ offset. sent;
}

export_complete_example :
    Exports display Exported.hl_funding payment_world 1 2 3 (payment ∷ payment ∷ [])
export_complete_example =
    export_complete display Exported.hl_funding display-PrintsPlain payments (omega arith) 1
      payment_world 2
      (record { runs = λ offset. refl; answers = λ offset. refl; sends = λ offset. refl })
      (omega arith) 1 3 (omega arith) refl
