-- ===== src/Gold/Tax.antt =====
-- The columns of the tax export for a ledger record: write_wallet_ledger_tax_csv_rows of
-- api/src/export_csv.rs, up to the printing. A missing amount is printed as the empty text.
use spectraplex.Base.{String, ◌&&◌, Option, none, some, if◌then◌else◌, str_eq, unwrap_or}
use spectraplex.Gold.{Outside, WalletLedgerRecord}

pub record TaxRow (D : Type 0) : Type 0 where
  pub date : String
  pub entry_type : String
  pub sent_asset : String
  pub sent_amount : Option D
  pub recv_asset : String
  pub recv_amount : Option D
  pub fee_asset : String
  pub fee_amount : Option D
  pub cost_basis : Option D
  pub proceeds : Option D
  pub gain_loss : Option D
  pub tx_hash : String
  pub network : String

module _ (o : Outside) where
  abbrev pub Side : Type 0
  Side = String × Option o.BigDecimal

  abbrev pub no_side : Side
  no_side = ("", none)

  -- What is sent and what is received.
  abbrev pub moved : WalletLedgerRecord o.BigDecimal → Side × Side
  moved r =
      let negative = o.below r.amount o.zero in
      if str_eq r.entry_type "fee" && negative
      then (no_side, no_side)
      else if negative
      then ((r.asset_symbol, some (o.abs r.amount)), no_side)
      else (no_side, (r.asset_symbol, some r.amount))

  abbrev pub fee_side : WalletLedgerRecord o.BigDecimal → Side
  fee_side r =
      if str_eq r.entry_type "fee"
      then (if o.below r.amount o.zero then (r.asset_symbol, some (o.abs r.amount)) else no_side)
      else (unwrap_or r.fee_asset "", r.fee_amount)

  abbrev pub gain : Option o.BigDecimal → Option o.BigDecimal → Option o.BigDecimal
  gain (some p) (some c) = some (o.minus p c)
  gain (some p) none = none
  gain none c = none

  unfoldable pub tax_row : WalletLedgerRecord o.BigDecimal → TaxRow o.BigDecimal
  tax_row r = record {
    date = o.date_text r.timestamp;
    entry_type = r.entry_type;
    sent_asset = (moved r).0.0;
    sent_amount = (moved r).0.1;
    recv_asset = (moved r).1.0;
    recv_amount = (moved r).1.1;
    fee_asset = (fee_side r).0;
    fee_amount = (fee_side r).1;
    cost_basis = r.cost_basis;
    proceeds = r.proceeds;
    gain_loss = gain r.proceeds r.cost_basis;
    tx_hash = r.tx_hash;
    network = r.network;
  }
