-- ===== src/Dataset/Registry.antt =====
-- Which datasets the registry materializes, and which it lets be queried.
use spectraplex.Base.{
  All-In, String, true, ◌≡◌, ◌≢◌, ◌↔◌, refl, sym, str_eq, str_eq_iff, In, head, tail, any-In,
  any-elim,
}
use spectraplex.Dataset.{
  DatasetName, raw_transactions, ledger_entries, token_transfers, native_balance_deltas,
  decoded_events, hl_fills, hl_funding, positions, wallet_ledger, balance_history, hl_pnl_summary,
  hl_trade_history, protocol_events, pool_snapshots, silver, tier, as_sql_str,
  silver_materializable, queryable, is_queryable, is_exportable,
}

IsMaterializable : DatasetName → Type 0
IsMaterializable d = (tier d ≡ silver) × (d ≢ ledger_entries)

-- The list is the silver tier without the ledger entries.
IsMaterializable-sound : (d : DatasetName) → In d silver_materializable → IsMaterializable d
unfolding tier IsMaterializable
IsMaterializable-sound d m =
    All-In IsMaterializable {xs = silver_materializable}
      (
        (refl, λ e. cc),
        (
          (refl, λ e. cc),
          ((refl, λ e. cc), ((refl, λ e. cc), ((refl, λ e. cc), ((refl, λ e. cc), tt)))),
        ),
      )
      m

materializable_complete : (d : DatasetName) → IsMaterializable d → In d silver_materializable
unfolding tier IsMaterializable
materializable_complete token_transfers h = head
materializable_complete native_balance_deltas h = tail head
materializable_complete decoded_events h = tail (tail head)
materializable_complete hl_fills h = tail (tail (tail head))
materializable_complete hl_funding h = tail (tail (tail (tail head)))
materializable_complete positions h = tail (tail (tail (tail (tail head))))
materializable_complete ledger_entries h = absurd (h.1 refl)
materializable_complete raw_transactions h = cc
materializable_complete d h = cc

served_sound : (d : DatasetName) → In d queryable → d ≢ ledger_entries
served_sound d m =
    All-In (λ x. x ≢ ledger_entries) {xs = queryable}
      (
        λ e. cc,
        (
          λ e. cc,
          (
            λ e. cc,
            (
              λ e. cc,
              (
                λ e. cc,
                (
                  λ e. cc,
                  (λ e. cc, (λ e. cc, (λ e. cc, (λ e. cc, (λ e. cc, (λ e. cc, (λ e. cc, tt))))))),
                ),
              ),
            ),
          ),
        ),
      )
      m

served_complete : (d : DatasetName) → d ≢ ledger_entries → In d queryable
served_complete raw_transactions n = head
served_complete token_transfers n = tail head
served_complete native_balance_deltas n = tail (tail head)
served_complete decoded_events n = tail (tail (tail head))
served_complete hl_fills n = tail (tail (tail (tail head)))
served_complete hl_funding n = tail (tail (tail (tail (tail head))))
served_complete positions n = tail (tail (tail (tail (tail (tail head)))))
served_complete wallet_ledger n = tail (tail (tail (tail (tail (tail (tail head))))))
served_complete balance_history n = tail (tail (tail (tail (tail (tail (tail (tail head)))))))
served_complete hl_pnl_summary n = tail (tail (tail (tail (tail (tail (tail (tail (tail head))))))))
served_complete hl_trade_history n =
    tail (tail (tail (tail (tail (tail (tail (tail (tail (tail head)))))))))
served_complete protocol_events n =
    tail (tail (tail (tail (tail (tail (tail (tail (tail (tail (tail head))))))))))
served_complete pool_snapshots n =
    tail (tail (tail (tail (tail (tail (tail (tail (tail (tail (tail (tail head)))))))))))
served_complete ledger_entries n = absurd (n refl)

-- A string is a queryable name exactly when it is the canonical name of a dataset other than the
-- ledger entries, and the same strings are exportable.
served_exact :
    (name : String)
    → ((is_queryable name ≡ true)
        ↔ ((d : DatasetName) × (d ≢ ledger_entries) × (name ≡ as_sql_str d)))
      × (is_exportable name ≡ is_queryable name)
unfolding is_queryable is_exportable
served_exact name = (
  (
    λ h.
        let (d, m, e) = any-elim (λ d. str_eq (as_sql_str d) name) queryable h in
        (d, served_sound d m, sym ((str_eq_iff (as_sql_str d) name).0 e)),
    λ (d, n, e).
        any-In (λ d. str_eq (as_sql_str d) name) (served_complete d n)
          ((str_eq_iff (as_sql_str d) name).1 (sym e)),
  ),
  refl,
)
