-- ===== src/Windows/Samples.antt =====
-- Sample events of a wallet, and the theorems on windows applied to them.
use spectraplex.Base.{
  ℤ, pos, true, if◌then◌else◌, eqb_ℤ, ◌&&◌, ◌≡◌, refl, ◌⊎◌, Option, none, some, List, [], ◌∷◌,
  String, select, last?, leb_ℤ, IsSorted, In, Result, err, ok, take, ltb_ℤ, sort_by, insert_by,
  All-In, i64_max,
}
use mathlib.Core.List.{Perm}
use spectraplex.Windows.{
  WindowError, time, earlier, since, bounded_time_window, defer_last, cut_to_limit,
}
use spectraplex.Windows.Window.{window-exact}
use spectraplex.Windows.Polls.{
  EventKind, WalletCursor, empty_cursor, EventRecord, backfills, deduped, upsert_raw,
  wallet_backfill, backfill_kind, record_events, event_record, provider_cap,
}
use spectraplex.Windows.Polls.Stored.{AreStored, backfills-AreStored}

-- An event is its time here.
abbrev time_of : ℤ → Option ℤ
time_of t = some t

abbrev page : List ℤ
page = pos 7 ∷ pos 3 ∷ pos 5 ∷ pos 5 ∷ pos 2 ∷ pos 9 ∷ []

-- The page is full, so 9 is deferred; the limit of 2 keeps the tie at 5.
page_runs : bounded_time_window time_of page (pos 3) 2 6 ≡ ok (pos 3 ∷ pos 5 ∷ pos 5 ∷ [])
unfolding bounded_time_window defer_last cut_to_limit sort_by insert_by
page_runs = refl

tied_page_runs :
    bounded_time_window time_of (pos 4 ∷ pos 4 ∷ []) (pos 0) 5 2
    ≡ err WindowError.saturated_at_one_timestamp
unfolding bounded_time_window defer_last cut_to_limit sort_by insert_by
tied_page_runs = refl

abbrev window : List ℤ
window = pos 3 ∷ pos 5 ∷ pos 5 ∷ []

window-exact_example :
    IsSorted (earlier time_of) window
    × (((window ≡ []) × (select (since time_of (pos 3)) page ≡ []))
        ⊎ ((w : ℤ) × (last? window ≡ some w)
            × Perm window (
                select
                  (λ v. since time_of (pos 3) v && leb_ℤ (time time_of v) (time time_of w))
                  page)))
window-exact_example = window-exact time_of page (pos 3) 2 6 page_runs

abbrev history : EventKind → List ℤ
history EventKind.fill = pos 1000 ∷ pos 2000 ∷ pos 2000 ∷ pos 4000 ∷ []
history EventKind.funding = pos 1500 ∷ []
history EventKind.ledger_update = []

abbrev fetch : EventKind → ℤ → Result WindowError (List ℤ)
fetch k start = ok (take (provider_cap k) (select (since time_of start) (history k)))

abbrev event_id : String → EventKind → ℤ → String
event_id wallet k v =
    if eqb_ℤ v (pos 1000)
    then "event-1"
    else if eqb_ℤ v (pos 1500)
    then "event-2"
    else if eqb_ℤ v (pos 2000)
    then "event-3"
    else "event-4"

history-IsSorted : (k : EventKind) → IsSorted (earlier time_of) (history k)
history-IsSorted EventKind.fill =
    ((refl, (refl, (refl, tt))), ((refl, (refl, tt)), ((refl, tt), (tt, tt))))
history-IsSorted EventKind.funding = (tt, tt)
history-IsSorted EventKind.ledger_update = tt

abbrev InRange : ℤ → Type 0
InRange v = (leb_ℤ (pos 0) v ≡ true) × (ltb_ℤ v (pos i64_max) ≡ true)

history-InRange : (k : EventKind) (v : ℤ) → In v (history k) → InRange v
history-InRange EventKind.fill v m =
    All-In InRange {xs = history EventKind.fill}
      ((refl, refl), ((refl, refl), ((refl, refl), ((refl, refl), tt)))) m
history-InRange EventKind.funding v m =
    All-In InRange {xs = history EventKind.funding} ((refl, refl), tt) m
history-InRange EventKind.ledger_update v m = elim m [ ]

abbrev last_cursor : WalletCursor
last_cursor = record { fills_ms = some (pos 4000); funding_ms = some (pos 1500); ledger_ms = none }

abbrev row : EventKind → ℤ → EventRecord ℤ
row kind t = event_record time_of fetch event_id "0xab" 2 kind t t

-- The two fills with the same hash leave one row.
abbrev rows : List (EventRecord ℤ)
rows =
    row EventKind.fill (pos 1000)
    ∷ row EventKind.fill (pos 2000)
    ∷ row EventKind.funding (pos 1500)
    ∷ row EventKind.fill (pos 4000)
    ∷ []

two_backfills_run :
    backfills time_of fetch event_id "0xab" 2 2 empty_cursor ≡ ok (last_cursor, rows)
unfolding backfills wallet_backfill backfill_kind record_events bounded_time_window defer_last
    cut_to_limit sort_by insert_by deduped upsert_raw event_record
two_backfills_run = refl

backfills-AreStored_example :
    AreStored time_of fetch event_id "0xab" 2 history history-IsSorted history-InRange
      (λ k start. refl)
      last_cursor
      rows
backfills-AreStored_example =
    backfills-AreStored time_of fetch event_id "0xab" 2 history history-IsSorted history-InRange
      (λ k start. refl) 2 two_backfills_run
