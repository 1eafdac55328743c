-- ===== src/Windows.antt =====
-- How the Hyperliquid connector cuts a wallet's history into windows, and where the next window
-- starts: bounded_time_window, the cursor helpers and wallet_backfill of
-- adapters/src/hyperliquid.rs. An event is a JSON value of which `v["time"].as_i64()` is read, so
-- that reading is a parameter.
pub mod Order
pub mod Window
pub mod Polls
mod Samples
use spectraplex.Base.{
  ℕ, zero, suc, ℤ, pos, negsuc, ltb_ℤ, leb_ℤ, Bool, true, false, ◌&&◌, Option, none, some, List, [],
  ◌∷◌, ◌++◌, ltb, leb, if◌then◌else◌, is_empty, unwrap_or, all, select, last?, get_elem?, length,
  sort_by, Result, err, ok, and_then, or_fail, i64_max,
}
use spectraplex.Base.Int.{◌+ℤ◌}

-- The messages of `ensure!`, a failed request, and the panic of `values[limit - 1]` for a limit of 0.
pub data WindowError : Type 0 where
  invalid_limit invalid_timestamp saturated_at_one_timestamp invalid_event_time panic
        request_failed :
      WindowError

-- `i64::saturating_add(1).max(0)`
abbrev pub resume_after_ms : ℤ → ℤ
resume_after_ms (pos n) = if ltb n i64_max then pos (suc n) else pos i64_max
resume_after_ms (negsuc n) = pos 0

module _ {V : Type 0} (time_of : V → Option ℤ) where
  abbrev pub is_valid_time : V → Bool
  is_valid_time v = elim (time_of v) [ none ↦ false | some t ↦ leb_ℤ (pos 0) t ]

  -- `v["time"].as_i64().unwrap()`, which is reached where all times are valid.
  abbrev pub time : V → ℤ
  time v = unwrap_or (time_of v) (pos 0)

  abbrev pub earlier : V → V → Bool
  earlier a b = ltb_ℤ (time a) (time b)

  abbrev pub since : ℤ → V → Bool
  since start v = leb_ℤ start (time v)

  -- The events of the last timestamp are left to the next request.
  unfoldable pub defer_last : List V → Result WindowError (List V)
  defer_last values = elim (last? values) [
    | none ↦ ok values
    | some last ↦
        let rest = select (λ v. earlier v last) values in
        if is_empty rest then err saturated_at_one_timestamp else ok rest
  ]

  abbrev pub boundary_at : List V → ℕ → Result WindowError V
  boundary_at values zero = err panic
  boundary_at values (suc n) = elim (get_elem? values n) [
    | none ↦ err panic
    | some boundary ↦ ok boundary
  ]

  -- At most `limit` events, and those that tie with the last of them.
  unfoldable pub cut_to_limit : ℕ → List V → Result WindowError (List V)
  cut_to_limit limit values =
      if ltb limit (length values)
      then (and_then (boundary_at values limit)
          (λ b. ok (select (λ v. leb_ℤ (time v) (time b)) values)))
      else ok values

  unfoldable pub bounded_time_window : List V → ℤ → ℕ → ℕ → Result WindowError (List V)
  bounded_time_window values start limit provider_cap =
      let saturated = leb provider_cap (length values) in
      let sorted = sort_by earlier (select (since start) values) in
      let deferred = if saturated then defer_last sorted else ok sorted in
      or_fail (all is_valid_time values) invalid_timestamp (and_then deferred (cut_to_limit limit))
