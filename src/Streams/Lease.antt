-- ===== src/Streams/Lease.antt =====
-- Who holds a stream's lease, and when a claim takes it.
use spectraplex.Base.{
  ℕ, In-take, In-sort_by, ◌+◌, ◌≤◌, String, Bool, true, false, ◌&&◌, ◌≡◌, ◌↔◌, refl, Option, some,
  List, [], ◌∷◌, arith, inl, inr, str_eq, Bool-cases, any, count, In, any-In, any-elim, select-In,
  any_unique_false, any-update_unique, any-update-false, any-append, update_where_none,
}
use spectraplex.Streams.{
  StreamSubscription, StreamSource, StreamDesiredStatus, Table, has_id, claimable, held_by,
  same_key, lease_seconds, claim_stream_lease, heartbeat_stream, release_stream_lease,
  fail_stream_subscription, upsert_stream_subscription, list_claimable_stream_subscriptions,
  created_before, leased, beaten, released, desiring, failed, renewed, at_cursor, new_subscription,
  Statement, upsert, claim, heartbeat, release, set_desired, fail, move_cursor, exec, run,
}

-- A claim of a subscription succeeds exactly when a row with its id is active and has no owner or
-- a stale heartbeat.
claim_exact :
    (i : ℕ) (worker : String) (now : ℕ) (t : Table)
    → ((claim_stream_lease i worker now t).0 ≡ true)
      ↔ ((s : StreamSubscription) × In s t × (s.id ≡ i) × (claimable now s ≡ true))
unfolding claim_stream_lease
claim_exact i worker now t = (
  λ h.
      let (s, m, e) = any-elim (λ s. has_id i s && claimable now s) t h in
      (s, m, ground (arith, e), ground (arith, e)),
  λ (s, m, e, c). any-In (λ s. has_id i s && claimable now s) m (ground (arith, e, c)),
)

-- Every subscription that is listed as claimable can be claimed at that moment, by any worker.
listed_can_be_claimed :
    (now limit : ℕ) (worker : String) (t : Table) {s : StreamSubscription}
    → In s (list_claimable_stream_subscriptions now limit t)
    → (claim_stream_lease s.id worker now t).0 ≡ true
unfolding list_claimable_stream_subscriptions
listed_can_be_claimed now limit worker t {s} m =
    let (row, c) = select-In (claimable now) t (In-sort_by created_before _ (In-take limit _ m)) in
    (claim_exact s.id worker now t).1 (s, row, refl, c)

-- While the owner's heartbeat is at most five minutes old, a claim fails and changes nothing, in a
-- table with at most one row of the id.
live_lease_kept :
    (i : ℕ) (v w : String) (h now : ℕ) (t : Table) {s : StreamSubscription}
    → count (has_id i) t ≤ 1
    → In s t
    → s.id ≡ i
    → s.lease_owner ≡ some v
    → s.heartbeat_at ≡ some h
    → now ≤ h + lease_seconds
    → claim_stream_lease i w now t ≡ (false, t)
unfolding claim_stream_lease
live_lease_kept i v w h now t c m e o b fresh =
    update_where_none _ (leased now w) t
      (any_unique_false (has_id i) (claimable now) c m (ground (arith, e)) (ground (arith, o, b)))

-- No claim by `w`.
abbrev pub claims_by : String → Statement → Bool
claims_by w (claim i worker now) = str_eq worker w
claims_by w _ = false

upsert-disowns :
    (j : ℕ) (w : String) (id now : ℕ) (target : Option ℕ) (network : String) (source : StreamSource)
    (desired : StreamDesiredStatus) (config : Option String) (t : Table)
    → any (held_by j w) t ≡ false
    → any (held_by j w) (upsert_stream_subscription id now target network source desired config t).1
      ≡ false
unfolding upsert_stream_subscription
upsert-disowns j w id now target network source desired config t h =
    let key = same_key target network source in
    let fresh = new_subscription id now target network source desired config in
    let renew = any-update-false (held_by j w) key (renewed now desired config) (λ x _ e. e) t h in
    let add = any-append (held_by j w) t (fresh ∷ []) in
    elim (Bool-cases (any key t)) [
      | inl e ↦ rw e renew
      | inr e ↦ rw e (elim (Bool-cases (any (has_id id) t)) [
        | inl d ↦ rw d h
        | inr d ↦ rw d (ground (arith, add))
      ])
    ]

exec-disowns :
    (j : ℕ) (w : String) (s : Statement) (t : Table)
    → claims_by w s ≡ false
    → any (held_by j w) t ≡ false
    → any (held_by j w) (exec s t) ≡ false
unfolding exec
exec-disowns j w (upsert id now target network source desired config) t n h =
    upsert-disowns j w id now target network source desired config t h
exec-disowns j w (claim i worker now) t n h =
    any-update-false (held_by j w) (λ s. has_id i s && claimable now s) (leased now worker)
      (λ x _ e. ground (arith, n)) t h
exec-disowns j w (heartbeat i worker now) t n h =
    any-update-false (held_by j w) (held_by i worker) (beaten now) (λ x _ e. e) t h
exec-disowns j w (release i worker now) t n h =
    any-update-false (held_by j w) (held_by i worker) (released now) (λ x _ e. ground arith) t h
exec-disowns j w (set_desired i desired now) t n h =
    any-update-false (held_by j w) (has_id i) (desiring now desired) (λ x _ e. e) t h
exec-disowns j w (fail i worker message now) t n h =
    any-update-false (held_by j w) (held_by i worker) (failed now message) (λ x _ e. ground arith) t
      h
exec-disowns j w (move_cursor i cursor now) t n h =
    any-update-false (held_by j w) (has_id i) (at_cursor now cursor) (λ x _ e. e) t h

run-disowns :
    (j : ℕ) (w : String) (ss : List Statement) (t : Table)
    → any (claims_by w) ss ≡ false
    → any (held_by j w) t ≡ false
    → any (held_by j w) (run ss t) ≡ false
unfolding run
run-disowns j w [] t n h = h
run-disowns j w (s ∷ ss) t n h =
    run-disowns j w ss (exec s t) (ground arith) (exec-disowns j w s t (ground arith) h)

-- In a table with at most one row of the id: once another worker has taken over a lease, the earlier owner's heartbeat, release and failure
-- report return false and change nothing, whatever runs in between, until it makes a claim.
pub lost_lease_fenced :
    (i : ℕ) (v w message : String) (now later : ℕ) (t : Table) (ss : List Statement)
    → count (has_id i) t ≤ 1
    → (claim_stream_lease i v now t).0 ≡ true
    → str_eq v w ≡ false
    → any (claims_by w) ss ≡ false
    → let after = run ss (claim_stream_lease i v now t).1 in
      (heartbeat_stream i w later after ≡ (false, after))
      × (release_stream_lease i w later after ≡ (false, after))
      × (fail_stream_subscription i w message later after ≡ (false, after))
unfolding claim_stream_lease heartbeat_stream release_stream_lease fail_stream_subscription
lost_lease_fenced i v w message now later t ss c took n q =
    let start = (claim_stream_lease i v now t).1 in
    let gone : any (held_by i w) start ≡ false =
      any-update_unique (has_id i) (claimable now) (held_by i w) (leased now v)
        (λ x e. ground (arith, n)) (λ x e. ground arith) t c took in
    let lost = run-disowns i w ss start q gone in
    (
      update_where_none (held_by i w) (beaten later) (run ss start) lost,
      update_where_none (held_by i w) (released later) (run ss start) lost,
      update_where_none (held_by i w) (failed later message) (run ss start) lost,
    )
