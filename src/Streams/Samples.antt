-- ===== src/Streams/Samples.antt =====
-- One subscription and its leases, and the theorems at that input.
use spectraplex.Base.{true, false, ◌≡◌, refl, none, some, [], ◌∷◌, arith, sort_by}
use spectraplex.Streams.{
  StreamSubscription, grpc, StreamDesiredStatus, Table, new_subscription, leased,
  claim_stream_lease, heartbeat_stream, release_stream_lease, fail_stream_subscription,
  set_stream_desired_status, list_claimable_stream_subscriptions, heartbeat, exec, run,
}
use spectraplex.Streams.Lease.{lost_lease_fenced}

abbrev fresh : StreamSubscription
fresh = new_subscription 1 100 (some 7) "solana-mainnet" grpc StreamDesiredStatus.active none

abbrev table : Table
table = fresh ∷ []

abbrev leased_table : Table
leased_table = leased 110 "w1" fresh ∷ []

program : Unit {0}
unfolding claim_stream_lease heartbeat_stream release_stream_lease fail_stream_subscription
    set_stream_desired_status list_claimable_stream_subscriptions exec run sort_by
program = tt

claim_fresh : claim_stream_lease 1 "w1" 110 table ≡ (true, leased_table)
unfolding program
claim_fresh = refl

lost_lease_fenced_example :
    let after = run (heartbeat 1 "w1" 520 ∷ []) (claim_stream_lease 1 "w2" 510 leased_table).1 in
    (heartbeat_stream 1 "w1" 530 after ≡ (false, after))
    × (release_stream_lease 1 "w1" 530 after ≡ (false, after))
    × (fail_stream_subscription 1 "w1" "gone" 530 after ≡ (false, after))
unfolding program
lost_lease_fenced_example =
    lost_lease_fenced 1 "w2" "w1" "gone" 510 530 leased_table (heartbeat 1 "w1" 520 ∷ [])
      (omega arith) refl refl refl
