-- ===== src/Streams/Activation.antt =====
-- A stream that failed or was stopped stays down until somebody asks for it again.
use spectraplex.Base.{
  ℕ, ◌≤◌, String, Bool, true, false, ◌&&◌, ◌≡◌, refl, Option, List, [], ◌∷◌, arith, inl, inr,
  Bool-cases, any, count, any-update_unique, any-update-false, any-append, any-update_clear,
  update_where_none,
}
use spectraplex.Streams.{
  StreamSubscription, StreamSource, StreamDesiredStatus, Table, has_id, is_active, claimable,
  held_by, owner_is, same_key, leased, beaten, released, desiring, failed, renewed, at_cursor,
  new_subscription, claim_stream_lease, fail_stream_subscription, set_stream_desired_status,
  upsert_stream_subscription, Statement, upsert, claim, heartbeat, release, set_desired, fail,
  move_cursor, exec, run,
}

-- The subscription `i` is wanted active.
abbrev pub wanted : ℕ → StreamSubscription → Bool
wanted i s = has_id i s && is_active s.desired_status

-- A statement that asks for some subscription to be active.
abbrev pub activates : Statement → Bool
activates (upsert id now target network source desired config) = is_active desired
activates (set_desired i desired now) = is_active desired
activates _ = false

upsert-unwanted :
    (j id now : ℕ) (target : Option ℕ) (network : String) (source : StreamSource)
    (desired : StreamDesiredStatus) (config : Option String) (t : Table)
    → is_active desired ≡ false
    → any (wanted j) t ≡ false
    → any (wanted j) (upsert_stream_subscription id now target network source desired config t).1
      ≡ false
unfolding upsert_stream_subscription
upsert-unwanted j id now target network source desired config t n h =
    let key = same_key target network source in
    let fresh = new_subscription id now target network source desired config in
    let renew =
      any-update-false (wanted j) key (renewed now desired config) (λ x _ e. ground (arith, n)) t
        h in
    let add = any-append (wanted j) t (fresh ∷ []) in
    elim (Bool-cases (any key t)) [
      | inl e ↦ rw e renew
      | inr e ↦ rw e (elim (Bool-cases (any (has_id id) t)) [
        | inl d ↦ rw d h
        | inr d ↦ rw d (ground (arith, add, n))
      ])
    ]

exec-unwanted :
    (j : ℕ) (s : Statement) (t : Table)
    → activates s ≡ false
    → any (wanted j) t ≡ false
    → any (wanted j) (exec s t) ≡ false
unfolding exec
exec-unwanted j (upsert id now target network source desired config) t n h =
    upsert-unwanted j id now target network source desired config t n h
exec-unwanted j (claim i worker now) t n h =
    any-update-false (wanted j) (λ s. has_id i s && claimable now s) (leased now worker)
      (λ x _ e. e) t h
exec-unwanted j (heartbeat i worker now) t n h =
    any-update-false (wanted j) (held_by i worker) (beaten now) (λ x _ e. e) t h
exec-unwanted j (release i worker now) t n h =
    any-update-false (wanted j) (held_by i worker) (released now) (λ x _ e. e) t h
exec-unwanted j (set_desired i desired now) t n h =
    any-update-false (wanted j) (has_id i) (desiring now desired) (λ x _ e. ground (arith, n)) t h
exec-unwanted j (fail i worker message now) t n h =
    any-update-false (wanted j) (held_by i worker) (failed now message) (λ x _ e. ground arith) t h
exec-unwanted j (move_cursor i cursor now) t n h =
    any-update-false (wanted j) (has_id i) (at_cursor now cursor) (λ x _ e. e) t h

run-unwanted :
    (j : ℕ) (ss : List Statement) (t : Table)
    → any activates ss ≡ false
    → any (wanted j) t ≡ false
    → any (wanted j) (run ss t) ≡ false
unfolding run
run-unwanted j [] t n h = h
run-unwanted j (s ∷ ss) t n h =
    run-unwanted j ss (exec s t) (ground arith) (exec-unwanted j s t (ground arith) h)

unclaimable :
    (i : ℕ) (now : ℕ) (t : Table)
    → any (wanted i) t ≡ false
    → any (λ s. has_id i s && claimable now s) t ≡ false
unclaimable i now [] h = refl
unclaimable i now (s ∷ t) h = ground (arith, unclaimable i now t)

claim_unwanted :
    (i : ℕ) (w : String) (now : ℕ) (t : Table)
    → any (wanted i) t ≡ false
    → claim_stream_lease i w now t ≡ (false, t)
unfolding claim_stream_lease
claim_unwanted i w now t h =
    update_where_none (λ s. has_id i s && claimable now s) (leased now w) t (unclaimable i now t h)

-- A subscription whose owner reported a failure is not claimed again, by any worker, until an
-- upsert or a change of the desired status asks for an active subscription.
failed_stays_down :
    (i : ℕ) (owner w message : String) (now later : ℕ) (t : Table) (ss : List Statement)
    → count (has_id i) t ≤ 1
    → (fail_stream_subscription i owner message now t).0 ≡ true
    → any activates ss ≡ false
    → let after = run ss (fail_stream_subscription i owner message now t).1 in
      claim_stream_lease i w later after ≡ (false, after)
unfolding fail_stream_subscription
failed_stays_down i owner w message now later t ss c did n =
    let start = (fail_stream_subscription i owner message now t).1 in
    let down : any (wanted i) start ≡ false =
      any-update_unique (has_id i) (λ s. owner_is owner s.lease_owner) (wanted i)
        (failed now message) (λ x e. ground arith) (λ x e. ground arith) t c did in
    claim_unwanted i w later (run ss start) (run-unwanted i ss start n down)

-- After the desired status is set to paused or stopped, no claim of the subscription succeeds until
-- an active one is asked for.
stopped_not_claimed :
    (i : ℕ) (desired : StreamDesiredStatus) (w : String) (now later : ℕ) (t : Table)
    (ss : List Statement)
    → is_active desired ≡ false
    → any activates ss ≡ false
    → let after = run ss (set_stream_desired_status i desired now t).1 in
      claim_stream_lease i w later after ≡ (false, after)
unfolding set_stream_desired_status
stopped_not_claimed i desired w now later t ss d n =
    let start = (set_stream_desired_status i desired now t).1 in
    let down : any (wanted i) start ≡ false =
      any-update_clear (wanted i) (has_id i) (desiring now desired) (λ x e. ground arith)
        (λ x. ground (arith, d)) t in
    claim_unwanted i w later (run ss start) (run-unwanted i ss start n down)
