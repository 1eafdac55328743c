-- ===== src/Windows/Polls/Records.antt =====
-- The loop of wallet_backfill over a window's events: what it records, and the cursor it leaves.
use spectraplex.Base.{
  ℕ, ℤ, true, false, ◌≡◌, refl, sym, ◌∙◌, inl, inr, Option, none, some, List, [], ◌∷◌, ◌++◌, map,
  append_assoc, append_nil, map-append, arith, if◌then◌else◌, select, last?, Bool-cases, String,
  Option-cases, Result, ok,
}
use spectraplex.Windows.{WindowError, time}
use spectraplex.Windows.Order.{select-append}
use spectraplex.Windows.Window.{last?-none}
use spectraplex.Windows.Polls.{
  EventKind, WalletCursor, empty_cursor, field_of, set_field, eqb_kind, EventRecord, event_record,
  record_events,
}
use spectraplex.Windows.Polls.History.{cons_nil}

set_field_again :
    (k : EventKind) (s t : ℤ) (c : WalletCursor) → set_field k s (set_field k t c) ≡ set_field k s c
set_field_again EventKind.fill s t c = refl
set_field_again EventKind.funding s t c = refl
set_field_again EventKind.ledger_update s t c = refl

pub field_of_empty : (k : EventKind) → field_of k empty_cursor ≡ none
field_of_empty EventKind.fill = refl
field_of_empty EventKind.funding = refl
field_of_empty EventKind.ledger_update = refl

pub eqb_kind_sound : (k kind : EventKind) → eqb_kind k kind ≡ true → k ≡ kind
eqb_kind_sound EventKind.fill EventKind.fill h = refl
eqb_kind_sound EventKind.fill EventKind.funding h = cc
eqb_kind_sound EventKind.fill EventKind.ledger_update h = cc
eqb_kind_sound EventKind.funding EventKind.fill h = cc
eqb_kind_sound EventKind.funding EventKind.funding h = refl
eqb_kind_sound EventKind.funding EventKind.ledger_update h = cc
eqb_kind_sound EventKind.ledger_update EventKind.fill h = cc
eqb_kind_sound EventKind.ledger_update EventKind.funding h = cc
eqb_kind_sound EventKind.ledger_update EventKind.ledger_update h = refl

module _ {V : Type 0} where
  unfoldable pub events : EventKind → List (EventRecord V) → List V
  events kind records = map (λ r. r.event) (select (λ r. eqb_kind kind r.kind) records)

  events-append :
      (k : EventKind) (xs ys : List (EventRecord V))
      → events k (xs ++ ys) ≡ events k xs ++ events k ys
  unfolding events
  events-append k xs ys = rw (select-append (λ r. eqb_kind k r.kind) xs ys) (map-append _ _ _)

  pub ok_pair :
      {c d : WalletCursor} {xs ys : List (EventRecord V)}
      → Path (Result WindowError (WalletCursor × List (EventRecord V))) (ok (c, xs)) (ok (d, ys))
      → (d ≡ c) × (ys ≡ xs)
  ok_pair h = ground arith

  pub events_after :
      (k : EventKind) (pre out out' : List (EventRecord V)) (ws : List V)
      → events k out' ≡ events k out ++ ws
      → events k (pre ++ out') ≡ events k (pre ++ out) ++ ws
  events_after k pre out out' ws e =
      rw (events-append k pre out', events-append k pre out, e)
        (sym (append_assoc (events k pre) (events k out) ws))

module _ {V : Type 0} (time_of : V → Option ℤ) where
  unfoldable pub after : Option V → EventKind → WalletCursor → WalletCursor
  after none kind c = c
  after (some w) kind c = set_field kind (time time_of w) c

  after_set :
      {v : V} {t : ℤ} (vs : List V) (kind : EventKind)
      → time_of v ≡ some t
      → (c : WalletCursor)
      → after (last? vs) kind (set_field kind t c) ≡ after (last? (v ∷ vs)) kind c
  unfolding after
  after_set {v} [] kind e c = rw e refl
  after_set {t = t} (y ∷ ys) kind e c = elim (Option-cases (last? (y ∷ ys))) [
    | inl n ↦ absurd (cons_nil (last?-none time_of (y ∷ ys) n))
    | inr (w, k) ↦ rw k (set_field_again kind (time time_of w) t c)
  ]

  pub field_after_other :
      (k kind : EventKind) (o : Option V) (c : WalletCursor)
      → eqb_kind k kind ≡ false
      → field_of k (after o kind c) ≡ field_of k c
  unfolding after
  field_after_other k kind none c h = refl
  field_after_other EventKind.fill EventKind.fill (some w) c h = cc
  field_after_other EventKind.fill EventKind.funding (some w) c h = refl
  field_after_other EventKind.fill EventKind.ledger_update (some w) c h = refl
  field_after_other EventKind.funding EventKind.fill (some w) c h = refl
  field_after_other EventKind.funding EventKind.funding (some w) c h = cc
  field_after_other EventKind.funding EventKind.ledger_update (some w) c h = refl
  field_after_other EventKind.ledger_update EventKind.fill (some w) c h = refl
  field_after_other EventKind.ledger_update EventKind.funding (some w) c h = refl
  field_after_other EventKind.ledger_update EventKind.ledger_update (some w) c h = cc

  pub field_after_same :
      (kind : EventKind) (w : V) (c : WalletCursor)
      → field_of kind (after (some w) kind c) ≡ some (time time_of w)
  unfolding after
  field_after_same EventKind.fill w c = refl
  field_after_same EventKind.funding w c = refl
  field_after_same EventKind.ledger_update w c = refl

module _ {V : Type 0} (time_of : V → Option ℤ) (fetch : EventKind → ℤ → Result WindowError (List V))
    (event_id : String → EventKind → V → String) (wallet : String) (limit : ℕ) where
  events_step :
      (k kind : EventKind) (t : ℤ) (v : V) (vs : List V) (out : List (EventRecord V))
      → events k (out ++ event_record time_of fetch event_id wallet limit kind t v ∷ [])
          ++ (if eqb_kind k kind then vs else [])
        ≡ events k out ++ (if eqb_kind k kind then v ∷ vs else [])
  unfolding events event_record
  events_step k kind t v vs out =
      let r = event_record time_of fetch event_id wallet limit kind t v in
      rw (events-append k out (r ∷ [])) (elim (Bool-cases (eqb_kind k kind)) [
        | inl e ↦ rw e (append_assoc (events k out) (v ∷ []) vs)
        | inr e ↦ rw e (append_assoc (events k out) [] [])
      ])

  pub record_events_lem :
      (kind : EventKind) (vs : List V) (c : WalletCursor) (out : List (EventRecord V))
      {c' : WalletCursor} {out' : List (EventRecord V)}
      → record_events time_of fetch event_id wallet limit kind vs c out ≡ ok (c', out')
      → (c' ≡ after time_of (last? vs) kind c)
        × ((k : EventKind) → events k out' ≡ events k out ++ (if eqb_kind k kind then vs else []))
  unfolding record_events after
  record_events_lem kind [] c out {c'} {out'} h = (
    ground arith,
    λ k.
        let q : out' ≡ out = ground arith in
        rw q (elim (Bool-cases (eqb_kind k kind)) [
          | inl t ↦ rw t (sym (append_nil _))
          | inr f ↦ rw f (sym (append_nil _))
        ]),
  )
  record_events_lem kind (v ∷ vs) c out {c'} {out'} h = elim (Option-cases (time_of v)) [
    | inl e ↦ absurd (ground (arith, e))
    | inr (t, e) ↦
        let (a, b) =
          record_events_lem kind vs (set_field kind t c)
            (out ++ event_record time_of fetch event_id wallet limit kind t v ∷ []) {c' = c'}
            {out' = out'} (ground (arith, e)) in
        (a ∙ after_set time_of vs kind e c, λ k. b k ∙ events_step k kind t v vs out)
  ]
