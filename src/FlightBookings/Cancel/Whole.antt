-- ===== src/FlightBookings/Cancel/Whole.antt =====
-- A cancellation is whole or leaves no trace:
-- `performCancellation` of apps/api/src/modules/bookings/bookings.service.ts.
use muhammad_tours_and_trave.Prelude.{
  ℕ, ◌≡◌, refl, ap, ◌∙◌, true, false, Option, none, some, inl, inr, Bool-cases, Result, ok, err,
  Error, conflict, ◌∷◌, List, map, length, Result-cases, continue,
}
use muhammad_tours_and_trave.Booking.Status.{
  BookingStatus, searched, confirmed, ticketed, cancelled, refund_pending, refunded,
  is_transition_allowed,
}
use muhammad_tours_and_trave.Booking.Model.{Booking}
use muhammad_tours_and_trave.Booking.StateMachine as M
use muhammad_tours_and_trave.FlightBookings.Model.{
  FlightSupplierAdapter, SupplierRequest, SupplierAnswer, cancel, refund, Refund, BookingDetail,
  Store, Services, find_booking, booking_cancelled,
}
use muhammad_tours_and_trave.FlightBookings.Suppliers.{record_audit}
use muhammad_tours_and_trave.FlightBookings.Reads.{detail_of, registered}
use muhammad_tours_and_trave.FlightBookings.Cancel.{
  is_cancellable, is_ticketed, ask_if, ask_adapter, void_tickets, undo, perform_cancellation,
}
use muhammad_tours_and_trave.FlightBookings.Cancel.Outcome.{
  latest_refund, settle_refund-Settled, final_status, moved_store, move_allowed, moved_found,
  load_found,
}

ticketed_status : (status : BookingStatus) → is_ticketed status ≡ true → status ≡ ticketed
ticketed_status searched e = cc
ticketed_status ticketed e = refl
ticketed_status _ e = cc

confirmed_status :
    (status : BookingStatus)
    → is_cancellable status ≡ true
    → is_ticketed status ≡ false
    → status ≡ confirmed
confirmed_status searched e f = cc
confirmed_status confirmed e f = refl
confirmed_status _ e f = cc

refund_allowed :
    (status : BookingStatus)
    → status ≡ ticketed
    → is_transition_allowed status refund_pending ≡ true
unfolding is_transition_allowed
refund_allowed status e = rw e refl

cancel_allowed :
    (status : BookingStatus) → status ≡ confirmed → is_transition_allowed status cancelled ≡ true
unfolding is_transition_allowed
cancel_allowed status e = rw e refl

refunded_allowed : is_transition_allowed refund_pending refunded ≡ true
unfolding is_transition_allowed
refunded_allowed = refl

module _ (user reason : Option ℕ) (services : Services) (d : BookingDetail) where
  abbrev i : ℕ
  i = d.booking.id

  -- The booking has come to its end, with a refund of all that it cost.
  pub record IsUndone (s' : Store) : Type 0 where
    pub row : Booking
    pub found : find_booking d.booking.id s' ≡ some row
    pub ended : row.status ≡ final_status d.booking.status
    pub refund_row : Refund
    pub latest : latest_refund d.booking.id s' ≡ some refund_row
    pub amount : refund_row.amount ≡ d.booking.total_amount

  pub Undone : Store → Type 0
  Undone s =
      (d' : BookingDetail) × (s' : Store) × (undo d user reason services s ≡ (ok d', s'))
      × IsUndone s'

  module _ (s : Store) (found : find_booking d.booking.id s ≡ some d.booking) where
    undo_ticketed : is_ticketed d.booking.status ≡ true → Undone s
    unfolding undo Undone
    undo_ticketed e =
        let status = ticketed_status d.booking.status e in
        let s1 =
          void_tickets d user reason i (moved_store i refund_pending user reason s d.booking) in
        let first =
          move_allowed i refund_pending user reason s found
            (refund_allowed d.booking.status status) in
        let (s2, settled) = settle_refund-Settled d user reason services s1 in
        let found2 : find_booking i s2 ≡ some (record d.booking { status = refund_pending }) =
          ap (λ t. M.find_booking i t) settled.same
          ∙ moved_found i refund_pending user reason s found in
        let last = move_allowed i refunded user none s2 found2 refunded_allowed in
        let row = record d.booking { status = refunded } in
        let s3 =
          moved_store i refunded user none s2 (record d.booking { status = refund_pending }) in
        let s4 = record_audit user (booking_cancelled i) s3 in
        let found4 : find_booking i s4 ≡ some row = moved_found i refunded user none s2 found2 in
        (
          detail_of row s4,
          s4,
          rw (e, first, settled.result, last) (load_found i s4 found4),
          record {
            row = row;
            found = found4;
            ended = rw e refl;
            refund_row = settled.row;
            latest = settled.latest;
            amount = settled.amount;
          },
        )

    undo_confirmed :
        is_cancellable d.booking.status ≡ true → is_ticketed d.booking.status ≡ false → Undone s
    unfolding undo Undone
    undo_confirmed c e =
        let status = confirmed_status d.booking.status c e in
        let s1 = moved_store i cancelled user reason s d.booking in
        let first =
          move_allowed i cancelled user reason s found (cancel_allowed d.booking.status status) in
        let (s2, settled) = settle_refund-Settled d user reason services s1 in
        let row = record d.booking { status = cancelled } in
        let s4 = record_audit user (booking_cancelled i) s2 in
        let found4 : find_booking i s4 ≡ some row =
          ap (λ t. M.find_booking i t) settled.same ∙ moved_found i cancelled user reason s found in
        (
          detail_of row s4,
          s4,
          rw (e, first, settled.result) (load_found i s4 found4),
          record {
            row = row;
            found = found4;
            ended = rw e refl;
            refund_row = settled.row;
            latest = settled.latest;
            amount = settled.amount;
          },
        )

    undo-Undone : is_cancellable d.booking.status ≡ true → Undone s
    undo-Undone c = elim (Bool-cases (is_ticketed d.booking.status)) [
      | inl e ↦ undo_ticketed e
      | inr e ↦ undo_confirmed c e
    ]

-- What a call of the adapter can leave: the requests that it was sent, and nothing else.
abbrev asked : Store → List SupplierRequest → Store
asked s requests = record s { supplier_requests = requests }

data Asked (s : Store) (r : Result (Unit {0}) × Store) : Type 0 where
  agreed : (requests : List SupplierRequest) → r ≡ (ok tt, asked s requests) → Asked s r
  declined :
      (e : Error) (requests : List SupplierRequest) → r ≡ (err e, asked s requests) → Asked s r

module _ (s : Store) where
  ask_if-Asked :
      (m : Option (SupplierRequest → ℕ → Result SupplierAnswer)) (request : SupplierRequest)
      → Asked s (ask_if m request s)
  ask_if-Asked none request = agreed s.supplier_requests refl
  ask_if-Asked (some answer) request =
      let requests = request ∷ s.supplier_requests in
      elim (Result-cases (answer request (length s.supplier_requests))) [
        | inr (e, threw) ↦ declined e requests (rw threw refl)
        | inl (a, answered) ↦ elim (Bool-cases a.is_failed) [
          | inl failed ↦ declined conflict requests (rw answered (rw failed refl))
          | inr fine ↦ agreed requests (rw answered (rw fine refl))
        ]
      ]

  ask_adapter-Asked :
      (d : BookingDetail) (user reason reference : Option ℕ)
      (adapter : Option FlightSupplierAdapter)
      → Asked s (ask_adapter d user reason reference adapter s)
  ask_adapter-Asked d user reason none adapter = agreed s.supplier_requests refl
  ask_adapter-Asked d user reason (some reference) none = agreed s.supplier_requests refl
  ask_adapter-Asked d user reason (some reference) (some adapter) =
      let refunding = refund reference (map (λ t. t.ticket_number) d.tickets) reason in
      elim (Bool-cases (is_ticketed d.booking.status)) [
        | inl e ↦ rw e (ask_if-Asked adapter.refund_booking refunding)
        | inr e ↦ rw e (ask_if-Asked adapter.cancel_booking (cancel reference reason))
      ]

module _ (user reason : Option ℕ) (services : Services) (d : BookingDetail) (s : Store) where
  -- Either the call returns, and the booking is undone; or it throws, and there is no trace but in
  -- the record of what the supplier was asked.
  pub data Outcome (r : Result BookingDetail × Store) : Type 0 where
    undone :
        (d' : BookingDetail) (s' : Store)
        → r ≡ (ok d', s')
        → IsUndone user reason services d s'
        → Outcome r
    refused :
        (e : Error) (requests : List SupplierRequest) → r ≡ (err e, asked s requests) → Outcome r

  abbrev call : Option ℕ → Option FlightSupplierAdapter → Result (Unit {0}) × Store
  call reference adapter = ask_adapter d user reason reference adapter s

  abbrev ask_supplier : Result (Unit {0}) × Store
  ask_supplier = call d.booking.supplier_booking_reference (registered services d.supplier_code)

  uncancellable :
      is_cancellable d.booking.status ≡ false
      → perform_cancellation d user reason services s ≡ (err conflict, s)
  unfolding perform_cancellation
  uncancellable e = rw e refl

  cancellable :
      is_cancellable d.booking.status ≡ true
      → perform_cancellation d user reason services s
        ≡ continue (λ u. undo d user reason services) ask_supplier
  unfolding perform_cancellation
  cancellable e = rw e refl

  -- A cancellation of a booking as it stands in the table either returns, and then the booking has
  -- come to its end and there is a refund of its whole amount; or it throws, and then nothing has
  -- changed but the record of what the supplier was asked.
  pub perform_cancellation-Outcome :
      find_booking d.booking.id s ≡ some d.booking
      → Outcome (perform_cancellation d user reason services s)
  unfolding Undone
  perform_cancellation-Outcome found = elim (Bool-cases (is_cancellable d.booking.status)) [
    | inr e ↦ refused conflict s.supplier_requests (uncancellable e)
    | inl e ↦
        elim (ask_adapter-Asked s d user reason d.booking.supplier_booking_reference
          (registered services d.supplier_code)) [
            | declined x requests q ↦
                refused x requests
                  (cancellable e ∙ ap (continue (λ u. undo d user reason services)) q)
            | agreed requests q ↦
                let (d', s', result, whole) =
                  undo-Undone user reason services d (asked s requests) found e in
                undone d' s'
                  (cancellable e ∙ ap (continue (λ u. undo d user reason services)) q ∙ result)
                  whole
          ]
  ]
