-- ===== src/FlightBookings/Steps/Deciding.antt =====
-- What a decision on an approval keeps true:
-- apps/api/src/modules/corporate-approvals/corporate-approvals.service.ts; and so what any sequence
-- of requests does.
use muhammad_tours_and_trave.Prelude.{
  ℕ, refl, arith, ◌==◌, not, some, List, [], ◌∷◌, conflict, forbidden, not_found, failure, modify,
  Keeps, bind-Keeps, throw_if-Keeps, or_throw-Keeps, gets-Keeps, pure-Keeps,
}
use muhammad_tours_and_trave.Access.{AuthenticatedUser}
use muhammad_tours_and_trave.TravelPolicy.Model.{employee_of_user, find_employee}
use muhammad_tours_and_trave.FlightBookings.Model.{
  approval_approved, approval_rejected, Store, Services,
}
use muhammad_tours_and_trave.FlightBookings.Reads.{get_adapter_for_booking, registered}
use muhammad_tours_and_trave.FlightBookings.Approvals.{
  Decision, approve, reject, DecideApprovalDto, rejection_reason, find_approval,
  resolve_approver_corporate_id, is_pending, decided, write_decision, audit_decision, carry_out,
  decide,
}
use muhammad_tours_and_trave.FlightBookings.Requests.{
  Request, post_booking, post_cancellation, post_decision, handle, handle_all,
}
use muhammad_tours_and_trave.FlightBookings.Steps.Parts.{
  IsStepwise, elsewhere-Keeps, audit-Keeps, load-Keeps, issue_tickets-Keeps,
}
use muhammad_tours_and_trave.FlightBookings.Steps.Creating.{create_booking-Keeps}
use muhammad_tours_and_trave.FlightBookings.Steps.Cancelling.{
  perform_cancellation-Keeps, cancel_booking-Keeps,
}

module _ (I : Store → Type 0) {services : Services} (k : IsStepwise I services) where
  adapter-Keeps : (i : ℕ) → Keeps I (get_adapter_for_booking services i)
  unfolding get_adapter_for_booking
  adapter-Keeps i = bind-Keeps I (load-Keeps I k i) (λ d.
      bind-Keeps I (or_throw-Keeps I d.booking.supplier_booking_reference conflict) (λ reference.
        bind-Keeps I (or_throw-Keeps I (registered services d.supplier_code) conflict)
          (λ adapter. pure-Keeps I {a = (adapter, reference)})))

  approver-Keeps : (user : AuthenticatedUser) → Keeps I (resolve_approver_corporate_id user)
  unfolding resolve_approver_corporate_id
  approver-Keeps user =
      bind-Keeps I (gets-Keeps I {f = λ s. employee_of_user user.id s.travel}) (λ found.
        bind-Keeps I (or_throw-Keeps I found forbidden) (λ e. pure-Keeps I {a = e.corporate_id}))

  module _ (user : AuthenticatedUser) (dto : DecideApprovalDto) where
    audit_decision-Keeps :
        (d : Decision) (i : ℕ) → Keeps I (modify (audit_decision services user dto d i))
    audit_decision-Keeps approve i = audit-Keeps I k (some user.id) (approval_approved i)
    audit_decision-Keeps reject i = audit-Keeps I k (some user.id) (approval_rejected i)

    carry_out-Keeps : (d : Decision) (i : ℕ) → Keeps I (carry_out services user dto d i)
    carry_out-Keeps approve i =
        bind-Keeps I (adapter-Keeps i)
          (λ (adapter, reference). issue_tickets-Keeps I k i adapter reference (some user.id))
    carry_out-Keeps reject i = bind-Keeps I (load-Keeps I k i) (λ d.
        bind-Keeps I
          (perform_cancellation-Keeps I k d (some user.id) (some (rejection_reason dto.reason)))
          (λ u. pure-Keeps I {a = tt}))

    pub decide-Keeps : (i : ℕ) → Keeps I (decide services user dto i)
    unfolding decide
    decide-Keeps i = bind-Keeps I (approver-Keeps user) (λ corporate.
        bind-Keeps I (gets-Keeps I {f = find_approval i}) (λ found.
          bind-Keeps I (or_throw-Keeps I found not_found) (λ a.
            bind-Keeps I (gets-Keeps I {f = λ s. find_employee a.requested_by_employee_id s.travel})
              (λ requester. bind-Keeps I (or_throw-Keeps I requester failure) (λ e.
                bind-Keeps I (throw_if-Keeps I (not (e.corporate_id == corporate)) forbidden) (λ u.
                  bind-Keeps I (throw_if-Keeps I (not (is_pending a.status)) conflict) (λ v.
                    bind-Keeps I
                      (elsewhere-Keeps I k {f = write_decision services user dto i}
                        (λ s. (refl, refl, refl, omega arith)))
                      (λ w. bind-Keeps I (audit_decision-Keeps dto.decision i) (λ x.
                        bind-Keeps I (carry_out-Keeps dto.decision a.booking_id)
                          (λ y. pure-Keeps I {a = decided services user dto a}))))))))))

  handle-Keeps : (request : Request) → Keeps I (handle services request)
  unfolding handle
  handle-Keeps (post_booking user profile dto key draw) =
      bind-Keeps I (create_booking-Keeps I k user dto key profile draw) (λ d. pure-Keeps I {a = tt})
  handle-Keeps (post_cancellation user profile i reason) =
      bind-Keeps I (cancel_booking-Keeps I k user profile i reason) (λ d. pure-Keeps I {a = tt})
  handle-Keeps (post_decision user dto i) =
      bind-Keeps I (decide-Keeps user dto i) (λ a. pure-Keeps I {a = tt})

-- What the steps keep, every sequence of requests keeps, whatever the services are at each.
pub handle_all-kept :
    (I : Store → Type 0)
    → ((services : Services) → IsStepwise I services)
    → (requests : List (Services × Request)) (s : Store) → I s
    → I (handle_all requests s)
unfolding handle_all
handle_all-kept I k [] s h = h
handle_all-kept I k ((services, request) ∷ requests) s h =
    handle_all-kept I k requests (handle services request s).1
      ((handle-Keeps I (k services) request).kept s h)
