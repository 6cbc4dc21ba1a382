-- ===== src/FlightBookings/Approvals.antt =====
-- apps/api/src/modules/corporate-approvals/corporate-approvals.service.ts: a company's approver
-- decides on a booking that is out of policy.
use muhammad_tours_and_trave.Prelude.{
  ℕ, ◌==◌, Bool, true, false, not, ◌&&◌, Option, none, some, List, Action, conflict, forbidden,
  not_found, failure, ◌>>=◌, ◌>>◌, pure, gets, modify, throw_if, or_throw, find?, find_many,
  update_where,
}
use muhammad_tours_and_trave.Access.{AuthenticatedUser}
use muhammad_tours_and_trave.TravelPolicy.Model.{Employee, employee_of_user, find_employee}
use muhammad_tours_and_trave.FlightBookings.Model.{
  CorporateApproval, ApprovalStatus, ApprovalReason, by_approver, approval_approved,
  approval_rejected, Store, Services,
}
use muhammad_tours_and_trave.FlightBookings.Suppliers.{record_audit}
use muhammad_tours_and_trave.FlightBookings.Tickets.{issue_tickets_for_booking}
use muhammad_tours_and_trave.FlightBookings.Reads.{load_booking_detail, get_adapter_for_booking}
use muhammad_tours_and_trave.FlightBookings.Cancel.{perform_cancellation}

pub data Decision : Type 0 where
  approve reject : Decision

pub record DecideApprovalDto : Type 0 where
  pub decision : Decision
  pub reason : Option ℕ

-- The text that a cancellation gets for its reason.
abbrev pub rejection_reason : Option ℕ → ℕ
rejection_reason none = 5
rejection_reason (some reason) = reason

abbrev pub find_approval : ℕ → Store → Option CorporateApproval
find_approval i s = find? (λ a. a.id == i) s.approvals

unfoldable pub resolve_approver_corporate_id : AuthenticatedUser → Action Store ℕ
resolve_approver_corporate_id user = do
  found ← gets (λ s. employee_of_user user.id s.travel)
  e ← or_throw found forbidden
  pure e.corporate_id

abbrev pub is_pending : ApprovalStatus → Bool
is_pending ApprovalStatus.pending = true
is_pending _ = false

abbrev pub decided_status : Decision → ApprovalStatus
decided_status approve = ApprovalStatus.approved
decided_status reject = ApprovalStatus.rejected

abbrev approver_reason : Option ℕ → Option ApprovalReason
approver_reason none = none
approver_reason (some reason) = some (by_approver reason)

abbrev is_of_company : ℕ → Option Employee → Bool
is_of_company corporate none = false
is_of_company corporate (some e) = e.corporate_id == corporate

-- `{ status: 'PENDING', requestedByEmployee: { corporateId } }`
abbrev pub is_in_queue : ℕ → Store → CorporateApproval → Bool
is_in_queue corporate s a =
    is_pending a.status
    && is_of_company corporate (find_employee a.requested_by_employee_id s.travel)

unfoldable pub list_pending : AuthenticatedUser → Action Store (List CorporateApproval)
list_pending user = do
  corporate ← resolve_approver_corporate_id user
  gets (λ s. find_many (is_in_queue corporate s) s.approvals)

module _ (services : Services) (user : AuthenticatedUser) (dto : DecideApprovalDto) where
  -- The row after the decision.
  abbrev pub decided : CorporateApproval → CorporateApproval
  decided a = record a {
    status = decided_status dto.decision;
    approver_user_id = some user.id;
    reason = approver_reason dto.reason;
    decided_at = some services.now;
  }

  -- `corporateApproval.update`, and its audit entry
  abbrev pub write_decision : ℕ → Store → Store
  write_decision i s = record s { approvals = update_where (λ a. a.id == i) decided s.approvals }

  abbrev pub audit_decision : Decision → ℕ → Store → Store
  audit_decision approve i = record_audit (some user.id) (approval_approved i)
  audit_decision reject i = record_audit (some user.id) (approval_rejected i)

  abbrev pub carry_out : Decision → ℕ → Action Store (Unit {0})
  carry_out approve booking_id = do
    (adapter, reference) ← get_adapter_for_booking services booking_id
    issue_tickets_for_booking booking_id adapter reference (some user.id)
  carry_out reject booking_id = do
    d ← load_booking_detail booking_id
    perform_cancellation d (some user.id) (some (rejection_reason dto.reason)) services
    pure tt

  unfoldable pub decide : ℕ → Action Store CorporateApproval
  decide i = do
    corporate ← resolve_approver_corporate_id user
    found ← gets (find_approval i)
    a ← or_throw found not_found
    requester ← gets (λ s. find_employee a.requested_by_employee_id s.travel)
    e ← or_throw requester failure
    throw_if (not (e.corporate_id == corporate)) forbidden
    throw_if (not (is_pending a.status)) conflict
    modify (write_decision i)
    modify (audit_decision dto.decision i)
    carry_out dto.decision a.booking_id
    pure (decided a)
