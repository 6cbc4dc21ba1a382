-- ===== src/Visas/Service.antt =====
-- The methods of apps/api/src/modules/visas/visas.service.ts. `profile` is what
-- `prisma.user.findUnique` yields for the acting user, and `draw` the random reference codes.
use muhammad_tours_and_trave.Prelude.{
  ℕ, ◌+◌, Bool, not, ◌||◌, if◌then◌else◌, Option, none, some, List, [], ◌∷◌, ◌==◌, any, is_some,
  Action, bad_request, conflict, forbidden, not_found, failure, ◌>>=◌, ◌>>◌, pure, throw_if, gets,
  modify, or_throw, from_result, caught, find_many, update_where, Change, trail, oldest_first,
  unique_reference,
}
use muhammad_tours_and_trave.Roles.{visa_manage, includes}
use muhammad_tours_and_trave.Access.{
  AuthenticatedUser, UserProfile, Actor, resolve_actor, owns_it, is_mine,
}
use muhammad_tours_and_trave.Visas.Model.{
  VisaApplicationStatus, submitted, rank, is_valid_transition, ApplyVisaDto, UpdateVisaStatusDto,
  VisaApplication, AuditEntry, application_submitted, status_changed, Store, find_application,
}

-- What `loadDetail` returns: the row with its history, the oldest change first.
abbrev pub Detail : Type 0
Detail = VisaApplication × List (Change VisaApplicationStatus)

unfoldable pub load_detail : ℕ → Action Store Detail
load_detail i = do
  found ← gets (find_application i)
  application ← or_throw found failure
  history ← gets (λ s. oldest_first (trail i s.history))
  pure (application, history)

-- `resolveActor`, as an action
abbrev pub acting : Option UserProfile → Action Store Actor
acting profile = from_result (resolve_actor bad_request profile)

abbrev pub has_reference : Store → ℕ → Bool
has_reference s code = any (λ (a : VisaApplication). a.application_reference == code) s.applications

-- `visaApplication.create`, with the first row of the history nested in it.
abbrev pub create_application : ApplyVisaDto → ℕ → Actor → ℕ → Action Store VisaApplication
create_application dto code actor user_id s =
    let application : VisaApplication = record {
      id = s.next_id;
      application_reference = code;
      details = dto;
      status = submitted;
      reviewer_note = none;
      owner = record {
        customer_id = actor.customer_id;
        agent_id = actor.agent_id;
        employee_id = actor.employee_id;
      };
      submitted_by_user_id = user_id;
    } in
    let first : Change VisaApplicationStatus = record {
      row_id = s.next_id;
      from_status = none;
      to_status = submitted;
      actor_user_id = some user_id;
      note = none;
    } in
    pure application (record s {
      applications = application ∷ s.applications;
      history = first ∷ s.history;
      next_id = s.next_id + 1;
    })

abbrev pub record_audit : AuditEntry → Action Store (Unit {0})
record_audit entry = modify (λ s. record s { audit = entry ∷ s.audit })

unfoldable pub apply :
    AuthenticatedUser → Option UserProfile → ApplyVisaDto → (ℕ → ℕ) → Action Store Detail
apply user profile dto draw = do
  actor ← acting profile
  drawn ← gets (λ s. unique_reference draw (has_reference s))
  code ← or_throw drawn failure
  application ← create_application dto code actor user.id
  record_audit (application_submitted user.id application.id application.application_reference)
  load_detail application.id

abbrev mine : Option Actor → List VisaApplication → List VisaApplication
mine none rows = []
mine (some actor) rows = find_many (λ a. is_mine actor a.owner) rows

unfoldable pub list_mine : Option UserProfile → Action Store (List VisaApplication)
list_mine profile = gets (λ s. mine (caught (resolve_actor bad_request profile)) s.applications)

unfoldable pub get_one : AuthenticatedUser → Option UserProfile → ℕ → Action Store Detail
get_one user profile i = do
  detail ← load_detail i
  throw_if
      (not (
        includes user.permissions visa_manage
        || owns_it (caught (resolve_actor bad_request profile)) detail.0.owner))
      forbidden
  pure detail

unfoldable pub list_all : Option VisaApplicationStatus → Action Store (List VisaApplication)
list_all none = gets (λ s. s.applications)
list_all (some status) = gets (λ s. find_many (λ a. rank a.status == rank status) s.applications)

-- The two writes of the transaction in `updateStatus`.
abbrev pub write_status : ℕ → UpdateVisaStatusDto → VisaApplication → ℕ → Store → Store
write_status i dto application user_id s = record s {
  applications =
      update_where (λ a. a.id == i)
        (λ a. record a {
          status = dto.to_status;
          reviewer_note = if is_some dto.note then dto.note else application.reviewer_note;
        })
        s.applications;
  history =
      record {
        row_id = i;
        from_status = some application.status;
        to_status = dto.to_status;
        actor_user_id = some user_id;
        note = dto.note;
      }
      ∷ s.history;
}

unfoldable pub update_status : AuthenticatedUser → ℕ → UpdateVisaStatusDto → Action Store Detail
update_status user i dto = do
  found ← gets (find_application i)
  application ← or_throw found not_found
  throw_if (not (is_valid_transition application.status dto.to_status)) conflict
  modify (write_status i dto application user.id)
  record_audit (status_changed user.id i application.status dto.to_status dto.note)
  load_detail i
