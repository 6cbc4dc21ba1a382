-- ===== src/Manpower/Review.antt =====
-- The moves of an application in apps/api/src/modules/manpower/manpower.service.ts: by the staff
-- and by the applicant.
pub mod Laws
use muhammad_tours_and_trave.Prelude.{
  ℕ, not, if◌then◌else◌, Option, some, ◌∷◌, ◌==◌, is_some, Action, conflict, not_found, ◌>>=◌, ◌>>◌,
  throw_if, gets, modify, or_throw, update_where,
}
use muhammad_tours_and_trave.Access.{AuthenticatedUser, UserProfile}
use muhammad_tours_and_trave.Manpower.Model.{
  ManpowerApplicationStatus, withdrawn, is_valid_transition, ManpowerApplication, status_changed,
  application_withdrawn, Store, find_application,
}
use muhammad_tours_and_trave.Manpower.Jobs.{record_audit}
use muhammad_tours_and_trave.Manpower.Applications.{Detail, load_detail, get_one}

pub record UpdateManpowerStatusDto : Type 0 where
  pub to_status : ManpowerApplicationStatus
  pub note : Option ℕ

-- `transition`: the two writes of its transaction. An undefined note leaves the reviewer's note.
abbrev pub transition :
    ℕ → ManpowerApplicationStatus → ManpowerApplicationStatus → ℕ → Option ℕ → Store → Store
transition i from to actor_user_id note s = record s {
  applications =
      update_where (λ a. a.id == i)
        (λ a. record a {
          status = to;
          reviewer_note = if is_some note then note else a.reviewer_note;
        })
        s.applications;
  history =
      record {
        row_id = i;
        from_status = some from;
        to_status = to;
        actor_user_id = some actor_user_id;
        note = note;
      }
      ∷ s.history;
}

unfoldable pub update_status : AuthenticatedUser → ℕ → UpdateManpowerStatusDto → Action Store Detail
update_status user i dto = do
  found ← gets (find_application i)
  application ← or_throw found not_found
  throw_if (not (is_valid_transition application.status dto.to_status)) conflict
  modify (transition application.id application.status dto.to_status user.id dto.note)
  record_audit (status_changed user.id i application.status dto.to_status dto.note)
  load_detail i

-- The text 'Withdrawn by applicant'.
abbrev pub withdrawn_by_applicant : ℕ
withdrawn_by_applicant = 0

unfoldable pub withdraw : AuthenticatedUser → Option UserProfile → ℕ → Action Store Detail
withdraw user profile i = do
  detail ← get_one user profile i
  throw_if (not (is_valid_transition detail.0.status withdrawn)) conflict
  modify (transition detail.0.id detail.0.status withdrawn user.id (some withdrawn_by_applicant))
  record_audit (application_withdrawn user.id i)
  load_detail i
