-- ===== src/Manpower/Applications.antt =====
-- The applications of apps/api/src/modules/manpower/manpower.service.ts. `profile` is what
-- `prisma.user.findUnique` yields for the acting user, `now` the clock and `draw` the random codes.
use muhammad_tours_and_trave.Prelude.{
  ℕ, ◌+◌, Bool, true, false, not, ◌||◌, ◌&&◌, Option, none, some, List, [], ◌∷◌, ◌==◌, ltb, any,
  Action, bad_request, conflict, forbidden, not_found, failure, ◌>>=◌, ◌>>◌, pure, from_result,
  throw_if, gets, modify, or_throw, transaction, caught, find_many, update_where, Change, trail,
  oldest_first, unique_reference,
}
use muhammad_tours_and_trave.Roles.{manpower_manage, includes}
use muhammad_tours_and_trave.Access.{
  AuthenticatedUser, UserProfile, Actor, resolve_actor, owns_it, is_mine,
}
use muhammad_tours_and_trave.Manpower.Model.{
  ManpowerApplicationStatus, submitted, rank, ApplyManpowerJobDto, ManpowerApplication,
  application_submitted, Store, find_job, find_application,
}
use muhammad_tours_and_trave.Manpower.Jobs.{record_audit}

-- What `loadDetail` returns, the job of the application left out: it is found by its id.
abbrev pub Detail : Type 0
Detail = ManpowerApplication × List (Change ManpowerApplicationStatus)

unfoldable pub load_detail : ℕ → Action Store Detail
load_detail i = do
  found ← gets (find_application i)
  application ← or_throw found failure
  history ← gets (λ s. oldest_first (trail i s.history))
  pure (application, history)

-- `resolveActor`, as an action
abbrev pub acting : Option UserProfile → Action Store Actor
acting profile = from_result (resolve_actor bad_request profile)

abbrev pub has_reference : Store → ℕ → Bool
has_reference s code =
    any (λ (a : ManpowerApplication). a.application_reference == code) s.applications

abbrev pub has_passed : Option ℕ → ℕ → Bool
has_passed none now = false
has_passed (some deadline) now = ltb deadline now

-- The row that `manpowerApplication.create` writes.
abbrev pub new_application : ApplyManpowerJobDto → ℕ → ℕ → Actor → ℕ → ℕ → ManpowerApplication
new_application dto job_id code actor user_id i = record {
  id = i;
  application_reference = code;
  job_id = job_id;
  details = dto;
  status = submitted;
  reviewer_note = none;
  owner = record {
    customer_id = actor.customer_id;
    agent_id = actor.agent_id;
    employee_id = actor.employee_id;
  };
  submitted_by_user_id = user_id;
}

-- The first row of its history, which the same call nests in it.
abbrev pub first_change : ℕ → ℕ → Change ManpowerApplicationStatus
first_change i user_id = record {
  row_id = i;
  from_status = none;
  to_status = submitted;
  actor_user_id = some user_id;
  note = none;
}

abbrev pub create_application :
    ApplyManpowerJobDto → ℕ → ℕ → Actor → ℕ → Action Store ManpowerApplication
create_application dto job_id code actor user_id s =
    let application = new_application dto job_id code actor user_id s.next_id in
    pure application (record s {
      applications = application ∷ s.applications;
      history = first_change s.next_id user_id ∷ s.history;
      next_id = s.next_id + 1;
    })

-- `manpowerJob.update({ data: { positionsFilled: { increment: 1 } } })`
abbrev pub increment_filled : ℕ → Store → Store
increment_filled job_id s = record s {
  jobs =
      update_where (λ j. j.id == job_id)
        (λ j. record j { positions_filled = j.positions_filled + 1 }) s.jobs;
}

unfoldable pub apply :
    AuthenticatedUser
    → Option UserProfile
    → ℕ
    → ApplyManpowerJobDto
    → ℕ
    → (ℕ → ℕ)
    → Action Store Detail
apply user profile job_id dto now draw = do
  found ← gets (find_job job_id)
  job ← or_throw found not_found
  throw_if (not job.active) not_found
  throw_if (has_passed job.application_deadline now) conflict
  actor ← acting profile
  application ← transaction (do
    drawn ← gets (λ s. unique_reference draw (has_reference s))
    code ← or_throw drawn failure
    created ← create_application dto job_id code actor user.id
    modify (increment_filled job_id)
    pure created)
  record_audit (application_submitted user.id application.id)
  load_detail application.id

abbrev mine : Option Actor → List ManpowerApplication → List ManpowerApplication
mine none rows = []
mine (some actor) rows = find_many (λ a. is_mine actor a.owner) rows

unfoldable pub list_mine : Option UserProfile → Action Store (List ManpowerApplication)
list_mine profile = gets (λ s. mine (caught (resolve_actor bad_request profile)) s.applications)

unfoldable pub get_one : AuthenticatedUser → Option UserProfile → ℕ → Action Store Detail
get_one user profile i = do
  detail ← load_detail i
  throw_if
      (not (
        includes user.permissions manpower_manage
        || owns_it (caught (resolve_actor bad_request profile)) detail.0.owner))
      forbidden
  pure detail

-- One condition of the staff's list: an undefined one matches every row.
abbrev is_wanted : Option ℕ → ℕ → Bool
is_wanted none column = true
is_wanted (some wanted) column = column == wanted

abbrev rank_of : Option ManpowerApplicationStatus → Option ℕ
rank_of none = none
rank_of (some status) = some (rank status)

unfoldable pub list_applications_admin :
    Option ManpowerApplicationStatus → Option ℕ → Action Store (List ManpowerApplication)
list_applications_admin status job_id = gets (λ s.
    find_many
      (λ (a : ManpowerApplication).
        is_wanted (rank_of status) (rank a.status) && is_wanted job_id a.job_id)
      s.applications)
