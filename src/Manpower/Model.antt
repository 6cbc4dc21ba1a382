-- ===== src/Manpower/Model.antt =====
-- The statuses of a job application, and the tables of apps/api/src/modules/manpower/. Dates are
-- milliseconds, texts are numbers.
use muhammad_tours_and_trave.Prelude.{ℕ, ◌==◌, Bool, Option, List, [], ◌∷◌, any, find?, Change}
use muhammad_tours_and_trave.Access.{Owner}

pub data ManpowerApplicationStatus : Type 0 where
  submitted under_review shortlisted interview_scheduled selected : ManpowerApplicationStatus
  visa_processing deployed rejected withdrawn : ManpowerApplicationStatus

abbrev pub rank : ManpowerApplicationStatus → ℕ
rank submitted = 0
rank under_review = 1
rank shortlisted = 2
rank interview_scheduled = 3
rank selected = 4
rank visa_processing = 5
rank deployed = 6
rank rejected = 7
rank withdrawn = 8

-- The table inside `assertValidTransition`.
unfoldable pub allowed : ManpowerApplicationStatus → List ManpowerApplicationStatus
allowed submitted = under_review ∷ shortlisted ∷ rejected ∷ withdrawn ∷ []
allowed under_review = shortlisted ∷ rejected ∷ withdrawn ∷ []
allowed shortlisted = interview_scheduled ∷ rejected ∷ withdrawn ∷ []
allowed interview_scheduled = selected ∷ rejected ∷ withdrawn ∷ []
allowed selected = visa_processing ∷ rejected ∷ []
allowed visa_processing = deployed ∷ rejected ∷ []
allowed deployed = []
allowed rejected = []
allowed withdrawn = []

unfoldable pub is_valid_transition : ManpowerApplicationStatus → ManpowerApplicationStatus → Bool
unfolding allowed
is_valid_transition from to = any (λ s. rank s == rank to) (allowed from)

pub record ManpowerJob : Type 0 where
  pub id : ℕ
  pub title : ℕ
  pub country : ℕ
  pub employer : Option ℕ
  pub category : Option ℕ
  pub positions_available : ℕ
  pub positions_filled : ℕ
  pub salary_min : Option ℕ
  pub salary_max : Option ℕ
  pub currency : Option ℕ
  pub contract_duration_months : Option ℕ
  pub requirements : Option ℕ
  pub benefits : Option ℕ
  pub application_deadline : Option ℕ
  pub active : Bool

pub record ApplyManpowerJobDto : Type 0 where
  pub applicant_full_name : ℕ
  pub applicant_passport_number : Option ℕ
  pub applicant_nationality : ℕ
  pub date_of_birth : Option ℕ
  pub years_of_experience : Option ℕ
  pub current_occupation : Option ℕ
  pub cover_note : Option ℕ
  pub contact_email : ℕ
  pub contact_phone : ℕ

pub record ManpowerApplication : Type 0 where
  pub id : ℕ
  pub application_reference : ℕ
  pub job_id : ℕ
  pub details : ApplyManpowerJobDto
  pub status : ManpowerApplicationStatus
  pub reviewer_note : Option ℕ
  pub owner : Owner
  pub submitted_by_user_id : ℕ

pub data AuditEntry : Type 0 where
  job_created job_updated : ℕ → ℕ → AuditEntry
  application_submitted : ℕ → ℕ → AuditEntry
  status_changed :
      ℕ → ℕ → ManpowerApplicationStatus → ManpowerApplicationStatus → Option ℕ → AuditEntry
  application_withdrawn : ℕ → ℕ → AuditEntry

-- The tables, each with its latest row first, and the next id to be given out.
pub record Store : Type 0 where
  pub jobs : List ManpowerJob
  pub applications : List ManpowerApplication
  pub history : List (Change ManpowerApplicationStatus)
  pub audit : List AuditEntry
  pub next_id : ℕ

abbrev pub find_job : ℕ → Store → Option ManpowerJob
find_job i s = find? (λ j. j.id == i) s.jobs

abbrev pub find_application : ℕ → Store → Option ManpowerApplication
find_application i s = find? (λ a. a.id == i) s.applications
