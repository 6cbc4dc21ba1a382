-- ===== src/Visas/Model.antt =====
-- The statuses of a visa application, and the tables of apps/api/src/modules/visas/.
use muhammad_tours_and_trave.Prelude.{ℕ, ◌==◌, Bool, Option, List, [], ◌∷◌, any, find?, Change}
use muhammad_tours_and_trave.Access.{Owner}

pub data VisaApplicationStatus : Type 0 where
  submitted under_review additional_info_required approved rejected : VisaApplicationStatus

abbrev pub rank : VisaApplicationStatus → ℕ
rank submitted = 0
rank under_review = 1
rank additional_info_required = 2
rank approved = 3
rank rejected = 4

-- The table inside `assertValidTransition`.
unfoldable pub allowed : VisaApplicationStatus → List VisaApplicationStatus
allowed submitted = under_review ∷ additional_info_required ∷ approved ∷ rejected ∷ []
allowed under_review = additional_info_required ∷ approved ∷ rejected ∷ []
allowed additional_info_required = under_review ∷ rejected ∷ []
allowed approved = []
allowed rejected = []

unfoldable pub is_valid_transition : VisaApplicationStatus → VisaApplicationStatus → Bool
unfolding allowed
is_valid_transition from to = any (λ s. rank s == rank to) (allowed from)

-- The fields of a request, which the row repeats.
pub record ApplyVisaDto : Type 0 where
  pub destination_country : ℕ
  pub visa_type : ℕ
  pub travel_date : Option ℕ
  pub applicant_full_name : ℕ
  pub applicant_passport_number : ℕ
  pub applicant_nationality : ℕ
  pub contact_email : ℕ
  pub contact_phone : ℕ

pub record UpdateVisaStatusDto : Type 0 where
  pub to_status : VisaApplicationStatus
  pub note : Option ℕ

pub record VisaApplication : Type 0 where
  pub id : ℕ
  pub application_reference : ℕ
  pub details : ApplyVisaDto
  pub status : VisaApplicationStatus
  pub reviewer_note : Option ℕ
  pub owner : Owner
  pub submitted_by_user_id : ℕ

pub data AuditEntry : Type 0 where
  application_submitted : ℕ → ℕ → ℕ → AuditEntry
  status_changed : ℕ → ℕ → VisaApplicationStatus → VisaApplicationStatus → Option ℕ → AuditEntry

-- The tables, each with its latest row first, and the next id to be given out.
pub record Store : Type 0 where
  pub applications : List VisaApplication
  pub history : List (Change VisaApplicationStatus)
  pub audit : List AuditEntry
  pub next_id : ℕ

abbrev pub find_application : ℕ → Store → Option VisaApplication
find_application i s = find? (λ a. a.id == i) s.applications
