-- ===== src/Visas/Tests.antt =====
-- The theorems on visa applications at a table with one application.
use muhammad_tours_and_trave.Prelude.{ℕ, zero, suc, ◌≡◌, refl, true, some, none, arith, [], ◌∷◌}
use muhammad_tours_and_trave.Roles.{visa_manage}
use muhammad_tours_and_trave.Access.{AuthenticatedUser, UserProfile}
use muhammad_tours_and_trave.Visas.Model.{
  submitted, under_review, is_valid_transition, ApplyVisaDto, UpdateVisaStatusDto, VisaApplication,
  Store,
}
use muhammad_tours_and_trave.Visas.Service.{update_status}
use muhammad_tours_and_trave.Visas.Laws.{IsSound, update_status-IsSound}

abbrev details : ApplyVisaDto
details = record {
  destination_country = 1;
  visa_type = 2;
  travel_date = none;
  applicant_full_name = 3;
  applicant_passport_number = 4;
  applicant_nationality = 5;
  contact_email = 6;
  contact_phone = 7;
}

abbrev application : VisaApplication
application = record {
  id = 1;
  application_reference = 100;
  details = details;
  status = submitted;
  reviewer_note = none;
  owner = record { customer_id = some 4; agent_id = none; employee_id = none };
  submitted_by_user_id = 8;
}

abbrev tables : Store
tables = record {
  applications = application ∷ [];
  history =
      record {
        row_id = 1;
        from_status = none;
        to_status = submitted;
        actor_user_id = some 8;
        note = none;
      }
      ∷ [];
  audit = [];
  next_id = 2;
}

tables-IsSound : IsSound tables
tables-IsSound = record {
  traced = ((refl, (refl, refl, refl)), tt);
  used = (omega arith, tt);
  issued = (omega arith, tt);
}

abbrev officer : AuthenticatedUser
officer = record { id = 9; permissions = visa_manage ∷ [] }

abbrev begin_review : UpdateVisaStatusDto
begin_review = record { to_status = under_review; note = some 55 }

abbrev customer : UserProfile
customer = record { customer = some 4; agent = none; employee = none }

-- Reference codes: the first draw clashes with the code of the application, and the second is new.
abbrev draw : ℕ → ℕ
draw zero = 100
draw (suc n) = 200

update_status-IsSound_example : IsSound (update_status officer 1 begin_review tables).1
update_status-IsSound_example = update_status-IsSound officer 1 begin_review tables tables-IsSound

begin_review-valid : is_valid_transition submitted under_review ≡ true
unfolding is_valid_transition
begin_review-valid = refl
