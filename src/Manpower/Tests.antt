-- ===== src/Manpower/Tests.antt =====
-- The theorems on the job catalog and the applications, at one job with one application.
use muhammad_tours_and_trave.Prelude.{
  ℕ, zero, suc, refl, true, some, none, arith, [], ◌∷◌, ◌≡◌, map,
}
use muhammad_tours_and_trave.Access.{AuthenticatedUser, UserProfile, resolve_actor, owns_it}
use muhammad_tours_and_trave.Manpower.Model.{
  submitted, allowed, is_valid_transition, ManpowerJob, ApplyManpowerJobDto, ManpowerApplication,
  Store,
}
use muhammad_tours_and_trave.Manpower.Applications.{load_detail, get_one, apply}
use muhammad_tours_and_trave.Manpower.Review.{withdraw}
use muhammad_tours_and_trave.Manpower.Review.Laws.{IsSound}
use muhammad_tours_and_trave.Manpower.Counting.{IsCounted, AreCovered, live_for, apply-IsCounted}

abbrev job : ManpowerJob
job = record {
  id = 1;
  title = 10;
  country = 11;
  employer = none;
  category = none;
  positions_available = 2;
  positions_filled = 1;
  salary_min = none;
  salary_max = none;
  currency = none;
  contract_duration_months = none;
  requirements = none;
  benefits = none;
  application_deadline = some 1000;
  active = true;
}

abbrev details : ApplyManpowerJobDto
details = record {
  applicant_full_name = 3;
  applicant_passport_number = none;
  applicant_nationality = 5;
  date_of_birth = none;
  years_of_experience = none;
  current_occupation = none;
  cover_note = none;
  contact_email = 6;
  contact_phone = 7;
}

abbrev application : ManpowerApplication
application = record {
  id = 2;
  application_reference = 100;
  job_id = 1;
  details = details;
  status = submitted;
  reviewer_note = none;
  owner = record { customer_id = some 4; agent_id = none; employee_id = none };
  submitted_by_user_id = 8;
}

abbrev tables : Store
tables = record {
  jobs = job ∷ [];
  applications = application ∷ [];
  history =
      record {
        row_id = 2;
        from_status = none;
        to_status = submitted;
        actor_user_id = some 8;
        note = none;
      }
      ∷ [];
  audit = [];
  next_id = 3;
}

tables-IsSound : IsSound tables
tables-IsSound = record {
  traced = ((refl, (refl, refl, refl)), tt);
  used = (omega arith, tt);
  issued = (omega arith, tt);
}

tables-IsCounted : IsCounted tables
tables-IsCounted = record {
  counted = (refl, tt);
  used = (omega arith, tt);
  issued = (omega arith, tt);
}

abbrev applicant : AuthenticatedUser
applicant = record { id = 8; permissions = [] }

abbrev customer : UserProfile
customer = record { customer = some 4; agent = none; employee = none }

-- The first draw clashes with the code of the application, and the second is new.
abbrev draw : ℕ → ℕ
draw zero = 100
draw (suc n) = 200

apply-IsCounted_example :
    IsCounted (apply applicant (some customer) 1 details 999 draw tables).1
    × AreCovered (apply applicant (some customer) 1 details 999 draw tables).1
apply-IsCounted_example =
    apply-IsCounted applicant (some customer) 1 details 999 draw tables tables-IsCounted

abbrev after_withdrawal : Store
after_withdrawal = (withdraw applicant (some customer) 2 tables).1

-- The applicant withdraws the only application: nobody applies for the job any more, and its
-- counter is still 1.
withdrawal_keeps_counter :
    (map (λ j. j.positions_filled) after_withdrawal.jobs ≡ 1 ∷ [])
    × (live_for 1 after_withdrawal.applications ≡ 0)
unfolding withdraw get_one load_detail is_valid_transition allowed resolve_actor owns_it
withdrawal_keeps_counter = (refl, refl)
