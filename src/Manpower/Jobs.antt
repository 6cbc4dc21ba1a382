-- ===== src/Manpower/Jobs.antt =====
-- The job catalog of apps/api/src/modules/manpower/manpower.service.ts. `same_text` compares two
-- texts as the database does in its case-insensitive mode.
use muhammad_tours_and_trave.Prelude.{
  ℕ, ◌+◌, Bool, true, false, ◌&&◌, Option, none, some, List, ◌∷◌, ◌==◌, or_else, is_some,
  if◌then◌else◌, Action, not_found, ◌>>=◌, ◌>>◌, pure, gets, modify, or_throw, find_many,
  update_where,
}
use muhammad_tours_and_trave.Manpower.Model.{
  ManpowerJob, AuditEntry, job_created, job_updated, Store, find_job,
}

pub record JobFilter : Type 0 where
  pub country : Option ℕ
  pub category : Option ℕ

-- One condition of a filter, on a column that may be null.
abbrev matches : (ℕ → ℕ → Bool) → Option ℕ → Option ℕ → Bool
matches same_text none column = true
matches same_text (some wanted) none = false
matches same_text (some wanted) (some column) = same_text column wanted

unfoldable pub list_jobs : (ℕ → ℕ → Bool) → JobFilter → Action Store (List ManpowerJob)
list_jobs same_text filter = gets (λ s.
    find_many
      (λ (j : ManpowerJob).
        j.active
        && (matches same_text filter.country (some j.country)
            && matches same_text filter.category j.category))
      s.jobs)

unfoldable pub get_job : ℕ → Action Store ManpowerJob
get_job i = do found ← gets (find_job i); or_throw found not_found

unfoldable pub list_jobs_admin : Action Store (List ManpowerJob)
list_jobs_admin = gets (λ s. s.jobs)

pub record CreateManpowerJobDto : Type 0 where
  pub title : ℕ
  pub country : ℕ
  pub employer : Option ℕ
  pub category : Option ℕ
  pub positions_available : ℕ
  pub salary_min : Option ℕ
  pub salary_max : Option ℕ
  pub currency : Option ℕ
  pub contract_duration_months : Option ℕ
  pub requirements : Option ℕ
  pub benefits : Option ℕ
  pub application_deadline : Option ℕ
  pub active : Option Bool

abbrev pub record_audit : AuditEntry → Action Store (Unit {0})
record_audit entry = modify (λ s. record s { audit = entry ∷ s.audit })

abbrev pub insert_job : CreateManpowerJobDto → Action Store ManpowerJob
insert_job dto s =
    let job : ManpowerJob = record {
      id = s.next_id;
      title = dto.title;
      country = dto.country;
      employer = dto.employer;
      category = dto.category;
      positions_available = dto.positions_available;
      positions_filled = 0;
      salary_min = dto.salary_min;
      salary_max = dto.salary_max;
      currency = dto.currency;
      contract_duration_months = dto.contract_duration_months;
      requirements = dto.requirements;
      benefits = dto.benefits;
      application_deadline = dto.application_deadline;
      active = or_else dto.active true;
    } in
    pure job (record s { jobs = job ∷ s.jobs; next_id = s.next_id + 1 })

unfoldable pub create_job : CreateManpowerJobDto → ℕ → Action Store ManpowerJob
create_job dto actor_user_id = do
  job ← insert_job dto
  record_audit (job_created actor_user_id job.id)
  pure job

pub record UpdateManpowerJobDto : Type 0 where
  pub title : Option ℕ
  pub country : Option ℕ
  pub employer : Option ℕ
  pub category : Option ℕ
  pub positions_available : Option ℕ
  pub salary_min : Option ℕ
  pub salary_max : Option ℕ
  pub currency : Option ℕ
  pub contract_duration_months : Option ℕ
  pub requirements : Option ℕ
  pub benefits : Option ℕ
  pub application_deadline : Option ℕ
  pub active : Option Bool

-- A column that may be null: what is undefined in the request stays.
abbrev kept : Option ℕ → Option ℕ → Option ℕ
kept new old = if is_some new then new else old

abbrev pub updated_job : UpdateManpowerJobDto → ManpowerJob → ManpowerJob
updated_job dto j = record j {
  title = or_else dto.title j.title;
  country = or_else dto.country j.country;
  employer = kept dto.employer j.employer;
  category = kept dto.category j.category;
  positions_available = or_else dto.positions_available j.positions_available;
  salary_min = kept dto.salary_min j.salary_min;
  salary_max = kept dto.salary_max j.salary_max;
  currency = kept dto.currency j.currency;
  contract_duration_months = kept dto.contract_duration_months j.contract_duration_months;
  requirements = kept dto.requirements j.requirements;
  benefits = kept dto.benefits j.benefits;
  application_deadline = kept dto.application_deadline j.application_deadline;
  active = or_else dto.active j.active;
}

abbrev pub write_job : ℕ → UpdateManpowerJobDto → Store → Store
write_job i dto s = record s { jobs = update_where (λ j. j.id == i) (updated_job dto) s.jobs }

unfoldable pub update_job : ℕ → UpdateManpowerJobDto → ℕ → Action Store ManpowerJob
update_job i dto actor_user_id = do
  found ← gets (find_job i)
  existing ← or_throw found not_found
  modify (write_job i dto)
  record_audit (job_updated actor_user_id i)
  pure (updated_job dto existing)
