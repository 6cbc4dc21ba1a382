-- ===== src/Manpower/Counting.antt =====
-- `positionsFilled` in apps/api/src/modules/manpower/manpower.service.ts: the counter goes up with
-- each application and never down. The schema's comment means it to be the number of the
-- applications that are neither withdrawn nor rejected; it is the number of all of them.
use muhammad_tours_and_trave.Prelude.{
  ℕ, suc, ◌+◌, ◌<◌, ◌≡◌, ◌⊎◌, refl, sym, ◌∙◌, Bool, true, false, Option, none, some, inl, inr,
  Bool-cases, Option-cases, Result-cases, ok, err, conflict, not_found, failure, bad_request, arith,
  Error, List, [], ◌∷◌, ◌==◌, ==_iff, All, All-imp, All-find?, All-update_where, update_where,
  if◌then◌else◌, unique_reference, find?-holds, ◌≤◌, find_many, not, ◌&&◌,
}
use muhammad_tours_and_trave.Access.{AuthenticatedUser, UserProfile, Actor, resolve_actor}
use muhammad_tours_and_trave.Manpower.Model.{
  rank, withdrawn, rejected, ManpowerJob, ApplyManpowerJobDto, ManpowerApplication, Store, find_job,
  application_submitted, job_updated,
}
use muhammad_tours_and_trave.Manpower.Jobs.{
  record_audit, CreateManpowerJobDto, create_job, UpdateManpowerJobDto, updated_job, write_job,
  update_job,
}
use muhammad_tours_and_trave.Manpower.Applications.{
  has_passed, has_reference, new_application, create_application, increment_filled, load_detail,
  apply,
}
use muhammad_tours_and_trave.Manpower.Review.Laws.{load_detail-state}

-- How many applications there are for a job.
abbrev pub count_for : ℕ → List ManpowerApplication → ℕ
count_for i [] = 0
count_for i (a ∷ rows) = if a.job_id == i then suc (count_for i rows) else count_for i rows

-- The applications for a job that the schema's comment has in mind: neither withdrawn nor rejected.
abbrev is_live : ManpowerApplication → Bool
is_live a = not (rank a.status == rank withdrawn) && not (rank a.status == rank rejected)

abbrev pub live_for : ℕ → List ManpowerApplication → ℕ
live_for i rows = count_for i (find_many is_live rows)

-- Every counter is the number of all applications for its job, the withdrawn and rejected ones
-- included, and ids are given out once.
pub record IsCounted (s : Store) : Type 0 where
  pub counted : All (λ (j : ManpowerJob). j.positions_filled ≡ count_for j.id s.applications) s.jobs
  pub used : All (λ (a : ManpowerApplication). a.job_id < s.next_id) s.applications
  pub issued : All (λ (j : ManpowerJob). j.id < s.next_id) s.jobs

-- The counter of every job is no less than the number that the schema's comment has in mind.
abbrev pub AreCovered : Store → Type 0
AreCovered s = All (λ (j : ManpowerJob). live_for j.id s.applications ≤ j.positions_filled) s.jobs

count_for-find_many :
    (p : ManpowerApplication → Bool) (i : ℕ) (rows : List ManpowerApplication)
    → count_for i (find_many p rows) ≤ count_for i rows
count_for-find_many p i [] = omega arith
count_for-find_many p i (a ∷ rows) = ground (arith, count_for-find_many p i rows)

IsCounted-AreCovered : (s : Store) → IsCounted s → AreCovered s
IsCounted-AreCovered s h =
    All-imp _ _ s.jobs
      (λ j e.
        let fewer = count_for-find_many is_live j.id s.applications in omega (arith, e, fewer))
      h.counted

count_for-fresh :
    (n : ℕ) (rows : List ManpowerApplication) → All (λ a. a.job_id < n) rows → count_for n rows ≡ 0
count_for-fresh n [] u = refl
count_for-fresh n (a ∷ rows) u = ground (arith, count_for-fresh n rows u.1)

below_suc : (i n : ℕ) → i < n → i < n + 1
below_suc i n h = omega arith

-- One application more, and the counter of its job incremented.
counted-apply :
    (a : ManpowerApplication) (rows : List ManpowerApplication) (i : ℕ) (js : List ManpowerJob)
    → a.job_id ≡ i
    → All (λ j. j.positions_filled ≡ count_for j.id rows) js
    → All
        (λ j. j.positions_filled ≡ count_for j.id (a ∷ rows))
        (update_where
          (λ j. j.id == i)
          (λ j. record j { positions_filled = j.positions_filled + 1 })
          js)
counted-apply a rows i [] e h = tt
counted-apply a rows i (j ∷ js) e h = (step (j.id == i) refl, counted-apply a rows i js e h.1)
  where
    step :
        (c : Bool)
        → (j.id == i) ≡ c
        → let j' = if c then record j { positions_filled = j.positions_filled + 1 } else j in
          j'.positions_filled ≡ count_for j'.id (a ∷ rows)
    step true hit =
        let same : a.job_id ≡ j.id = e ∙ sym ((==_iff j.id i).0 hit) in
        let more : count_for j.id (a ∷ rows) ≡ suc (count_for j.id rows) = ground arith in
        omega (arith, more, h.0)
    step false miss =
        let less : count_for j.id (a ∷ rows) ≡ count_for j.id rows = ground (arith, miss) in
        h.0 ∙ sym less

module _ (user : AuthenticatedUser) (profile : Option UserProfile) (job_id : ℕ)
    (dto : ApplyManpowerJobDto) (now : ℕ) (draw : ℕ → ℕ) (s : Store) where
  -- The tables after an application that went through.
  abbrev applied : ℕ → Actor → Store
  applied code actor =
      (record_audit (application_submitted user.id s.next_id)
        (increment_filled job_id (create_application dto job_id code actor user.id s).1)).1

  applied-IsCounted :
      (code : ℕ) (actor : Actor) {job : ManpowerJob}
      → find_job job_id s ≡ some job
      → IsCounted s
      → IsCounted (applied code actor)
  applied-IsCounted code actor {job} found h =
      let id_job : job.id ≡ job_id =
        (==_iff job.id job_id).0 (find?-holds (λ j. j.id == job_id) s.jobs found) in
      let bound : job.id < s.next_id = All-find? _ (λ j. j.id == job_id) s.jobs h.issued found in
      record {
        counted =
            counted-apply (new_application dto job_id code actor user.id s.next_id) s.applications
              job_id s.jobs refl h.counted;
        used = (omega arith, All-imp _ _ s.applications (λ a. below_suc a.job_id s.next_id) h.used);
        issued =
            All-update_where (λ j. j.id < s.next_id + 1) (λ j. j.id == job_id)
              (λ j. record j { positions_filled = j.positions_filled + 1 }) s.jobs (λ j e lt. lt)
              (All-imp _ _ s.jobs (λ j. below_suc j.id s.next_id) h.issued);
      }

  -- A call that goes through, and what it has found on its way.
  pub record Goes : Type 0 where
    pub job : ManpowerJob
    pub actor : Actor
    pub code : ℕ
    pub found : find_job job_id s ≡ some job
    pub open_ : job.active ≡ true
    pub in_time : has_passed job.application_deadline now ≡ false
    pub somebody : resolve_actor bad_request profile ≡ ok actor
    pub drawn : unique_reference draw (has_reference s) ≡ some code
    pub result :
        apply user profile job_id dto now draw s ≡ load_detail s.next_id (applied code actor)

  -- A call fails and writes nothing, or goes through.
  pub apply-Outcome : ((e : Error) × (apply user profile job_id dto now draw s ≡ (err e, s))) ⊎ Goes
  unfolding apply
  apply-Outcome = elim (Option-cases (find_job job_id s)) [
    | inl missing ↦ inl (not_found, rw missing)
    | inr (job, found) ↦ elim (Bool-cases job.active) [
      | inr closed ↦ inl (not_found, rw (found, closed))
      | inl open_ ↦ elim (Bool-cases (has_passed job.application_deadline now)) [
        | inl late ↦ inl (conflict, simp (found, open_, late))
        | inr in_time ↦ elim (Result-cases (resolve_actor bad_request profile)) [
          | inr (e, nobody) ↦ inl (e, simp (found, open_, in_time, nobody))
          | inl (actor, somebody) ↦ elim (Option-cases (unique_reference draw (has_reference s))) [
            | inl clash ↦ inl (failure, simp (found, open_, in_time, somebody, clash))
            | inr (code, drawn) ↦ inr (record {
              job = job;
              actor = actor;
              code = code;
              found = found;
              open_ = open_;
              in_time = in_time;
              somebody = somebody;
              drawn = drawn;
              result = simp (found, open_, in_time, somebody, drawn);
            })
          ]
        ]
      ]
    ]
  ]

  result-IsCounted : IsCounted s → IsCounted (apply user profile job_id dto now draw s).1
  result-IsCounted h = elim apply-Outcome [
    | inl (e, failed) ↦ rw failed h
    | inr g ↦
        rw (g.result, load_detail-state s.next_id (applied g.code g.actor))
          (applied-IsCounted g.code g.actor g.found h)
  ]

  -- Where every counter is the number of all applications for its job, the withdrawn and rejected
  -- ones included, it is so after any call of apply, however it ends; and no counter is then below
  -- the number of the applications that are neither withdrawn nor rejected.
  pub apply-IsCounted :
      IsCounted s
      → IsCounted (apply user profile job_id dto now draw s).1
        × AreCovered (apply user profile job_id dto now draw s).1
  apply-IsCounted h =
      let after = result-IsCounted h in
      (after, IsCounted-AreCovered (apply user profile job_id dto now draw s).1 after)

-- A job that is put into the catalog has no application yet.
create_job-IsCounted :
    (dto : CreateManpowerJobDto) (actor_user_id : ℕ) (s : Store)
    → IsCounted s
    → IsCounted (create_job dto actor_user_id s).1
unfolding create_job
create_job-IsCounted dto u s h = record {
  counted = (sym (count_for-fresh s.next_id s.applications h.used), h.counted);
  used = All-imp _ _ s.applications (λ a. below_suc a.job_id s.next_id) h.used;
  issued = (omega arith, All-imp _ _ s.jobs (λ j. below_suc j.id s.next_id) h.issued);
}

update_job_missing :
    (i : ℕ) (dto : UpdateManpowerJobDto) (u : ℕ) (s : Store)
    → find_job i s ≡ none
    → update_job i dto u s ≡ (err not_found, s)
unfolding update_job
update_job_missing i dto u s missing = rw missing

update_job_found :
    (i : ℕ) (dto : UpdateManpowerJobDto) (u : ℕ) (s : Store) {job : ManpowerJob}
    → find_job i s ≡ some job
    → update_job i dto u s
      ≡ (ok (updated_job dto job), (record_audit (job_updated u i) (write_job i dto s)).1)
unfolding update_job
update_job_found i dto u s found = rw found

-- The columns that an edit leaves alone.
updated_job-kept :
    (dto : UpdateManpowerJobDto) (i : ℕ) (rows : List ManpowerApplication) (js : List ManpowerJob)
    → All (λ j. j.positions_filled ≡ count_for j.id rows) js
    → All
        (λ j. j.positions_filled ≡ count_for j.id rows)
        (update_where (λ j. j.id == i) (updated_job dto) js)
updated_job-kept dto i rows js h =
    All-update_where (λ (j : ManpowerJob). j.positions_filled ≡ count_for j.id rows)
      (λ j. j.id == i) (updated_job dto) js (λ j hit k. k) h

-- No edit of a job touches its counter.
update_job-IsCounted :
    (i : ℕ) (dto : UpdateManpowerJobDto) (actor_user_id : ℕ) (s : Store)
    → IsCounted s
    → IsCounted (update_job i dto actor_user_id s).1
update_job-IsCounted i dto u s h = elim (Option-cases (find_job i s)) [
  | inl missing ↦ rw (update_job_missing i dto u s missing) h
  | inr (job, found) ↦ rw (update_job_found i dto u s found) (record {
    counted = updated_job-kept dto i s.applications s.jobs h.counted;
    used = h.used;
    issued =
        All-update_where (λ (j : ManpowerJob). j.id < s.next_id) (λ j. j.id == i) (updated_job dto)
          s.jobs (λ j hit k. k) h.issued;
  })
]
