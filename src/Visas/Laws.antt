-- ===== src/Visas/Laws.antt =====
-- What the service keeps true of its tables, and what becomes of an application.
use muhammad_tours_and_trave.Prelude.{
  ℕ, ◌≡◌, ◌⊎◌, ==_refl, if◌then◌else◌, is_some, ◌∷◌, Result-cases, refl, true, false, Option, none,
  some, inl, inr, Bool-cases, Option-cases, ok, err, conflict, not_found, failure, bad_request,
  arith, Error, IsAccounted, update-IsAccounted, create-IsAccounted, Change, ◌==◌, unique_reference,
  find?-update_where, trail, oldest_first, ◌++◌, [], ◌∷◌,
}
use muhammad_tours_and_trave.Access.{AuthenticatedUser, UserProfile, Actor, resolve_actor}
use muhammad_tours_and_trave.Visas.Model.{
  VisaApplicationStatus, submitted, approved, rejected, is_valid_transition, ApplyVisaDto,
  UpdateVisaStatusDto, VisaApplication, status_changed, application_submitted, Store,
  find_application,
}
use muhammad_tours_and_trave.Visas.Service.{
  load_detail, has_reference, create_application, record_audit, apply, write_status, update_status,
}

-- Each application has the status that its own history explains, beginning with the row that
-- its submission wrote; ids are given out once.
abbrev pub IsSound : Store → Type 0
IsSound s =
    IsAccounted is_valid_transition submitted true (λ (a : VisaApplication). a.id) (λ a. a.status)
      s.next_id s.history s.applications

load_detail-state : (i : ℕ) (s : Store) → (load_detail i s).1 ≡ s
unfolding load_detail
load_detail-state i s = elim (Option-cases (find_application i s)) [
  | inl missing ↦ rw missing
  | inr (a, found) ↦ rw found
]

load_detail_found :
    (i : ℕ) (s : Store) {a : VisaApplication}
    → find_application i s ≡ some a
    → (load_detail i s).0 ≡ ok (a, oldest_first (trail i s.history))
unfolding load_detail
load_detail_found i s found = rw found

decided_final :
    (from to : VisaApplicationStatus)
    → (from ≡ approved) ⊎ (from ≡ rejected)
    → is_valid_transition from to ≡ false
unfolding is_valid_transition
decided_final from to decided = ground arith

module _ (user : AuthenticatedUser) (i : ℕ) (dto : UpdateVisaStatusDto) (s : Store) where
  abbrev changed : VisaApplication → Change VisaApplicationStatus
  changed a = record {
    row_id = i;
    from_status = some a.status;
    to_status = dto.to_status;
    actor_user_id = some user.id;
    note = dto.note;
  }

  -- The tables after an update that went through.
  abbrev updated : VisaApplication → Store
  updated a =
      (record_audit (status_changed user.id i a.status dto.to_status dto.note)
        (write_status i dto a user.id s)).1

  update_status_missing :
      find_application i s ≡ none → update_status user i dto s ≡ (err not_found, s)
  unfolding update_status
  update_status_missing missing = rw missing

  module _ {a : VisaApplication} (found : find_application i s ≡ some a) where
    pub update_status_refused :
        is_valid_transition a.status dto.to_status ≡ false
        → update_status user i dto s ≡ (err conflict, s)
    unfolding update_status
    update_status_refused refused = rw (found, refused)

    update_status_valid :
        is_valid_transition a.status dto.to_status ≡ true
        → update_status user i dto s ≡ load_detail i (updated a)
    unfolding update_status
    update_status_valid valid = rw (found, valid)

    updated-IsSound :
        is_valid_transition a.status dto.to_status ≡ true → IsSound s → IsSound (updated a)
    updated-IsSound valid h =
        update-IsAccounted is_valid_transition submitted true (λ (x : VisaApplication). x.id)
          (λ x. x.status) i a dto.to_status _ _ s.next_id s.history s.applications found valid refl
          refl refl (λ x. refl) (λ x. refl) h

  -- Whatever status a member of the staff asks for, and whether or not it is granted, every
  -- application still has the status that its own history explains.
  pub update_status-IsSound : IsSound s → IsSound (update_status user i dto s).1
  update_status-IsSound h = elim (Option-cases (find_application i s)) [
    | inl missing ↦ rw (update_status_missing missing) h
    | inr (a, found) ↦ elim (Bool-cases (is_valid_transition a.status dto.to_status)) [
      | inl valid ↦
          rw (update_status_valid found valid, load_detail-state i (updated a))
            (updated-IsSound found valid h)
      | inr refused ↦ rw (update_status_refused found refused) h
    ]
  ]

  -- A decided application stays decided: once approved or rejected, no update goes through.
  update_status_decided :
      {a : VisaApplication}
      → find_application i s ≡ some a
      → (a.status ≡ approved) ⊎ (a.status ≡ rejected)
      → update_status user i dto s ≡ (err conflict, s)
  update_status_decided {a} found decided =
      update_status_refused found (decided_final a.status dto.to_status decided)

  -- An allowed update answers with the application in its new status, and with a history that
  -- has grown by the row of this change.
  update_status_answers :
      {a : VisaApplication}
      → find_application i s ≡ some a
      → is_valid_transition a.status dto.to_status ≡ true
      → (b : VisaApplication) × (c : Change VisaApplicationStatus) × ((update_status user i dto s).0
          ≡ ok (b, oldest_first (trail i s.history) ++ (c ∷ [])))
        × (b.status ≡ dto.to_status)
        × (c.from_status ≡ some a.status)
        × (c.to_status ≡ dto.to_status)
        × (b.details ≡ a.details)
  update_status_answers {a} found valid =
      let s' = updated a in
      let b = record a {
        status = dto.to_status;
        reviewer_note = if is_some dto.note then dto.note else a.reviewer_note;
      } in
      let found' : find_application i s' ≡ some b =
        find?-update_where (λ x. x.id == i) _ s.applications (λ x. refl) found in
      (
        b,
        changed a,
        rw (update_status_valid found valid, load_detail_found i s' found', ==_refl i),
        refl,
        refl,
        refl,
        refl,
      )

module _ (user : AuthenticatedUser) (profile : Option UserProfile) (dto : ApplyVisaDto)
    (draw : ℕ → ℕ) (s : Store) where
  -- The tables after an application.
  abbrev applied : ℕ → Actor → Store
  applied code actor =
      (record_audit (application_submitted user.id s.next_id code)
        (create_application dto code actor user.id s).1).1

  apply_no_profile :
      {e : Error}
      → resolve_actor bad_request profile ≡ err e
      → apply user profile dto draw s ≡ (err e, s)
  unfolding apply
  apply_no_profile nobody = rw nobody

  apply_no_code :
      {actor : Actor}
      → resolve_actor bad_request profile ≡ ok actor
      → unique_reference draw (has_reference s) ≡ none
      → apply user profile dto draw s ≡ (err failure, s)
  unfolding apply
  apply_no_code somebody clash = simp (somebody, clash)

  apply_done :
      {actor : Actor} {code : ℕ}
      → resolve_actor bad_request profile ≡ ok actor
      → unique_reference draw (has_reference s) ≡ some code
      → apply user profile dto draw s ≡ load_detail s.next_id (applied code actor)
  unfolding apply
  apply_done somebody drawn = simp (somebody, drawn)

  -- Whoever applies, and whether or not it goes through, every application, the new one
  -- included, has the status that its own history explains.
  apply-IsSound : IsSound s → IsSound (apply user profile dto draw s).1
  apply-IsSound h = elim (Result-cases (resolve_actor bad_request profile)) [
    | inr (e, nobody) ↦ rw (apply_no_profile nobody) h
    | inl (actor, somebody) ↦ elim (Option-cases (unique_reference draw (has_reference s))) [
      | inl clash ↦ rw (apply_no_code somebody clash) h
      | inr (code, drawn) ↦
          rw (apply_done somebody drawn, load_detail-state s.next_id (applied code actor))
            (create-IsAccounted is_valid_transition submitted true (λ (x : VisaApplication). x.id)
              (λ x. x.status) _ _ s.next_id s.history s.applications refl refl refl refl refl refl
              h)
    ]
  ]
