-- ===== src/Manpower/Review/Laws.antt =====
-- What the moves keep true of the tables, and who may make which.
use muhammad_tours_and_trave.Prelude.{
  ℕ, ◌≡◌, ◌⊎◌, ap, ◌∙◌, List, refl, sym, subst, Bool, true, false, ◌||◌, Option, none, some, inl,
  inr, Bool-cases, Option-cases, ok, err, conflict, not_found, failure, forbidden, bad_request,
  IsAccounted, update-IsAccounted, Change, ◌==◌, ==_iff, ==_refl, find?-holds,
  find?-update_where_any, trail, oldest_first, caught,
}
use muhammad_tours_and_trave.Roles.{manpower_manage, includes}
use muhammad_tours_and_trave.Access.{AuthenticatedUser, UserProfile, resolve_actor, owns_it}
use muhammad_tours_and_trave.Manpower.Model.{
  ManpowerApplicationStatus, submitted, under_review, shortlisted, interview_scheduled, withdrawn,
  is_valid_transition, ManpowerApplication, Store, find_application, status_changed,
  application_withdrawn,
}
use muhammad_tours_and_trave.Manpower.Jobs.{record_audit}
use muhammad_tours_and_trave.Manpower.Applications.{load_detail, get_one}
use muhammad_tours_and_trave.Manpower.Review.{
  UpdateManpowerStatusDto, transition, update_status, withdrawn_by_applicant, withdraw,
}

-- Each application has the status that its own history explains, beginning with the row that
-- its submission wrote; ids are given out once.
abbrev pub IsSound : Store → Type 0
IsSound s =
    IsAccounted is_valid_transition submitted true (λ (a : ManpowerApplication). a.id)
      (λ a. a.status) s.next_id s.history s.applications

pub load_detail-state : (i : ℕ) (s : Store) → (load_detail i s).1 ≡ s
unfolding load_detail
load_detail-state i s = elim (Option-cases (find_application i s)) [
  | inl missing ↦ rw missing
  | inr (a, found) ↦ rw found
]

load_detail_found :
    (i : ℕ) (s : Store) {a : ManpowerApplication}
    → find_application i s ≡ some a
    → load_detail i s ≡ (ok (a, oldest_first (trail i s.history)), s)
unfolding load_detail
load_detail_found i s found = rw found

transition-IsSound :
    (i : ℕ) (a : ManpowerApplication) (to : ManpowerApplicationStatus) (actor : ℕ) (note : Option ℕ)
    (s : Store)
    → find_application i s ≡ some a
    → is_valid_transition a.status to ≡ true
    → IsSound s
    → IsSound (transition a.id a.status to actor note s)
transition-IsSound i a to actor note s found valid h =
    let same : a.id ≡ i = (==_iff a.id i).0 (find?-holds (λ x. x.id == i) s.applications found) in
    subst (λ j. IsSound (transition j a.status to actor note s)) (sym same)
      (update-IsAccounted is_valid_transition submitted true (λ (x : ManpowerApplication). x.id)
        (λ x. x.status) i a to _ _ s.next_id s.history s.applications found valid refl refl refl
        (λ x. refl) (λ x. refl) h)

module _ (user : AuthenticatedUser) (i : ℕ) (dto : UpdateManpowerStatusDto) (s : Store) where
  update_status_missing :
      find_application i s ≡ none → update_status user i dto s ≡ (err not_found, s)
  unfolding update_status
  update_status_missing missing = rw missing

  module _ {a : ManpowerApplication} (found : find_application i s ≡ some a) where
    abbrev updated : Store
    updated =
        (record_audit (status_changed user.id i a.status dto.to_status dto.note)
          (transition a.id a.status dto.to_status user.id dto.note s)).1

    pub update_status_refused :
        is_valid_transition a.status dto.to_status ≡ false
        → update_status user i dto s ≡ (err conflict, s)
    unfolding update_status
    update_status_refused refused = rw (found, refused)

    update_status_valid :
        is_valid_transition a.status dto.to_status ≡ true
        → update_status user i dto s ≡ load_detail i updated
    unfolding update_status
    update_status_valid valid = rw (found, valid)

  -- Whatever status a member of the staff asks for, and whether or not it is granted, every
  -- application still has the status that its own history explains.
  manpower-update_status-IsSound : IsSound s → IsSound (update_status user i dto s).1
  manpower-update_status-IsSound h = elim (Option-cases (find_application i s)) [
    | inl missing ↦ rw (update_status_missing missing) h
    | inr (a, found) ↦ elim (Bool-cases (is_valid_transition a.status dto.to_status)) [
      | inl valid ↦
          rw (update_status_valid found valid, load_detail-state i (updated found))
            (transition-IsSound i a dto.to_status user.id dto.note s found valid h)
      | inr refused ↦ rw (update_status_refused found refused) h
    ]
  ]

load_detail_missing :
    (i : ℕ) (s : Store) → find_application i s ≡ none → load_detail i s ≡ (err failure, s)
unfolding load_detail
load_detail_missing i s missing = rw missing

-- The statuses before an offer is in motion.
abbrev pub is_before_selection : ManpowerApplicationStatus → Bool
is_before_selection submitted = true
is_before_selection under_review = true
is_before_selection shortlisted = true
is_before_selection interview_scheduled = true
is_before_selection _ = false

withdrawable :
    (s : ManpowerApplicationStatus) → is_valid_transition s withdrawn ≡ is_before_selection s
unfolding is_valid_transition
withdrawable submitted = refl
withdrawable _ = refl

abbrev withdrawn_row : ManpowerApplication → ManpowerApplication
withdrawn_row a = record a { status = withdrawn; reviewer_note = some withdrawn_by_applicant }

-- May the user see, and so withdraw, this application?
abbrev pub may_see : AuthenticatedUser → Option UserProfile → ManpowerApplication → Bool
may_see user profile a =
    includes user.permissions manpower_manage
    || owns_it (caught (resolve_actor bad_request profile)) a.owner

module _ (user : AuthenticatedUser) (profile : Option UserProfile) (i : ℕ) (s : Store) where
  module _ {a : ManpowerApplication} (found : find_application i s ≡ some a) where
    abbrev withdrawn_store : Store
    withdrawn_store =
        (record_audit (application_withdrawn user.id i)
          (transition a.id a.status withdrawn user.id (some withdrawn_by_applicant) s)).1

    get_one_seen :
        may_see user profile a ≡ true
        → get_one user profile i s ≡ (ok (a, oldest_first (trail i s.history)), s)
    unfolding get_one
    get_one_seen seen = simp (load_detail_found i s found, seen)

    get_one_hidden : may_see user profile a ≡ false → get_one user profile i s ≡ (err forbidden, s)
    unfolding get_one
    get_one_hidden hidden = simp (load_detail_found i s found, hidden)

    withdraw_forbidden :
        may_see user profile a ≡ false → withdraw user profile i s ≡ (err forbidden, s)
    unfolding withdraw
    withdraw_forbidden hidden = rw (get_one_hidden hidden)

    withdraw_refused :
        may_see user profile a ≡ true
        → is_valid_transition a.status withdrawn ≡ false
        → withdraw user profile i s ≡ (err conflict, s)
    unfolding withdraw
    withdraw_refused seen refused = rw (get_one_seen seen, refused)

    withdraw_valid :
        may_see user profile a ≡ true
        → is_valid_transition a.status withdrawn ≡ true
        → withdraw user profile i s ≡ load_detail i withdrawn_store
    unfolding withdraw
    withdraw_valid seen valid = rw (get_one_seen seen, valid)

  get_one_missing : find_application i s ≡ none → get_one user profile i s ≡ (err failure, s)
  unfolding get_one
  get_one_missing missing = rw (load_detail_missing i s missing)

  withdraw_missing : find_application i s ≡ none → withdraw user profile i s ≡ (err failure, s)
  unfolding withdraw
  withdraw_missing missing = rw (get_one_missing missing)

  -- A withdrawal, too, leaves every application with the status that its own history explains.
  withdraw-IsSound : IsSound s → IsSound (withdraw user profile i s).1
  withdraw-IsSound h = elim (Option-cases (find_application i s)) [
    | inl missing ↦ rw (withdraw_missing missing) h
    | inr (a, found) ↦ elim (Bool-cases (may_see user profile a)) [
      | inr hidden ↦ rw (withdraw_forbidden found hidden) h
      | inl seen ↦ elim (Bool-cases (is_valid_transition a.status withdrawn)) [
        | inr refused ↦ rw (withdraw_refused found seen refused) h
        | inl valid ↦
            rw (withdraw_valid found seen valid, load_detail-state i (withdrawn_store found))
              (transition-IsSound i a withdrawn user.id (some withdrawn_by_applicant) s found valid
                h)
      ]
    ]
  ]

  -- What a user can tell of a call that is to withdraw an application.
  abbrev pub Withdrawn : ManpowerApplication → Type 0
  Withdrawn a =
      (b : ManpowerApplication) × (h : List (Change ManpowerApplicationStatus)) × ((withdraw user
          profile i s).0
        ≡ ok (b, h))
      × (b.status ≡ withdrawn)

  -- A user withdraws an application exactly if he may see it and it stands before the selection:
  -- then the answer shows it withdrawn, and else the call fails and writes nothing.
  withdraw_lem :
      {a : ManpowerApplication}
      → find_application i s ≡ some a
      → ((may_see user profile a ≡ true) × (is_before_selection a.status ≡ true) × Withdrawn a)
        ⊎ ((may_see user profile a ≡ false) × (withdraw user profile i s ≡ (err forbidden, s)))
        ⊎ ((is_before_selection a.status ≡ false) × (withdraw user profile i s ≡ (err conflict, s)))
  withdraw_lem {a} found = elim (Bool-cases (may_see user profile a)) [
    | inr hidden ↦ inr (inl (hidden, withdraw_forbidden found hidden))
    | inl seen ↦ elim (Bool-cases (is_valid_transition a.status withdrawn)) [
      | inr refused ↦
          inr (inr (sym (withdrawable a.status) ∙ refused, withdraw_refused found seen refused))
      | inl valid ↦
          let s' = withdrawn_store found in
          let found' : find_application i s' ≡ some (withdrawn_row a) =
            rw
              (find?-update_where_any (λ x. x.id == a.id) (λ x. x.id == i) withdrawn_row
                s.applications (λ x. refl) found)
              (rw (==_refl a.id)) in
          inl (
            seen,
            sym (withdrawable a.status) ∙ valid,
            (
              withdrawn_row a,
              _,
              ap (λ r. r.0) (withdraw_valid found seen valid ∙ load_detail_found i s' found'),
              refl,
            ),
          )
    ]
  ]
