-- ===== src/TravelPolicy/Admin/Tenancy.antt =====
-- The administration of one company's travel reaches no other:
-- `assertDepartmentBelongsToCorporate` of apps/api/src/modules/travel-policy/travel-policy.service.ts.
use muhammad_tours_and_trave.Prelude.{
  ℕ, ◌≡◌, ◌≢◌, refl, ◌∙◌, ap, ◌==◌, true, false, not, Bool-cases, inl, inr, Option, none, some,
  List, [], ◌∷◌, bad_request, conflict, not_found, any, find?, find_many, is_some, if◌then◌else◌,
  arith, find?-update_where_ne, Action, ◌>>◌, modify, pure, Keeps, bind-Keeps, guard-Keeps,
  throw_if-Keeps, gets-Keeps, pure-Keeps, modify-Keeps,
}
use muhammad_tours_and_trave.Access.{AuthenticatedUser}
use muhammad_tours_and_trave.TravelPolicy.Model.{
  TravelPolicy, Department, AuditAction, travel_policy_updated, travel_policy_created,
  department_policy_updated, department_policy_created, department_policy_deleted,
  cost_center_created, Store, policy_of, find_department,
}
use muhammad_tours_and_trave.TravelPolicy.Admin.{
  UpsertTravelPolicyDto, CreateCostCenterDto, Request, put_policy, put_department_policy,
  remove_department_policy, post_cost_center, handle, caps_crossed, policy_row, upserted,
  upsert_policy, upsert_department_policy, delete_department_policy, delete_existing,
  create_cost_center, create_row, has_code, write_policy, write_department_policy, record_audit,
  assert_corporate_exists, assert_department_belongs_to_corporate, is_of,
}

upserted-others :
    (default_name i owner : ℕ) (dto : UpsertTravelPolicyDto) (existing : Option TravelPolicy)
    (rows : List TravelPolicy) (j : ℕ)
    → j ≢ owner
    → policy_of j (upserted default_name i owner dto existing rows) ≡ policy_of j rows
upserted-others default_name i owner dto none rows j ne = ground arith
upserted-others default_name i owner dto (some p) rows j ne =
    find?-update_where_ne (λ q. q.owner_id == owner) (λ q. q.owner_id == j)
      (λ q. policy_row default_name q.id owner dto) rows
      (λ q hit. (ground (arith, hit), ground arith))

removed-others :
    (owner j : ℕ) (rows : List TravelPolicy)
    → j ≢ owner
    → policy_of j (find_many (λ p. not (p.owner_id == owner)) rows) ≡ policy_of j rows
removed-others owner j [] ne = refl
removed-others owner j (p ∷ rows) ne = ground (arith, removed-others owner j rows ne)

module _ (corporate other_corporate other_department : ℕ) (s : Store)
    (apart : other_corporate ≢ corporate)
    (foreign : is_of corporate (find_department other_department s) ≡ false) where
  -- The other company's policy and the other department's are as in `s`.
  record Untouched (s' : Store) : Type 0 where
    company : policy_of other_corporate s'.policies ≡ policy_of other_corporate s.policies
    department :
        policy_of other_department s'.department_policies
        ≡ policy_of other_department s.department_policies
    departments : s'.departments ≡ s.departments

  company_exists-Keeps : Keeps Untouched (assert_corporate_exists corporate)
  unfolding assert_corporate_exists
  company_exists-Keeps =
      bind-Keeps Untouched (gets-Keeps Untouched {f = λ s. any (λ i. i == corporate) s.corporates})
        (λ exists. throw_if-Keeps Untouched (not exists) not_found)

  belongs-kept :
      {A : Type 0} (department : ℕ) (m : Action Store A)
      → (is_of corporate (find_department department s) ≡ true → Keeps Untouched m)
      → (s' : Store) → Untouched s'
      → Untouched ((assert_department_belongs_to_corporate corporate department >> m) s').1
  unfolding assert_department_belongs_to_corporate
  belongs-kept department m k s' h =
      let same : find_department department s' ≡ find_department department s =
        ap (λ l. find? (λ (d : Department). d.id == department) l) h.departments in
      elim (Bool-cases (is_of corporate (find_department department s))) [
        | inl own ↦ rw (same, own) ((k own).kept s' h)
        | inr not_own ↦ rw (same, not_own) h
      ]

  -- A department that the guard lets pass is not the other one.
  not_the_other :
      (department : ℕ)
      → is_of corporate (find_department department s) ≡ true
      → other_department ≢ department
  not_the_other department own = λ same. cc

  audited-Keeps :
      {A : Type 0} (user : ℕ) (action : AuditAction) (a : A)
      → Keeps Untouched (modify (record_audit user action) >> pure a)
  audited-Keeps user action a =
      bind-Keeps Untouched
        (modify-Keeps Untouched (λ s' h. record {
          company = h.company;
          department = h.department;
          departments = h.departments;
        }))
        (λ v. pure-Keeps Untouched {a = a})

  module _ (user : AuthenticatedUser) where
    upsert_policy-Keeps :
        (dto : UpsertTravelPolicyDto) → Keeps Untouched (upsert_policy user corporate dto)
    unfolding upsert_policy
    upsert_policy-Keeps dto =
        let I = Untouched in
        guard-Keeps I (caps_crossed dto.hard_fare_cap_amount dto.soft_fare_cap_amount) bad_request
          (λ straight. bind-Keeps I company_exists-Keeps (λ u.
            bind-Keeps I (gets-Keeps I {f = λ s. policy_of corporate s.policies}) (λ existing.
              bind-Keeps I
                (let write : Keeps I (write_policy corporate dto existing) = record {
                  kept = λ s' h. record {
                    company =
                        upserted-others 0 s'.next_id corporate dto existing s'.policies
                          other_corporate apart
                        ∙ h.company;
                    department = h.department;
                    departments = h.departments;
                  };
                } in
                  write)
                (λ p.
                  audited-Keeps user.id
                    (if is_some existing
                      then travel_policy_updated p.id
                      else travel_policy_created p.id)
                    p))))

    upsert_department_policy-Keeps :
        (department : ℕ) (dto : UpsertTravelPolicyDto)
        → Keeps Untouched (upsert_department_policy user corporate department dto)
    unfolding upsert_department_policy
    upsert_department_policy-Keeps department dto =
        let I = Untouched in
        guard-Keeps I (caps_crossed dto.hard_fare_cap_amount dto.soft_fare_cap_amount) bad_request
          (λ straight. record {
            kept = belongs-kept department _ (λ own.
                bind-Keeps I (gets-Keeps I {f = λ s. policy_of department s.department_policies})
                  (λ existing.
                    bind-Keeps I
                      (let write : Keeps I (write_department_policy department dto existing) =
                          record {
                            kept = λ s' h. record {
                              company = h.company;
                              department =
                                  upserted-others 1 s'.next_id department dto existing
                                    s'.department_policies other_department
                                    (not_the_other department own)
                                  ∙ h.department;
                              departments = h.departments;
                            };
                          } in
                        write)
                      (λ p.
                        audited-Keeps user.id
                          (if is_some existing
                            then department_policy_updated p.id
                            else department_policy_created p.id)
                          p)));
          })

    delete_existing-Keeps :
        (department : ℕ) (existing : Option TravelPolicy)
        → other_department ≢ department
        → Keeps Untouched (delete_existing user department existing)
    delete_existing-Keeps department none ne = pure-Keeps Untouched
    delete_existing-Keeps department (some p) ne =
        bind-Keeps Untouched
          (modify-Keeps Untouched (λ s' h. record {
            company = h.company;
            department =
                removed-others department other_department s'.department_policies ne ∙ h.department;
            departments = h.departments;
          }))
          (λ u. audited-Keeps user.id (department_policy_deleted p.id) true)

    delete_department_policy-Keeps :
        (department : ℕ) → Keeps Untouched (delete_department_policy user corporate department)
    unfolding delete_department_policy
    delete_department_policy-Keeps department = record {
      kept = belongs-kept department _ (λ own.
          bind-Keeps Untouched
            (gets-Keeps Untouched {f = λ s. policy_of department s.department_policies})
            (λ existing. delete_existing-Keeps department existing (not_the_other department own)));
    }

    create_cost_center-Keeps :
        (dto : CreateCostCenterDto) → Keeps Untouched (create_cost_center user corporate dto)
    unfolding create_cost_center
    create_cost_center-Keeps dto =
        let I = Untouched in
        bind-Keeps I company_exists-Keeps (λ u.
          bind-Keeps I (gets-Keeps I {f = has_code user corporate dto.code}) (λ clash.
            bind-Keeps I (throw_if-Keeps I clash conflict) (λ v.
              bind-Keeps I
                (let create : Keeps I (create_row user corporate dto) = record {
                  kept = λ s' h. record {
                    company = h.company;
                    department = h.department;
                    departments = h.departments;
                  };
                } in
                  create)
                (λ c. audited-Keeps user.id (cost_center_created c.id) c))))

    handle-Keeps : (request : Request) → Keeps Untouched (handle user corporate request)
    unfolding handle
    handle-Keeps (put_policy dto) =
        bind-Keeps Untouched (upsert_policy-Keeps dto) (λ p. pure-Keeps Untouched {a = tt})
    handle-Keeps (put_department_policy department dto) =
        bind-Keeps Untouched (upsert_department_policy-Keeps department dto)
          (λ p. pure-Keeps Untouched {a = tt})
    handle-Keeps (remove_department_policy department) =
        bind-Keeps Untouched (delete_department_policy-Keeps department)
          (λ p. pure-Keeps Untouched {a = tt})
    handle-Keeps (post_cost_center dto) =
        bind-Keeps Untouched (create_cost_center-Keeps dto) (λ p. pure-Keeps Untouched {a = tt})

-- A request that names one company changes neither the policy of another company nor the policy
-- of a department that does not belong to the company that it names.
pub handle_tenancy :
    (user : AuthenticatedUser) (corporate other_corporate other_department : ℕ) (request : Request)
    (s : Store)
    → other_corporate ≢ corporate
    → is_of corporate (find_department other_department s) ≡ false
    → (policy_of other_corporate (handle user corporate request s).1.policies
        ≡ policy_of other_corporate s.policies)
      × (policy_of other_department (handle user corporate request s).1.department_policies
          ≡ policy_of other_department s.department_policies)
handle_tenancy user corporate other_corporate other_department request s apart foreign =
    let h : Untouched corporate other_corporate other_department s apart foreign
        (handle user corporate request s).1 =
      (handle-Keeps corporate other_corporate other_department s apart foreign user request).kept s
        (record { company = refl; department = refl; departments = refl }) in
    (h.company, h.department)
