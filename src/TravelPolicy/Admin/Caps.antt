-- ===== src/TravelPolicy/Admin/Caps.antt =====
-- The caps of a policy never cross:
-- apps/api/src/modules/travel-policy/travel-policy.service.ts.
use muhammad_tours_and_trave.Prelude.{
  ℕ, ◌≡◌, ◌==◌, ℤ, ◌≤ℤ◌, round2, pos, negsuc, Bool, true, false, not, Bool-cases, inl, inr, Option,
  none, some, List, [], ◌∷◌, bad_request, not_found, All, All-update_where, any, find_many, is_some,
  if◌then◌else◌, arith, Keeps, bind-Keeps, throw_if-Keeps, gets-Keeps, pure-Keeps, modify-Keeps,
  guard-Keeps, conflict, modify, ◌>>◌, pure,
}
use muhammad_tours_and_trave.Access.{AuthenticatedUser}
use muhammad_tours_and_trave.TravelPolicy.Model.{
  TravelPolicy, AuditAction, travel_policy_updated, travel_policy_created,
  department_policy_updated, department_policy_created, department_policy_deleted,
  cost_center_created, Store, policy_of, find_department,
}
use muhammad_tours_and_trave.TravelPolicy.Admin.{
  UpsertTravelPolicyDto, CreateCostCenterDto, Request, put_policy, put_department_policy,
  remove_department_policy, post_cost_center, handle, caps_crossed, to_column, policy_row, upserted,
  upsert_policy, upsert_department_policy, delete_department_policy, delete_existing,
  create_cost_center, create_row, has_code, write_policy, write_department_policy, record_audit,
  assert_corporate_exists, assert_department_belongs_to_corporate, is_of,
}

-- Whoever is above the hard cap is above the soft one.
abbrev pub AreOrdered : Option ℤ → Option ℤ → Type 0
AreOrdered (some hard) (some soft) = soft ≤ℤ hard
AreOrdered _ _ = Unit {0}

abbrev pub IsOrdered : TravelPolicy → Type 0
IsOrdered p = AreOrdered p.hard_fare_cap_amount p.soft_fare_cap_amount

pub record AllOrdered (s : Store) : Type 0 where
  pub of_companies : All IsOrdered s.policies
  pub of_departments : All IsOrdered s.department_policies

round2_mono : (a b : ℤ) → a ≤ℤ b → round2 a ≤ℤ round2 b
unfolding round2
round2_mono (pos a) (pos b) h = ground arith
round2_mono (pos a) (negsuc b) h = absurd (omega arith)
round2_mono (negsuc a) (pos b) h = ground arith
round2_mono (negsuc a) (negsuc b) h = ground arith

to_column-AreOrdered :
    (hard soft : Option ℤ)
    → caps_crossed hard soft ≡ false
    → AreOrdered (to_column hard) (to_column soft)
to_column-AreOrdered none soft h = tt
to_column-AreOrdered (some hard) none h = tt
to_column-AreOrdered (some hard) (some soft) h = round2_mono soft hard (ground arith)

module _ (default_name i owner : ℕ) (dto : UpsertTravelPolicyDto)
    (straight : caps_crossed dto.hard_fare_cap_amount dto.soft_fare_cap_amount ≡ false) where
  row-IsOrdered : (j : ℕ) → IsOrdered (policy_row default_name j owner dto)
  row-IsOrdered j = to_column-AreOrdered dto.hard_fare_cap_amount dto.soft_fare_cap_amount straight

  upserted-IsOrdered :
      (existing : Option TravelPolicy) (rows : List TravelPolicy)
      → All IsOrdered rows
      → All IsOrdered (upserted default_name i owner dto existing rows)
  upserted-IsOrdered none rows h = (row-IsOrdered i, h)
  upserted-IsOrdered (some p) rows h =
      All-update_where IsOrdered (λ q. q.owner_id == owner)
        (λ q. policy_row default_name q.id owner dto) rows (λ q hit k. row-IsOrdered q.id) h

find_many-IsOrdered :
    (p : TravelPolicy → Bool) (rows : List TravelPolicy)
    → All IsOrdered rows
    → All IsOrdered (find_many p rows)
find_many-IsOrdered p [] h = tt
find_many-IsOrdered p (x ∷ rows) h = elim (Bool-cases (p x)) [
  | inl hit ↦ rw hit (h.0, find_many-IsOrdered p rows h.1)
  | inr miss ↦ rw miss (find_many-IsOrdered p rows h.1)
]

corporate_exists-Keeps : (corporate : ℕ) → Keeps AllOrdered (assert_corporate_exists corporate)
unfolding assert_corporate_exists
corporate_exists-Keeps corporate =
    bind-Keeps AllOrdered (gets-Keeps AllOrdered {f = λ s. any (λ i. i == corporate) s.corporates})
      (λ exists. throw_if-Keeps AllOrdered (not exists) not_found)

department_belongs-Keeps :
    (corporate department : ℕ)
    → Keeps AllOrdered (assert_department_belongs_to_corporate corporate department)
unfolding assert_department_belongs_to_corporate
department_belongs-Keeps corporate department =
    bind-Keeps AllOrdered (gets-Keeps AllOrdered {f = find_department department})
      (λ found. throw_if-Keeps AllOrdered (not (is_of corporate found)) not_found)

audit-Keeps :
    (user : ℕ) (action : AuditAction) (s : Store)
    → AllOrdered s
    → AllOrdered (record_audit user action s)
audit-Keeps user action s h = record {
  of_companies = h.of_companies;
  of_departments = h.of_departments;
}

module _ (user : AuthenticatedUser) (corporate : ℕ) where
  audited-Keeps :
      {A : Type 0} (action : AuditAction) (a : A)
      → Keeps AllOrdered (modify (record_audit user.id action) >> pure a)
  audited-Keeps action a =
      bind-Keeps AllOrdered (modify-Keeps AllOrdered (audit-Keeps user.id action))
        (λ v. pure-Keeps AllOrdered {a = a})

  upsert_policy-Keeps :
      (dto : UpsertTravelPolicyDto) → Keeps AllOrdered (upsert_policy user corporate dto)
  unfolding upsert_policy
  upsert_policy-Keeps dto =
      let I = AllOrdered in
      guard-Keeps I (caps_crossed dto.hard_fare_cap_amount dto.soft_fare_cap_amount) bad_request
        (λ straight. bind-Keeps I (corporate_exists-Keeps corporate) (λ u.
          bind-Keeps I (gets-Keeps I {f = λ s. policy_of corporate s.policies}) (λ existing.
            bind-Keeps I
              (let write : Keeps I (write_policy corporate dto existing) = record {
                kept = λ s h. record {
                  of_companies =
                      upserted-IsOrdered 0 s.next_id corporate dto straight existing s.policies
                        h.of_companies;
                  of_departments = h.of_departments;
                };
              } in
                write)
              (λ p.
                audited-Keeps
                  (if is_some existing
                    then travel_policy_updated p.id
                    else travel_policy_created p.id)
                  p))))

  upsert_department_policy-Keeps :
      (department : ℕ) (dto : UpsertTravelPolicyDto)
      → Keeps AllOrdered (upsert_department_policy user corporate department dto)
  unfolding upsert_department_policy
  upsert_department_policy-Keeps department dto =
      let I = AllOrdered in
      guard-Keeps I (caps_crossed dto.hard_fare_cap_amount dto.soft_fare_cap_amount) bad_request
        (λ straight. bind-Keeps I (department_belongs-Keeps corporate department) (λ u.
          bind-Keeps I (gets-Keeps I {f = λ s. policy_of department s.department_policies})
            (λ existing.
              bind-Keeps I
                (let write : Keeps I (write_department_policy department dto existing) = record {
                  kept = λ s h. record {
                    of_companies = h.of_companies;
                    of_departments =
                        upserted-IsOrdered 1 s.next_id department dto straight existing
                          s.department_policies h.of_departments;
                  };
                } in
                  write)
                (λ p.
                  audited-Keeps
                    (if is_some existing
                      then department_policy_updated p.id
                      else department_policy_created p.id)
                    p))))

  delete_existing-Keeps :
      (department : ℕ) (existing : Option TravelPolicy)
      → Keeps AllOrdered (delete_existing user department existing)
  delete_existing-Keeps department none = pure-Keeps AllOrdered
  delete_existing-Keeps department (some p) =
      let I = AllOrdered in
      bind-Keeps I
        (modify-Keeps I (λ s h. record {
          of_companies = h.of_companies;
          of_departments = find_many-IsOrdered _ s.department_policies h.of_departments;
        }))
        (λ u. audited-Keeps (department_policy_deleted p.id) true)

  delete_department_policy-Keeps :
      (department : ℕ) → Keeps AllOrdered (delete_department_policy user corporate department)
  unfolding delete_department_policy
  delete_department_policy-Keeps department =
      let I = AllOrdered in
      bind-Keeps I (department_belongs-Keeps corporate department) (λ u.
        bind-Keeps I (gets-Keeps I {f = λ s. policy_of department s.department_policies})
          (λ existing. delete_existing-Keeps department existing))

  create_cost_center-Keeps :
      (dto : CreateCostCenterDto) → Keeps AllOrdered (create_cost_center user corporate dto)
  unfolding create_cost_center
  create_cost_center-Keeps dto =
      let I = AllOrdered in
      bind-Keeps I (corporate_exists-Keeps corporate) (λ u.
        bind-Keeps I (gets-Keeps I {f = has_code user corporate dto.code}) (λ clash.
          bind-Keeps I (throw_if-Keeps I clash conflict) (λ v.
            bind-Keeps I
              (let create : Keeps I (create_row user corporate dto) = record {
                kept = λ s h. record {
                  of_companies = h.of_companies;
                  of_departments = h.of_departments;
                };
              } in
                create)
              (λ c. audited-Keeps (cost_center_created c.id) c))))

  handle-Keeps : (request : Request) → Keeps AllOrdered (handle user corporate request)
  unfolding handle
  handle-Keeps (put_policy dto) =
      bind-Keeps AllOrdered (upsert_policy-Keeps dto) (λ p. pure-Keeps AllOrdered {a = tt})
  handle-Keeps (put_department_policy department dto) =
      bind-Keeps AllOrdered (upsert_department_policy-Keeps department dto)
        (λ p. pure-Keeps AllOrdered {a = tt})
  handle-Keeps (remove_department_policy department) =
      bind-Keeps AllOrdered (delete_department_policy-Keeps department)
        (λ p. pure-Keeps AllOrdered {a = tt})
  handle-Keeps (post_cost_center dto) =
      bind-Keeps AllOrdered (create_cost_center-Keeps dto) (λ p. pure-Keeps AllOrdered {a = tt})

  -- Whatever is asked of the administration, and however it ends, no policy has a hard cap below
  -- its soft cap: what is over the hard cap is over both.
  pub handle-AllOrdered :
      (request : Request) (s : Store)
      → AllOrdered s
      → AllOrdered (handle user corporate request s).1
  handle-AllOrdered request s h = (handle-Keeps request).kept s h
