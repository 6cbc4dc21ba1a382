-- ===== src/Prelude/History.antt =====
-- The audit trail of a row that carries a status: the rows of a `...StatusHistory` table, the
-- latest first, and the lemma that every service which writes status and trail together shares.
use Prim.Native.Nat.{ℕ, ◌+◌, ◌≤◌, ◌<◌}
use mathlib.Core.Path.{◌≡◌, refl, sym, ◌∙◌, ap, subst, subst₂}
use mathlib.Core.Logic.{◌≢◌}
use mathlib.Core.Bool.{Bool, true, false}
use mathlib.Core.Option.{Option, none, some}
use mathlib.Core.List.{List, [], ◌∷◌, ◌++◌}
use native.Mathlib.Omega.{arith}
use muhammad_tours_and_trave.Prelude.Tests.{◌==◌, ==_iff, if◌then◌else◌}
use muhammad_tours_and_trave.Prelude.Lists.{All, All-imp}
use muhammad_tours_and_trave.Prelude.Table.{
  find?, find_many, update_where, find?-holds, All-find?, All-update_where,
}

-- A row of the history table. Notes and reasons are numbered texts.
pub record Change (S : Type 0) : Type 0 where
  pub row_id : ℕ
  pub from_status : Option S
  pub to_status : S
  pub actor_user_id : Option ℕ
  pub note : Option ℕ

module _ {S : Type 0} where
  -- The rows of the table that belong to one id.
  abbrev pub trail : ℕ → List (Change S) → List (Change S)
  trail i h = find_many (λ c. c.row_id == i) h

  -- The rows in the order in which they were written.
  abbrev pub oldest_first : List (Change S) → List (Change S)
  oldest_first [] = []
  oldest_first (c ∷ h) = oldest_first h ++ (c ∷ [])

  -- No row of the table belongs to an id that was not given out yet.
  abbrev pub IsBelow : ℕ → List (Change S) → Type 0
  IsBelow n h = All (λ c. c.row_id < n) h

  pub trail-fresh : (n : ℕ) (h : List (Change S)) → IsBelow n h → trail n h ≡ []
  trail-fresh n [] b = refl
  trail-fresh n (c ∷ h) b = ground (arith, trail-fresh n h b.1)

  trail-hit :
      (i : ℕ) (c : Change S) (h : List (Change S)) → c.row_id ≡ i → trail i (c ∷ h) ≡ c ∷ trail i h
  trail-hit i c h e = ground arith

  trail-miss :
      (i : ℕ) (c : Change S) (h : List (Change S)) → c.row_id ≢ i → trail i (c ∷ h) ≡ trail i h
  trail-miss i c h e = ground arith

  pub IsBelow-mono : (m n : ℕ) (h : List (Change S)) → m ≤ n → IsBelow m h → IsBelow n h
  IsBelow-mono m n h le = All-imp _ _ h (λ c lt. omega arith)

-- `rooted` says whether the creation of a row writes a first row of its trail, from null.
module _ {S : Type 0} (allowed : S → S → Bool) (start : S) (rooted : Bool) where
  -- The trail explains the status: it ends there, each row begins where the one before it
  -- ended, each step is allowed, and it begins at the first status.
  abbrev pub IsTrail : S → List (Change S) → Type 0
  IsTrail s [] = (rooted ≡ false) × (s ≡ start)
  IsTrail s (c ∷ r) = (c.to_status ≡ s) × (elim c.from_status [
    | none ↦ (rooted ≡ true) × (s ≡ start) × (r ≡ [])
    | some f ↦ (allowed f s ≡ true) × IsTrail f r
  ])

  -- One trail explains one status.
  pub IsTrail-unique : (s t : S) (l : List (Change S)) → IsTrail s l → IsTrail t l → s ≡ t
  IsTrail-unique s t [] p q = p.1 ∙ sym q.1
  IsTrail-unique s t (c ∷ r) p q = sym p.0 ∙ q.0

  IsTrail-cons :
      (s t : S) (c : Change S) (r : List (Change S))
      → c.from_status ≡ some s
      → c.to_status ≡ t
      → allowed s t ≡ true
      → IsTrail s r
      → IsTrail t (c ∷ r)
  IsTrail-cons s t c r cf ct ok k = (ct, rw cf (ok, k))

  module _ {A : Type 0} (id_of : A → ℕ) (status_of : A → S) where
    -- Every row of the table has the status that its trail explains.
    abbrev pub IsTraced : List (Change S) → List A → Type 0
    IsTraced h rows = All (λ a. IsTrail (status_of a) (trail (id_of a) h)) rows

    -- A transaction that sets the status of the rows with one id and writes the row of the trail.
    pub update-IsTraced :
        (i : ℕ) (a : A) (t : S) (c : Change S) (f : A → A) (h : List (Change S)) (rows : List A)
        → find? (λ x. id_of x == i) rows ≡ some a
        → allowed (status_of a) t ≡ true
        → c.row_id ≡ i
        → c.from_status ≡ some (status_of a)
        → c.to_status ≡ t
        → ((x : A) → id_of (f x) ≡ id_of x)
        → ((x : A) → status_of (f x) ≡ t)
        → IsTraced h rows
        → IsTraced (c ∷ h) (update_where (λ x. id_of x == i) f rows)
    update-IsTraced i a t c f h rows e ok ci cf ct fid fst traced = go rows traced
      where
        found_id : id_of a ≡ i
        found_id = (==_iff (id_of a) i).0 (find?-holds (λ x. id_of x == i) rows e)

        found : IsTrail (status_of a) (trail (id_of a) h)
        found = All-find? _ (λ x. id_of x == i) rows traced e

        step :
            (x : A) (b : Bool)
            → (id_of x == i) ≡ b
            → IsTrail (status_of x) (trail (id_of x) h)
            → IsTrail
                (status_of (if b then f x else x))
                (trail (id_of (if b then f x else x)) (c ∷ h))
        step x true hit k =
            let same : id_of x ≡ i = (==_iff (id_of x) i).0 hit in
            let same' : id_of a ≡ id_of (f x) = found_id ∙ sym same ∙ sym (fid x) in
            subst₂ (λ s l. IsTrail s l) (sym (fst x))
              (sym (trail-hit (id_of (f x)) c h (ci ∙ sym found_id ∙ same')))
              (IsTrail-cons (status_of a) t c (trail (id_of (f x)) h) cf ct ok
                (subst (λ j. IsTrail (status_of a) (trail j h)) same' found))
        step x false miss k = rw (trail-miss (id_of x) c h (ground (arith, miss))) k

        go : (l : List A) → IsTraced h l → IsTraced (c ∷ h) (update_where (λ x. id_of x == i) f l)
        go [] k = tt
        go (x ∷ l) k = (step x (id_of x == i) refl k.0, go l k.1)

    -- A new row, under an id that no row of the trail carries, with the first row of its trail.
    pub create-IsTraced :
        (n : ℕ) (a : A) (c : Change S) (h : List (Change S)) (rows : List A)
        → rooted ≡ true
        → IsBelow n h
        → All (λ x. id_of x < n) rows
        → id_of a ≡ n
        → status_of a ≡ start
        → c.row_id ≡ n
        → c.from_status ≡ none
        → c.to_status ≡ start
        → IsTraced h rows
        → IsTraced (c ∷ h) (a ∷ rows)
    create-IsTraced n a c h rows root below older ia sa ci cf ct traced =
        (first, go rows older traced)
      where
        first : IsTrail (status_of a) (trail (id_of a) (c ∷ h))
        first =
            subst₂ (λ s l. IsTrail s l) (sym sa) (sym (trail-hit (id_of a) c h (ci ∙ sym ia)))
              (ct, rw cf (root, refl, ap (λ j. trail j h) ia ∙ trail-fresh n h below))

        go : (l : List A) → All (λ x. id_of x < n) l → IsTraced h l → IsTraced (c ∷ h) l
        go [] o k = tt
        go (x ∷ l) o k = (rw (trail-miss (id_of x) c h (omega arith)) k.0, go l o.1 k.1)

    -- The tables of a service that writes status and trail together: every status is explained,
    -- and ids are given out once.
    pub record IsAccounted (n : ℕ) (h : List (Change S)) (rows : List A) : Type 0 where
      pub traced : IsTraced h rows
      pub used : IsBelow n h
      pub issued : All (λ a. id_of a < n) rows

    pub update-IsAccounted :
        (i : ℕ) (a : A) (t : S) (c : Change S) (f : A → A) (n : ℕ) (h : List (Change S))
        (rows : List A)
        → find? (λ x. id_of x == i) rows ≡ some a
        → allowed (status_of a) t ≡ true
        → c.row_id ≡ i
        → c.from_status ≡ some (status_of a)
        → c.to_status ≡ t
        → ((x : A) → id_of (f x) ≡ id_of x)
        → ((x : A) → status_of (f x) ≡ t)
        → IsAccounted n h rows
        → IsAccounted n (c ∷ h) (update_where (λ x. id_of x == i) f rows)
    update-IsAccounted i a t c f n h rows found ok ci cf ct fid fst k =
        let id_a : id_of a ≡ i =
          (==_iff (id_of a) i).0 (find?-holds (λ x. id_of x == i) rows found) in
        let bound : id_of a < n = All-find? _ (λ x. id_of x == i) rows k.issued found in
        record {
          traced = update-IsTraced i a t c f h rows found ok ci cf ct fid fst k.traced;
          used = (omega arith, k.used);
          issued =
              All-update_where (λ x. id_of x < n) (λ x. id_of x == i) f rows
                (λ x hit lt. subst (λ j. j < n) (sym (fid x)) lt) k.issued;
        }

    pub create-IsAccounted :
        (a : A) (c : Change S) (n : ℕ) (h : List (Change S)) (rows : List A)
        → rooted ≡ true
        → id_of a ≡ n
        → status_of a ≡ start
        → c.row_id ≡ n
        → c.from_status ≡ none
        → c.to_status ≡ start
        → IsAccounted n h rows
        → IsAccounted (n + 1) (c ∷ h) (a ∷ rows)
    create-IsAccounted a c n h rows root ia sa ci cf ct k = record {
      traced = create-IsTraced n a c h rows root k.used k.issued ia sa ci cf ct k.traced;
      used = (omega arith, IsBelow-mono n (n + 1) h (omega arith) k.used);
      issued = (omega arith, All-imp _ _ rows (λ x (lt : id_of x < n). omega arith) k.issued);
    }

    -- A new row whose creation writes no row of the trail.
    pub insert-IsAccounted :
        (a : A) (n : ℕ) (h : List (Change S)) (rows : List A)
        → rooted ≡ false
        → id_of a ≡ n
        → status_of a ≡ start
        → IsAccounted n h rows
        → IsAccounted (n + 1) h (a ∷ rows)
    insert-IsAccounted a n h rows root ia sa k =
        let empty : trail (id_of a) h ≡ [] = ap (λ j. trail j h) ia ∙ trail-fresh n h k.used in
        record {
          traced = (subst (IsTrail (status_of a)) (sym empty) (root, sa), k.traced);
          used = IsBelow-mono n (n + 1) h (omega arith) k.used;
          issued = (omega arith, All-imp _ _ rows (λ x (lt : id_of x < n). omega arith) k.issued);
        }

    pub IsAccounted-mono :
        (m n : ℕ) (h : List (Change S)) (rows : List A)
        → m ≤ n
        → IsAccounted m h rows
        → IsAccounted n h rows
    IsAccounted-mono m n h rows le k = record {
      traced = k.traced;
      used = IsBelow-mono m n h le k.used;
      issued = All-imp _ _ rows (λ x (lt : id_of x < m). omega arith) k.issued;
    }
