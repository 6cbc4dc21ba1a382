-- ===== src/Prelude/Table.antt =====
-- A database table as a list of rows, with the queries that the services make of it.
use mathlib.Core.Path.{◌≡◌, refl}
use mathlib.Core.Logic.{inl, inr}
use mathlib.Core.Bool.{Bool, true, false}
use mathlib.Core.Option.{Option, none, some}
use mathlib.Core.List.{List, [], ◌∷◌, ◌++◌}
use native.Mathlib.Omega.{arith}
use muhammad_tours_and_trave.Prelude.Tests.{if◌then◌else◌, Bool-cases}
use muhammad_tours_and_trave.Prelude.Lists.{All, length}

module _ {ℓ} {A : Type ℓ} where
  -- `findUnique` and `findFirst`: the first row that the condition holds of.
  abbrev pub find? : (A → Bool) → List A → Option A
  find? p [] = none
  find? p (x ∷ xs) = if p x then some x else find? p xs

  -- `findMany`
  abbrev pub find_many : (A → Bool) → List A → List A
  find_many p [] = []
  find_many p (x ∷ xs) = let rest = find_many p xs in if p x then x ∷ rest else rest

  -- `update` and `updateMany`
  abbrev pub update_where : (A → Bool) → (A → A) → List A → List A
  update_where p f [] = []
  update_where p f (x ∷ xs) = (if p x then f x else x) ∷ update_where p f xs

  pub length-update_where :
      (p : A → Bool) (f : A → A) (xs : List A) → length (update_where p f xs) ≡ length xs
  length-update_where p f [] = refl
  length-update_where p f (x ∷ xs) = omega (arith, length-update_where p f xs)

  pub find?-holds : (p : A → Bool) (xs : List A) {a : A} → find? p xs ≡ some a → p a ≡ true
  find?-holds p [] e = cc
  find?-holds p (x ∷ xs) e = elim (Bool-cases (p x)) [
    | inl hit ↦ ground (arith, hit)
    | inr miss ↦ find?-holds p xs (ground (arith, miss))
  ]

  -- A new row behind the others is found if nothing before it was.
  pub find?-append :
      (p : A → Bool) (xs : List A) (a : A)
      → find? p xs ≡ none
      → p a ≡ true
      → find? p (xs ++ a ∷ []) ≡ some a
  find?-append p [] a missing hit = ground arith
  find?-append p (x ∷ xs) a missing hit = ground (arith, find?-append p xs a)

  -- An update that leaves the condition alone changes the row that is found and no other.
  pub find?-update_where :
      (p : A → Bool) (f : A → A) (xs : List A) {a : A}
      → ((x : A) → p (f x) ≡ p x)
      → find? p xs ≡ some a
      → find? p (update_where p f xs) ≡ some (f a)
  find?-update_where p f [] keep e = cc
  find?-update_where p f (x ∷ xs) keep e = elim (Bool-cases (p x)) [
    | inl hit ↦ ground (arith, hit, keep x)
    | inr miss ↦ rw (miss, miss) (find?-update_where p f xs keep (ground (arith, miss)))
  ]

  -- The same for a query by another condition, which the update leaves alone too.
  pub find?-update_where_any :
      (p q : A → Bool) (f : A → A) (xs : List A) {a : A}
      → ((x : A) → q (f x) ≡ q x)
      → find? q xs ≡ some a
      → find? q (update_where p f xs) ≡ some (if p a then f a else a)
  find?-update_where_any p q f [] keep e = cc
  find?-update_where_any p q f (x ∷ xs) {a} keep e = elim (Bool-cases (q x)) [
    | inl hit ↦ let first : x ≡ a = ground (arith, hit) in ground (arith, hit, keep x, first)
    | inr miss ↦ ground (arith, miss, keep x, find?-update_where_any p q f xs {a = a} keep)
  ]

  -- An update of rows that a query does not ask for leaves its answer alone.
  pub find?-update_where_ne :
      (p q : A → Bool) (f : A → A) (xs : List A)
      → ((x : A) → p x ≡ true → (q x ≡ false) × (q (f x) ≡ false))
      → find? q (update_where p f xs) ≡ find? q xs
  find?-update_where_ne p q f [] apart = refl
  find?-update_where_ne p q f (x ∷ xs) apart =
      ground (arith, apart x, find?-update_where_ne p q f xs apart)

module _ {ℓ κ} {A : Type ℓ} (P : A → Type κ) where
  pub All-find? : (p : A → Bool) (xs : List A) {a : A} → All P xs → find? p xs ≡ some a → P a
  All-find? p [] h e = cc
  All-find? p (x ∷ xs) h e = elim (Bool-cases (p x)) [
    | inl hit ↦ ground (arith, hit)
    | inr miss ↦ All-find? p xs h.1 (ground (arith, miss))
  ]

  pub All-append : (xs ys : List A) → All P xs → All P ys → All P (xs ++ ys)
  All-append [] ys h k = k
  All-append (x ∷ xs) ys h k = (h.0, All-append xs ys h.1 k)

  pub All-update_where :
      (p : A → Bool) (f : A → A) (xs : List A)
      → ((x : A) → p x ≡ true → P x → P (f x))
      → All P xs
      → All P (update_where p f xs)
  All-update_where p f [] keep h = tt
  All-update_where p f (x ∷ xs) keep h = (
    elim (Bool-cases (p x)) [ inl hit ↦ rw hit (keep x hit h.0) | inr miss ↦ rw miss h.0 ],
    All-update_where p f xs keep h.1,
  )
