-- ===== src/Prelude/Keeping.antt =====
-- What every call of a method keeps true of its tables, put together from its steps.
use mathlib.Core.Path.{◌≡◌, refl, subst}
use mathlib.Core.Logic.{inl, inr}
use mathlib.Core.Bool.{Bool, true, false}
use mathlib.Core.Option.{Option, none, some}
use muhammad_tours_and_trave.Prelude.Effects.{
  Error, Result, ok, err, Action, ◌>>=◌, ◌>>◌, pure, gets, modify, throw_if, or_throw, from_result,
  return_some, rollback, transaction, seize, attempt, Call-cases,
}

module _ {S : Type 0} (I : S → Type 0) where
  -- Whether the call returns or throws.
  pub record Keeps {A : Type 0} (m : Action S A) : Type 0 where
    pub kept : (s : S) → I s → I (m s).1

  pub bind-Keeps :
      {A B : Type 0} {m : Action S A} {f : A → Action S B}
      → Keeps m
      → ((a : A) → Keeps (f a))
      → Keeps (m >>= f)
  bind-Keeps {A} {B} {m} {f} km kf = record {
    kept = λ s h. elim (Call-cases (m s)) [
      | inl (a, s', q) ↦ rw q ((kf a).kept s' (subst (λ r. I r.1) q (km.kept s h)))
      | inr (e, s', q) ↦ rw q (subst (λ r. I r.1) q (km.kept s h))
    ];
  }

  throw_if-kept : (c : Bool) (e : Error) (s : S) → I s → I (throw_if c e s).1
  throw_if-kept true e s h = h
  throw_if-kept false e s h = h

  pub throw_if-Keeps : (c : Bool) (e : Error) → Keeps (throw_if c e)
  throw_if-Keeps c e = record { kept = throw_if-kept c e }

  or_throw-kept : {A : Type 0} (o : Option A) (e : Error) (s : S) → I s → I (or_throw o e s).1
  or_throw-kept none e s h = h
  or_throw-kept (some a) e s h = h

  pub or_throw-Keeps : {A : Type 0} (o : Option A) (e : Error) → Keeps (or_throw o e)
  or_throw-Keeps o e = record { kept = or_throw-kept o e }

  from_result-kept : {A : Type 0} (r : Result A) (s : S) → I s → I (from_result r s).1
  from_result-kept (ok a) s h = h
  from_result-kept (err e) s h = h

  pub from_result-Keeps : {A : Type 0} (r : Result A) → Keeps (from_result r)
  from_result-Keeps r = record { kept = from_result-kept r }

  pub gets-Keeps : {A : Type 0} {f : S → A} → Keeps (gets f)
  gets-Keeps = record { kept = λ s h. h }

  pub pure-Keeps : {A : Type 0} {a : A} → Keeps (pure a)
  pure-Keeps = record { kept = λ s h. h }

  pub modify-Keeps : {f : S → S} → ((s : S) → I s → I (f s)) → Keeps (modify f)
  modify-Keeps k = record { kept = k }

  return_some-kept :
      {A : Type 0} (o : Option A) (m : Action S A) (s : S)
      → I s
      → I (m s).1
      → I (return_some o m s).1
  return_some-kept none m s h k = k
  return_some-kept (some a) m s h k = h

  pub return_some-Keeps :
      {A : Type 0} (o : Option A) {m : Action S A} → Keeps m → Keeps (return_some o m)
  return_some-Keeps o {m} k = record { kept = λ s h. return_some-kept o m s h (k.kept s h) }

  rollback-kept : {A : Type 0} (s : S) (r : Result A × S) → I s → I r.1 → I (rollback s r).1
  rollback-kept s (ok a, s') h k = k
  rollback-kept s (err e, s') h k = h

  pub transaction-Keeps : {A : Type 0} {m : Action S A} → Keeps m → Keeps (transaction m)
  transaction-Keeps {A} {m} k = record { kept = λ s h. rollback-kept s (m s) h (k.kept s h) }

  seize-kept : {A : Type 0} (r : Result A × S) → I r.1 → I (seize r).1
  seize-kept (r, s) k = k

  pub attempt-Keeps : {A : Type 0} {m : Action S A} → Keeps m → Keeps (attempt m)
  attempt-Keeps {A} {m} k = record { kept = λ s h. seize-kept (m s) (k.kept s h) }

  -- What follows a guard is only reached where the guard lets it.
  pub guard-Keeps :
      {A : Type 0} (c : Bool) (e : Error) {m : Action S A}
      → (c ≡ false → Keeps m)
      → Keeps (throw_if c e >> m)
  guard-Keeps true e k = record { kept = λ s h. h }
  guard-Keeps false e k = k refl
