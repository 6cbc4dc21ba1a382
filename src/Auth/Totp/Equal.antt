-- ===== src/Auth/Totp/Equal.antt =====
-- `timingSafeEqualStr` of apps/api/src/modules/auth/totp.util.ts is the equality of texts.
use muhammad_tours_and_trave.Prelude.{
  ◌≡◌, refl, ◌==◌, ==_refl, true, false, Bool-cases, inl, inr, [], ◌∷◌, length, arith,
}
use muhammad_tours_and_trave.Auth.Text.{Text}
use muhammad_tours_and_trave.Auth.Totp.{differs, timing_safe_equal_str}

-- A difference that was found stays found.
differs_found : (a b : Text) → differs true a b ≡ true
differs_found [] b = refl
differs_found (x ∷ a) [] = refl
differs_found (x ∷ a) (y ∷ b) = differs_found a b

differs_same : (a : Text) → differs false a a ≡ false
differs_same [] = refl
differs_same (x ∷ a) = rw (==_refl x) (differs_same a)

differs_eq : (a b : Text) → length a ≡ length b → differs false a b ≡ false → a ≡ b
differs_eq [] [] l e = refl
differs_eq [] (y ∷ b) l e = absurd (omega (arith, l))
differs_eq (x ∷ a) [] l e = absurd (omega (arith, l))
differs_eq (x ∷ a) (y ∷ b) l e = elim (Bool-cases (x == y)) [
  | inl hit ↦
      let head : x ≡ y = ground (arith, hit) in
      let tail : a ≡ b = differs_eq a b (omega (arith, l)) (ground (arith, hit, e)) in cc
  | inr miss ↦ absurd (ground (arith, miss, e, differs_found a b))
]

pub timing_safe_equal_str_refl : (a : Text) → timing_safe_equal_str a a ≡ true
unfolding timing_safe_equal_str
timing_safe_equal_str_refl a = rw (==_refl (length a), differs_same a) refl

pub timing_safe_equal_str_eq : (a b : Text) → timing_safe_equal_str a b ≡ true → a ≡ b
unfolding timing_safe_equal_str
timing_safe_equal_str_eq a b e = elim (Bool-cases (length a == length b)) [
  | inl hit ↦ elim (Bool-cases (differs false a b)) [
    | inl other ↦ absurd (ground (arith, hit, other, e))
    | inr same ↦ differs_eq a b (ground (arith, hit)) same
  ]
  | inr miss ↦ absurd (ground (arith, miss, e))
]
