-- ===== src/Fx/Monotone.antt =====
-- A conversion by apps/api/src/modules/fx/fx-rates.service.ts keeps the order of the amounts.
use native.Mathlib.Nat.{le_trans, div-mul-le_self, le-div_iff_mul-le}
use muhammad_tours_and_trave.Prelude.{
  ℕ, zero, suc, ◌+◌, ◌-◌, ◌*◌, ◌/◌, ◌≤◌, ℤ, pos, negsuc, ◌≤ℤ◌, arith, sub_ℕ,
}
use muhammad_tours_and_trave.Fx.{exchange}

div_mono : (a b d : ℕ) → a ≤ b → a / d ≤ b / d
div_mono a b zero h = omega arith
div_mono a b (suc d) h =
    (le-div_iff_mul-le (omega arith)).1 (le_trans (div-mul-le_self a (suc d)) h)

scaled_mono : (a b t : ℕ) → a ≤ b → a * t ≤ b * t
scaled_mono a b t h = grind arith

pos_le : (m n : ℕ) → m ≤ n → pos m ≤ℤ pos n
pos_le m n h = omega arith

neg_le_pos : (m n : ℕ) → sub_ℕ 0 m ≤ℤ pos n
neg_le_pos m n = ground arith

neg_le_neg : (m n : ℕ) → n ≤ m → sub_ℕ 0 m ≤ℤ sub_ℕ 0 n
neg_le_neg m n h = ground arith

-- The greater amount is worth no less in the other currency.
pub exchange_mono : (a b : ℤ) (f t : ℕ) → a ≤ℤ b → exchange a f t ≤ℤ exchange b f t
unfolding exchange
exchange_mono (pos a) (pos b) f t h = pos_le _ _ (
    div_mono (2 * (a * t) + f) (2 * (b * t) + f) (2 * f)
      (omega (arith, scaled_mono a b t (omega arith))))
exchange_mono (negsuc a) (pos b) f t h = neg_le_pos _ _
exchange_mono (pos a) (negsuc b) f t h = absurd (omega arith)
exchange_mono (negsuc a) (negsuc b) f t h = neg_le_neg _ _ (
    div_mono (2 * (suc b * t) + f - 1) (2 * (suc a * t) + f - 1) (2 * f)
      (omega (arith, scaled_mono (suc b) (suc a) t (omega arith))))
