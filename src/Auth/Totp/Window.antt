-- ===== src/Auth/Totp/Window.antt =====
-- How long a code is good for: `verifyTotp` of apps/api/src/modules/auth/totp.util.ts.
use muhammad_tours_and_trave.Prelude.{
  ℕ, zero, suc, ◌+◌, ◌/◌, ◌%◌, ◌^◌, ◌≤◌, ◌≡◌, ◌↔◌, sym, subst, Bool, Bool-cases, ◌||◌, false,
  if◌then◌else◌, ◌-◌, refl, ◌∙◌, ap, ◌⊎◌, inl, inr, true, not, List, [], ◌∷◌, length, all,
  find_many, ok, arith,
}
use muhammad_tours_and_trave.Auth.Text.{Text, is_digit, is_space}
use muhammad_tours_and_trave.Auth.Totp.Equal.{timing_safe_equal_str_refl, timing_safe_equal_str_eq}
use muhammad_tours_and_trave.Auth.Totp.{
  decimal, truncated, hotp, counter_at, generate_totp, is_code, clean, any_match, matches,
  verify_totp, base32_decode,
}

length-decimal : (w n : ℕ) (acc : Text) → length (decimal w n acc) ≡ w + length acc
length-decimal zero n acc = omega arith
length-decimal (suc w) n acc = omega (arith, length-decimal w (n / 10) ((48 + n % 10) ∷ acc))

all_digits-decimal :
    (w n : ℕ) (acc : Text) → all is_digit acc ≡ true → all is_digit (decimal w n acc) ≡ true
all_digits-decimal zero n acc h = h
all_digits-decimal (suc w) n acc h = all_digits-decimal w (n / 10) ((48 + n % 10) ∷ acc) (
    let low : 48 ≤ 48 + n % 10 = omega arith in
    let high : 48 + n % 10 ≤ 57 = omega arith in ground (arith, low, high, h))

-- Digits are no spaces.
clean_digits : (t : Text) → all is_digit t ≡ true → find_many (λ c. not (is_space c)) t ≡ t
clean_digits [] h = refl
clean_digits (c ∷ cs) h = ground (arith, clean_digits cs)

-- Two steps that are at most one apart.
nearby :
    (step counter : ℕ)
    → suc step ≤ counter + 1
    → counter ≤ suc step + 1
    → (counter ≡ step) ⊎ ((counter ≡ step + 1) ⊎ (counter ≡ step + 2))
nearby step counter low high = ground arith

or_cases : (a b c : Bool) → (a || b || c) ≡ true → (a ≡ true) ⊎ ((b ≡ true) ⊎ (c ≡ true))
or_cases true b c e = inl refl
or_cases false true c e = inr (inl refl)
or_cases false false c e = inr (inr e)

module _ (hmac : List ℕ → List ℕ → List ℕ) (secret : Text) where
  abbrev value : ℕ → ℕ
  value counter = truncated hmac (base32_decode secret) counter % 10 ^ 6

  code : ℕ → Text
  code counter = hotp hmac (base32_decode secret) counter 6

  code_digits : (counter : ℕ) → all is_digit (code counter) ≡ true
  unfolding hotp code
  code_digits counter = all_digits-decimal 6 (value counter) [] refl

  code_clean : (counter : ℕ) → clean hmac (code counter) ≡ code counter
  code_clean counter = clean_digits (code counter) (code_digits counter)

  length-code : (counter : ℕ) → length (code counter) ≡ 6
  unfolding hotp code
  length-code counter = length-decimal 6 (value counter) []

  code_valid : (counter : ℕ) → is_code hmac (code counter) ≡ true
  code_valid counter = rw (length-code counter, code_digits counter) refl

  generate-code : (then_ : ℕ) → generate_totp hmac secret then_ ≡ code (counter_at hmac then_)
  unfolding generate_totp code
  generate-code then_ = refl

  verify-code :
      (counter now : ℕ)
      → verify_totp hmac secret (code counter) now
        ≡ any_match hmac (base32_decode secret) (code counter) (counter_at hmac now)
  unfolding verify_totp
  verify-code counter now = rw (code_clean counter, code_valid counter) refl

  any_match-code :
      (step counter : ℕ)
      → (counter ≡ step) ⊎ ((counter ≡ step + 1) ⊎ (counter ≡ step + 2))
      → any_match hmac (base32_decode secret) (code counter) (suc step) ≡ ok true
  unfolding code
  any_match-code step counter (inl e) = rw (e, timing_safe_equal_str_refl (code step)) refl
  any_match-code step counter (inr (inl e)) =
      rw e (ground (arith, timing_safe_equal_str_refl (code (step + 1))))
  any_match-code step counter (inr (inr e)) =
      rw e (ground (arith, timing_safe_equal_str_refl (code (step + 2))))

  -- The code of a moment is let in at every moment of the same step of thirty seconds, of the one
  -- before and of the one after; so it is for thirty seconds at least.
  pub verify-generate_totp :
      (then_ now : ℕ)
      → 30000 ≤ now
      → now ≤ then_ + 30000
      → then_ ≤ now + 30000
      → verify_totp hmac secret (generate_totp hmac secret then_) now ≡ ok true
  verify-generate_totp then_ now late before after =
      ap (λ t. verify_totp hmac secret t now) (generate-code then_)
      ∙ verify-code (then_ / 30000) now
      ∙ by_step (now / 30000) (omega (arith, late)) (omega (arith, before)) (omega (arith, after))
    where
      by_step :
          (n : ℕ)
          → 1 ≤ n
          → n ≤ then_ / 30000 + 1
          → then_ / 30000 ≤ n + 1
          → any_match hmac (base32_decode secret) (code (then_ / 30000)) n ≡ ok true
      by_step zero h low high = absurd (omega (arith, h))
      by_step (suc step) h low high =
          any_match-code step (then_ / 30000) (nearby step (then_ / 30000) low high)

  -- `generateTotp` at the step before, at this one and at the next.
  abbrev pub IsNear : ℕ → Text → Type 0
  IsNear now t =
      (t ≡ generate_totp hmac secret (now - 30000))
      ⊎ ((t ≡ generate_totp hmac secret now) ⊎ (t ≡ generate_totp hmac secret (now + 30000)))

  any_match-nearby :
      (step : ℕ) (t : Text)
      → any_match hmac (base32_decode secret) t (suc step) ≡ ok true
      → (t ≡ code step) ⊎ ((t ≡ code (step + 1)) ⊎ (t ≡ code (step + 2)))
  unfolding code
  any_match-nearby step t e =
      let found : (matches hmac (base32_decode secret) t step
            || matches hmac (base32_decode secret) t (step + 1)
            || matches hmac (base32_decode secret) t (step + 2))
          ≡ true =
        cc in
      elim (or_cases _ _ _ found) [
        | inl a ↦ inl (sym (timing_safe_equal_str_eq (code step) t a))
        | inr (inl b) ↦ inr (inl (sym (timing_safe_equal_str_eq (code (step + 1)) t b)))
        | inr (inr c) ↦ inr (inr (sym (timing_safe_equal_str_eq (code (step + 2)) t c)))
      ]

  generate-step :
      (then_ step : ℕ) → then_ / 30000 ≡ step → generate_totp hmac secret then_ ≡ code step
  generate-step then_ step e = generate-code then_ ∙ ap code e

  near :
      (now step : ℕ) (t : Text)
      → 30000 ≤ now
      → now / 30000 ≡ suc step
      → (t ≡ code step) ⊎ ((t ≡ code (step + 1)) ⊎ (t ≡ code (step + 2)))
      → IsNear now t
  near now step t late e (inl a) =
      inl (a ∙ sym (generate-step (now - 30000) step (omega (arith, e, late))))
  near now step t late e (inr (inl b)) =
      inr (inl (b ∙ sym (generate-step now (step + 1) (omega (arith, e)))))
  near now step t late e (inr (inr c)) =
      inr (inr (c ∙ sym (generate-step (now + 30000) (step + 2) (omega (arith, e)))))

  verify-IsNear :
      (token : Text) (now : ℕ)
      → 30000 ≤ now
      → verify_totp hmac secret token now ≡ ok true
      → IsNear now (clean hmac token)
  unfolding verify_totp
  verify-IsNear token now late e = elim (Bool-cases (is_code hmac (clean hmac token))) [
    | inr odd ↦ absurd (let h : ok false ≡ ok true = sym (rw odd refl) ∙ e in cc)
    | inl fine ↦ by_step (now / 30000) refl (omega (arith, late)) (sym (rw fine refl) ∙ e)
  ]
    where
      by_step :
          (n : ℕ)
          → now / 30000 ≡ n
          → 1 ≤ n
          → any_match hmac (base32_decode secret) (clean hmac token) n ≡ ok true
          → IsNear now (clean hmac token)
      by_step zero q h f = absurd (omega (arith, h))
      by_step (suc step) q h f =
          near now step (clean hmac token) late q (any_match-nearby step (clean hmac token) f)

  -- A code that is its own clean form is judged as the one that it is.
  accepted :
      (token : Text) (then_ now : ℕ)
      → 30000 ≤ now
      → now ≤ then_ + 30000
      → then_ ≤ now + 30000
      → clean hmac token ≡ generate_totp hmac secret then_
      → verify_totp hmac secret token now ≡ ok true
  unfolding verify_totp
  accepted token then_ now late before after e =
      let g = generate_totp hmac secret then_ in
      let own : clean hmac g ≡ g =
        subst (λ t. clean hmac t ≡ t) (sym (generate-code then_)) (code_clean (then_ / 30000)) in
      ap
        (λ t.
          if is_code hmac t
          then any_match hmac (base32_decode secret) t (counter_at hmac now)
          else ok false)
        (e ∙ sym own)
      ∙ verify-generate_totp then_ now late before after

  -- From thirty seconds after the epoch on, exactly the codes of the step before, of this one and
  -- of the next are let in, whatever spaces stand in between.
  pub verify_totp_iff :
      (token : Text) (now : ℕ)
      → 30000 ≤ now
      → (verify_totp hmac secret token now ≡ ok true) ↔ IsNear now (clean hmac token)
  verify_totp_iff token now late = (
    λ e. verify-IsNear token now late e,
    λ n. elim n [
      | inl a ↦ accepted token (now - 30000) now late (omega (arith, late)) (omega arith) a
      | inr (inl b) ↦ accepted token now now late (omega arith) (omega arith) b
      | inr (inr c) ↦ accepted token (now + 30000) now late (omega arith) (omega arith) c
    ],
  )
