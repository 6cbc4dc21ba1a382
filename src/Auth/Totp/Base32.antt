-- ===== src/Auth/Totp/Base32.antt =====
-- Encoding and decoding in base 32: apps/api/src/modules/auth/totp.util.ts.
use muhammad_tours_and_trave.Prelude.{
  ℕ, zero, suc, ◌+◌, ◌*◌, ◌/◌, ◌%◌, ◌^◌, ◌<◌, ◌≡◌, refl, sym, ◌∙◌, ap, true, List, [], ◌∷◌, ◌++◌,
  map, find_many, All, arith,
}
use muhammad_tours_and_trave.Auth.Text.{upper}
use muhammad_tours_and_trave.Auth.Totp.{
  digits, parse, letter, value_of, is_letter, bits_of, fives, eights, base32_encode, base32_decode,
}

abbrev IsBit : ℕ → Type 0
IsBit b = b < 2

-- The digits of a number are read back as the number.
parse-digits : (w v : ℕ) (acc : List ℕ) → v < 2 ^ w → parse 0 (digits w v acc) ≡ parse v acc
parse-digits zero v acc h = let z : v ≡ 0 = omega (arith, h) in ap (λ n. parse n acc) (sym z)
parse-digits (suc w) v acc h =
    let half : 2 * (v / 2) + v % 2 ≡ v = omega arith in
    parse-digits w (v / 2) (v % 2 ∷ acc) (omega (arith, h)) ∙ ap (λ n. parse n acc) half

-- Five bits are written as they were read.
digits-parse :
    (a b c d e : ℕ) (rest : List ℕ)
    → IsBit a
    → IsBit b
    → IsBit c
    → IsBit d
    → IsBit e
    → digits 5 (parse 0 (a ∷ b ∷ c ∷ d ∷ e ∷ [])) rest ≡ a ∷ b ∷ c ∷ d ∷ e ∷ rest
digits-parse a b c d e rest ha hb hc hd he =
    let v = parse 0 (a ∷ b ∷ c ∷ d ∷ e ∷ []) in
    let e0 : v % 2 ≡ e = omega arith in
    let e1 : v / 2 % 2 ≡ d = omega arith in
    let e2 : v / 2 / 2 % 2 ≡ c = omega arith in
    let e3 : v / 2 / 2 / 2 % 2 ≡ b = omega arith in
    let e4 : v / 2 / 2 / 2 / 2 % 2 ≡ a = omega arith in rw (e0, e1, e2, e3, e4) refl

-- The letters of the alphabet are kept by the filter, and read back as their values.
value_of-letter : (v : ℕ) → v < 32 → value_of (letter v) ≡ v
value_of-letter v h = ground arith

is_letter-letter : (v : ℕ) → v < 32 → is_letter (letter v) ≡ true
is_letter-letter v h = ground arith

abbrev AllBits : List ℕ → Type 0
AllBits = All IsBit

values-letters :
    (vs : List ℕ)
    → All (λ v. v < 32) vs
    → map value_of (find_many is_letter (upper (map letter vs))) ≡ vs
values-letters [] h = refl
values-letters (v ∷ vs) h =
    ground (arith, value_of-letter v h.0, is_letter-letter v h.0, values-letters vs h.1)

-- What fills up the last letter.
abbrev pad : List ℕ → List ℕ
pad (a ∷ b ∷ c ∷ d ∷ e ∷ rest) = pad rest
pad [] = []
pad (a ∷ []) = 0 ∷ 0 ∷ 0 ∷ 0 ∷ []
pad (a ∷ b ∷ []) = 0 ∷ 0 ∷ 0 ∷ []
pad (a ∷ b ∷ c ∷ []) = 0 ∷ 0 ∷ []
pad (a ∷ b ∷ c ∷ d ∷ []) = 0 ∷ []

fives_small : (bs : List ℕ) → AllBits bs → All (λ v. v < 32) (fives bs)
fives_small (a ∷ b ∷ c ∷ d ∷ e ∷ rest) (ha, (hb, (hc, (hd, (he, h))))) =
    (omega arith, fives_small rest h)
fives_small [] h = tt
fives_small (a ∷ []) h = (omega (arith, h.0), tt)
fives_small (a ∷ b ∷ []) h = (omega (arith, h.0, h.1.0), tt)
fives_small (a ∷ b ∷ c ∷ []) h = (omega (arith, h.0, h.1.0, h.1.1.0), tt)
fives_small (a ∷ b ∷ c ∷ d ∷ []) h = (omega (arith, h.0, h.1.0, h.1.1.0, h.1.1.1.0), tt)

bits-fives : (bs : List ℕ) → AllBits bs → bits_of 5 (fives bs) ≡ bs ++ pad bs
bits-fives (a ∷ b ∷ c ∷ d ∷ e ∷ rest) (ha, (hb, (hc, (hd, (he, h))))) =
    digits-parse a b c d e (bits_of 5 (fives rest)) ha hb hc hd he
    ∙ ap (λ r. a ∷ b ∷ c ∷ d ∷ e ∷ r) (bits-fives rest h)
bits-fives [] h = refl
bits-fives (a ∷ []) (ha, h) =
    digits-parse a 0 0 0 0 [] ha (omega arith) (omega arith) (omega arith) (omega arith)
bits-fives (a ∷ b ∷ []) (ha, (hb, h)) =
    digits-parse a b 0 0 0 [] ha hb (omega arith) (omega arith) (omega arith)
bits-fives (a ∷ b ∷ c ∷ []) (ha, (hb, (hc, h))) =
    digits-parse a b c 0 0 [] ha hb hc (omega arith) (omega arith)
bits-fives (a ∷ b ∷ c ∷ d ∷ []) (ha, (hb, (hc, (hd, h)))) =
    digits-parse a b c d 0 [] ha hb hc hd (omega arith)

-- The filling is too short for a byte.
eights-pad : (bs : List ℕ) → eights (pad bs) ≡ []
eights-pad (a ∷ b ∷ c ∷ d ∷ e ∷ rest) = eights-pad rest
eights-pad [] = refl
eights-pad (a ∷ []) = refl
eights-pad (a ∷ b ∷ []) = refl
eights-pad (a ∷ b ∷ c ∷ []) = refl
eights-pad (a ∷ b ∷ c ∷ d ∷ []) = refl

abbrev pub AreBytes : List ℕ → Type 0
AreBytes = All (λ v. v < 256)

eights-bits : (vs p : List ℕ) → AreBytes vs → eights p ≡ [] → eights (bits_of 8 vs ++ p) ≡ vs
eights-bits [] p h e = e
eights-bits (v ∷ vs) p h e =
    let head : parse 0 (digits 8 v []) ≡ v = parse-digits 8 v [] h.0 in
    let tail : eights (bits_of 8 vs ++ p) ≡ vs = eights-bits vs p h.1 e in
    ap (λ n. n ∷ eights (bits_of 8 vs ++ p)) head ∙ ap (λ r. v ∷ r) tail

bit : (n : ℕ) → n % 2 < 2
bit n = omega arith

AllBits-bits : (vs : List ℕ) → AllBits (bits_of 8 vs)
AllBits-bits [] = tt
AllBits-bits (v ∷ vs) =
    (bit _, (bit _, (bit _, (bit _, (bit _, (bit _, (bit _, (bit v, AllBits-bits vs))))))))

-- What is decoded of the letters that bytes are encoded by is these bytes.
pub decode-encode :
    (buffer : List ℕ) → AreBytes buffer → base32_decode (base32_encode buffer) ≡ buffer
unfolding base32_decode base32_encode
decode-encode buffer h =
    let bs = bits_of 8 buffer in
    let all_bits = AllBits-bits buffer in
    ap (λ vs. eights (bits_of 5 vs)) (values-letters (fives bs) (fives_small bs all_bits))
    ∙ ap eights (bits-fives bs all_bits)
    ∙ eights-bits buffer (pad bs) h (eights-pad bs)
