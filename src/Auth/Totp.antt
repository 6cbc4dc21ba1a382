-- ===== src/Auth/Totp.antt =====
-- Codes that change with the time: apps/api/src/modules/auth/totp.util.ts. `createHmac` is an
-- argument, a function from the key and the message to the bytes of the digest.
pub mod Equal
pub mod Base32
pub mod Window
use muhammad_tours_and_trave.Prelude.{
  ℕ, zero, suc, ◌+◌, ◌-◌, ◌*◌, ◌/◌, ◌%◌, ◌^◌, ◌==◌, leb, ltb, Bool, true, false, ◌&&◌, ◌||◌, not,
  if◌then◌else◌, List, [], ◌∷◌, ◌++◌, Option, none, some, map, length, all, find_many, Result, ok,
  err, failure,
}
use muhammad_tours_and_trave.Auth.Text.{
  Text, is_between, is_digit, is_space, upper, hex, reverse_onto,
}

-- `value.toString(2).padStart(width, '0')`, before the bits that follow.
abbrev pub digits : ℕ → ℕ → List ℕ → List ℕ
digits zero v acc = acc
digits (suc w) v acc = digits w (v / 2) (v % 2 ∷ acc)

-- `parseInt(bits, 2)`
abbrev pub parse : ℕ → List ℕ → ℕ
parse n [] = n
parse n (b ∷ bs) = parse (2 * n + b) bs

-- `BASE32_ALPHABET[value]` and `BASE32_ALPHABET.indexOf(char)`
abbrev pub letter : ℕ → ℕ
letter v = if ltb v 26 then 65 + v else 24 + v

abbrev pub value_of : ℕ → ℕ
value_of c = if leb 65 c then c - 65 else c - 24

abbrev pub is_letter : ℕ → Bool
is_letter c = is_between 65 90 c || is_between 50 55 c

abbrev pub bits_of : ℕ → List ℕ → List ℕ
bits_of width [] = []
bits_of width (v ∷ vs) = digits width v (bits_of width vs)

-- Five bits at a time; what is left is filled up with zeros.
abbrev pub fives : List ℕ → List ℕ
fives (a ∷ b ∷ c ∷ d ∷ e ∷ rest) = parse 0 (a ∷ b ∷ c ∷ d ∷ e ∷ []) ∷ fives rest
fives [] = []
fives (a ∷ []) = parse 0 (a ∷ 0 ∷ 0 ∷ 0 ∷ 0 ∷ []) ∷ []
fives (a ∷ b ∷ []) = parse 0 (a ∷ b ∷ 0 ∷ 0 ∷ 0 ∷ []) ∷ []
fives (a ∷ b ∷ c ∷ []) = parse 0 (a ∷ b ∷ c ∷ 0 ∷ 0 ∷ []) ∷ []
fives (a ∷ b ∷ c ∷ d ∷ []) = parse 0 (a ∷ b ∷ c ∷ d ∷ 0 ∷ []) ∷ []

-- Eight bits at a time; what is left is dropped.
abbrev pub eights : List ℕ → List ℕ
eights (a ∷ b ∷ c ∷ d ∷ e ∷ f ∷ g ∷ h ∷ rest) =
    parse 0 (a ∷ b ∷ c ∷ d ∷ e ∷ f ∷ g ∷ h ∷ []) ∷ eights rest
eights _ = []

unfoldable pub base32_encode : List ℕ → Text
base32_encode buffer = map letter (fives (bits_of 8 buffer))

unfoldable pub base32_decode : Text → List ℕ
base32_decode input = eights (bits_of 5 (map value_of (find_many is_letter (upper input))))

-- `writeBigUInt64BE(counter)`
abbrev pub big_endian : ℕ → ℕ → List ℕ → List ℕ
big_endian zero n acc = acc
big_endian (suc w) n acc = big_endian w (n / 256) (n % 256 ∷ acc)

abbrev pub byte_at : ℕ → List ℕ → ℕ
byte_at i [] = 0
byte_at zero (b ∷ bs) = b
byte_at (suc i) (b ∷ bs) = byte_at i bs

abbrev pub bin_code : ℕ → List ℕ → ℕ
bin_code o h =
    byte_at o h % 128 * 2 ^ 24
    + byte_at (o + 1) h * 2 ^ 16
    + byte_at (o + 2) h * 2 ^ 8
    + byte_at (o + 3) h

-- `n.toString().padStart(width, '0')`, of a number below `10 ** width`
abbrev pub decimal : ℕ → ℕ → Text → Text
decimal zero n acc = acc
decimal (suc w) n acc = decimal w (n / 10) ((48 + n % 10) ∷ acc)

-- Whether `diff` is not 0 after the loop of `timingSafeEqualStr`.
abbrev pub differs : Bool → Text → Text → Bool
differs diff (x ∷ a) (y ∷ b) = differs (diff || not (x == y)) a b
differs diff _ _ = diff

unfoldable pub timing_safe_equal_str : Text → Text → Bool
timing_safe_equal_str a b = if not (length a == length b) then false else not (differs false a b)

module _ (hmac : List ℕ → List ℕ → List ℕ) where
  -- `binCode`
  abbrev pub truncated : List ℕ → ℕ → ℕ
  truncated secret counter =
      let h = hmac secret (big_endian 8 counter []) in bin_code (byte_at (length h - 1) h % 16) h

  unfoldable pub hotp : List ℕ → ℕ → ℕ → Text
  hotp secret counter places = decimal places (truncated secret counter % 10 ^ places) []

  -- `Math.floor(timestampMs / 1000 / timeStepSeconds)`, with the default of 30 seconds
  abbrev pub counter_at : ℕ → ℕ
  counter_at now = now / 30000

  unfoldable pub generate_totp : Text → ℕ → Text
  generate_totp secret now = hotp (base32_decode secret) (counter_at now) 6

  -- `/^\d{6,8}$/`
  abbrev pub is_code : Text → Bool
  is_code t = leb 6 (length t) && leb (length t) 8 && all is_digit t

  abbrev pub clean : Text → Text
  clean = find_many (λ c. not (is_space c))

  abbrev pub matches : List ℕ → Text → ℕ → Bool
  matches secret token counter = timing_safe_equal_str (hotp secret counter 6) token

  -- The default window is one step to either side. In the first step of all the counter before
  -- is negative, which the buffer refuses.
  abbrev pub any_match : List ℕ → Text → ℕ → Result Bool
  any_match secret token zero = err failure
  any_match secret token (suc before) = ok (
      matches secret token before
      || matches secret token (before + 1)
      || matches secret token (before + 2))

  unfoldable pub verify_totp : Text → Text → ℕ → Result Bool
  verify_totp secret token now =
      if is_code (clean token)
      then any_match (base32_decode secret) (clean token) (counter_at now)
      else ok false

-- `generateBackupCodes`: ten hexadecimal digits in groups of four, four and two.
abbrev pub backup_code : List ℕ → Text
backup_code (a ∷ b ∷ c ∷ d ∷ e ∷ []) =
    hex (a ∷ b ∷ []) ++ 45 ∷ hex (c ∷ d ∷ []) ++ 45 ∷ hex (e ∷ [])
backup_code raw = hex raw
