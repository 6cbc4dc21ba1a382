-- ===== src/Auth/Text.antt =====
-- What apps/api/src/modules/auth/ does with texts: lists of ASCII codes.
use muhammad_tours_and_trave.Prelude.{
  ℕ, ◌+◌, ◌-◌, ◌*◌, ◌/◌, ◌%◌, ◌≡◌, refl, ◌==◌, leb, Bool, true, false, ◌&&◌, ◌||◌, if◌then◌else◌,
  List, [], ◌∷◌, ◌++◌, Option, none, some, map, arith,
}

abbrev pub Text : Type 0
Text = List ℕ

-- `===` on texts
abbrev pub same_text : Text → Text → Bool
same_text [] [] = true
same_text (c ∷ cs) (d ∷ ds) = (c == d) && same_text cs ds
same_text _ _ = false

pub same_text_refl : (t : Text) → same_text t t ≡ true
same_text_refl [] = refl
same_text_refl (c ∷ cs) = ground (arith, same_text_refl cs)

pub same_text_eq : (t u : Text) → same_text t u ≡ true → t ≡ u
same_text_eq [] [] e = refl
same_text_eq [] (d ∷ ds) e = cc
same_text_eq (c ∷ cs) [] e = cc
same_text_eq (c ∷ cs) (d ∷ ds) e =
    let head : c ≡ d = ground arith in let tail : cs ≡ ds = same_text_eq cs ds (ground arith) in cc

abbrev pub is_between : ℕ → ℕ → ℕ → Bool
is_between low high c = leb low c && leb c high

abbrev pub is_digit : ℕ → Bool
is_digit = is_between 48 57

abbrev to_lower : ℕ → ℕ
to_lower c = if is_between 65 90 c then c + 32 else c

abbrev to_upper : ℕ → ℕ
to_upper c = if is_between 97 122 c then c - 32 else c

-- `toLowerCase` and `toUpperCase`
abbrev pub lower : Text → Text
lower = map to_lower

abbrev pub upper : Text → Text
upper = map to_upper

-- `\s`: the tab and the breaks of a line, and the space.
abbrev pub is_space : ℕ → Bool
is_space c = is_between 9 13 c || c == 32

abbrev trim_start : Text → Text
trim_start [] = []
trim_start (c ∷ cs) = let rest = trim_start cs in if is_space c then rest else c ∷ cs

abbrev pub reverse_onto : Text → Text → Text
reverse_onto [] acc = acc
reverse_onto (c ∷ cs) acc = reverse_onto cs (c ∷ acc)

-- `trim`
abbrev pub trim : Text → Text
trim t = reverse_onto (trim_start (reverse_onto (trim_start t) [])) []

-- `n.toString(16)` of a nibble
abbrev hex_digit : ℕ → ℕ
hex_digit n = if leb n 9 then 48 + n else 87 + n

abbrev hex_of_byte : ℕ → Text
hex_of_byte b = hex_digit (b / 16) ∷ hex_digit (b % 16) ∷ []

-- `buffer.toString('hex')`
abbrev pub hex : List ℕ → Text
hex [] = []
hex (b ∷ bs) = hex_of_byte b ++ hex bs

-- The multiplier of a unit of `parseDurationToSeconds`.
abbrev multiplier : ℕ → Option ℕ
multiplier c =
    if c == 115
    then some 1
    else (if c == 109
        then some 60
        else (if c == 104 then some 3600 else (if c == 100 then some 86400 else none)))

abbrev times : ℕ → Option ℕ → Option ℕ
times n none = none
times n (some m) = some (n * m)

-- `/^(\d+)([smhd])$/`: digits, at least one, and then one unit.
abbrev pub duration : Bool → ℕ → Text → Option ℕ
duration seen n [] = none
duration seen n (c ∷ []) = if seen then times n (multiplier c) else none
duration seen n (c ∷ d ∷ cs) =
    let rest = duration true (n * 10 + (c - 48)) (d ∷ cs) in if is_digit c then rest else none

abbrev seconds_or_default : Option ℕ → ℕ
seconds_or_default none = 900
seconds_or_default (some n) = n

abbrev pub parse_duration_to_seconds : Text → ℕ
parse_duration_to_seconds t = seconds_or_default (duration false 0 t)
