-- ===== src/Assertions/Patterns.antt =====
-- lib/assertions.go: the fixed regular expressions, as recognisers. Each has one way at most to
-- match, so a left to right scan finds the captured groups.
use ojs_conformance.Common.{
  ℕ, zero, suc, ◌-◌, ◌^◌, Text, text, Bool, true, false, ◌||◌, List, [], ◌∷◌, ◌++◌, Option, none,
  some, ◌>>=◌, is_digit, is_hex, digits_value, ltb, ◌==◌, if◌then◌else◌, has_prefix, length, drop,
}

-- A character class, and a run of them.
abbrev Class : Type 0
Class = ℕ → Bool

abbrev only : ℕ → Class
only c x = x == c

abbrev times : ℕ → Class → List Class
times zero p = []
times (suc n) p = p ∷ times n p

-- The rest of a text behind one character of each class.
unfoldable pub consume : List Class → Text → Option Text
consume [] s = some s
consume (p ∷ ps) [] = none
consume (p ∷ ps) (c ∷ cs) = if p c then consume ps cs else none

abbrev matches_all : List Class → Text → Bool
matches_all ps s = elim (consume ps s) [
  | none ↦ false
  | some r ↦ elim r [ [] ↦ true | _ ∷ _ ↦ false ]
]

abbrev dash : Class
dash = only b'-'

-- uuidPattern
unfoldable pub is_uuid : Text → Bool
unfolding consume
is_uuid = matches_all (
    times 8 is_hex
    ++ dash
      ∷ (times 4 is_hex
          ++ dash ∷ (times 4 is_hex ++ dash ∷ (times 4 is_hex ++ dash ∷ times 12 is_hex))))

-- uuidV7Pattern
unfoldable pub is_uuid_v7 : Text → Bool
unfolding consume
is_uuid_v7 = matches_all (
    times 8 is_hex
    ++ dash
      ∷ (times 4 is_hex
          ++ dash
            ∷ only b'7'
            ∷ (times 3 is_hex
                ++ dash
                  ∷ (λ c. c == b'8' || c == b'9' || c == b'a' || c == b'b')
                  ∷ (times 3 is_hex ++ dash ∷ times 12 is_hex))))

-- \d+, as far as it goes: the digits and the rest.
unfoldable pub span_digits : Text → Text × Text
span_digits [] = ([], [])
span_digits (c ∷ cs) =
    let (ds, rest) = span_digits cs in if is_digit c then (c ∷ ds, rest) else ([], c ∷ cs)

date_time : List Class
date_time =
    times 4 is_digit
    ++ dash
      ∷ (times 2 is_digit
          ++ dash
            ∷ (times 2 is_digit
                ++ only b'T'
                  ∷ (times 2 is_digit
                      ++ only b':' ∷ (times 2 is_digit ++ only b':' ∷ times 2 is_digit))))

-- (Z|[+-]\d{2}:\d{2})$
is_offset : Text → Bool
unfolding consume
is_offset s =
    matches_all (only b'Z' ∷ []) s
    || matches_all
        ((λ c. c == b'+' || c == b'-') ∷ (times 2 is_digit ++ only b':' ∷ times 2 is_digit)) s

-- One character, and the rest.
abbrev expect : ℕ → Text → Option Text
expect x [] = none
expect x (c ∷ cs) = if c == x then some cs else none

abbrev at_end {ℓ} : {A : Type ℓ} → A → Text → Option A
at_end a [] = some a
at_end a (_ ∷ _) = none

-- \d+ with one digit at least
unfoldable pub some_digits : Text → Option (Text × Text)
unfolding span_digits
some_digits [] = none
some_digits (c ∷ cs) = if is_digit c then some (span_digits (c ∷ cs)) else none

-- (\.\d+)? in front of the offset
is_fraction_offset : Text → Bool
unfolding is_offset some_digits
is_fraction_offset s = elim (do cs ← expect b'.' s; some_digits cs) [
  | none ↦ is_offset s
  | some g ↦ is_offset (g.1)
]

-- datetimePattern
unfoldable pub is_datetime : Text → Bool
unfolding consume date_time is_fraction_offset
is_datetime s = elim (consume date_time s) [ none ↦ false | some rest ↦ is_fraction_offset rest ]

-- \d+(?:\.\d+)?, as the text that it takes and the rest
unfoldable pub unsigned_decimal : Text → Option (Text × Text)
unfolding some_digits
unsigned_decimal s = do
  (ds, rest) ← some_digits s
  elim (do cs ← expect b'.' rest; some_digits cs) [
    | none ↦ some (ds, rest)
    | some g ↦ some (ds ++ b'.' ∷ g.0, g.1)
  ]

-- -?\d+(?:\.\d+)?
unfoldable pub signed_decimal : Text → Option (Text × Text)
unfolding unsigned_decimal
signed_decimal s = elim (expect b'-' s) [
  | none ↦ unsigned_decimal s
  | some cs ↦ do (d, rest) ← unsigned_decimal cs; some (b'-' ∷ d, rest)
]

-- \s*
skip_spaces : Text → Text
skip_spaces [] = []
skip_spaces (c ∷ cs) =
    let rest = skip_spaces cs in
    if c == b' ' || (c == 9 || (c == 10 || (c == 12 || c == 13))) then rest else c ∷ cs

-- The text behind a fixed start.
abbrev after : Text → Text → Option Text
after p s = if has_prefix s p then some (drop (length p) s) else none

-- rangePattern.FindStringSubmatch
unfoldable pub range_pattern : Text → Option (Text × Text)
unfolding has_prefix signed_decimal skip_spaces
range_pattern s = do
  body ← after (text "number:range(") s
  (lo, r) ← signed_decimal body
  r' ← expect b',' r
  (hi, close) ← signed_decimal (skip_spaces r')
  last ← expect b')' close
  at_end (lo, hi) last

-- lengthPattern.FindStringSubmatch
unfoldable pub length_pattern : Text → Option Text
unfolding has_prefix some_digits
length_pattern s = do
  body ← after (text "array:length(") s
  (ds, close) ← some_digits body
  last ← expect b')' close
  at_end ds last

-- approxPattern.FindStringSubmatch
unfoldable pub approx_pattern : Text → Option Text
unfolding unsigned_decimal
approx_pattern s = do body ← expect b'~' s; (d, last) ← unsigned_decimal body; at_end d last

-- strconv.Atoi on digits, its error ignored: the largest int64 where the number is out of range.
unfoldable pub digits_int : Text → ℕ
unfolding digits_value
digits_int ds = elim (digits_value 0 ds) [
  | none ↦ 0
  | some n ↦ if ltb n (2 ^ 63) then n else 2 ^ 63 - 1
]
