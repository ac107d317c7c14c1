-- ===== src/Schema/Levels.antt =====
-- ParseLevel and LevelName on the levels that the suites name.
use ojs_conformance.Common.{
  ℕ, ◌^◌, ◌<◌, Text, text, ℤ, pos, false, none, some, ◌≡◌, refl, arith, atoi, decimal, atoi-decimal,
  str_eq, str_eq_iff, Bool-cases, inl, inr,
}
use ojs_conformance.Json.{Raw}
use ojs_conformance.Schema.{TestCase, parse_level, level_of_string}

-- A text that Atoi reads is none that it refuses.
str_eq-atoi : (s t : Text) (z : ℤ) → atoi s ≡ some z → atoi t ≡ none → str_eq s t ≡ false
str_eq-atoi s t z e e' = elim (Bool-cases (str_eq s t)) [
  | inl equal ↦
      let same : s ≡ t = (str_eq_iff s t).0 equal in let clash = rw (same, e') at e in ground arith
  | inr other ↦ other
]

level_of_string-decimal : (n : ℕ) → n < 2 ^ 63 → level_of_string (decimal n) ≡ some (pos n)
unfolding level_of_string
level_of_string-decimal n h =
    rw
      (
        str_eq-atoi (decimal n) (text "ext") (pos n) (atoi-decimal n h) (unfold atoi in refl),
        str_eq-atoi (decimal n) (text "extension") (pos n) (atoi-decimal n h) (unfold atoi in refl),
      )
      (atoi-decimal n h)

module _ {Num : Type 0} where
  abbrev pub with_level : Raw Num → TestCase Num → TestCase Num
  with_level raw tc = record tc { level = some raw }

  -- A level below 2 ^ 63 is read as the same number and stored in the test case, whether the suite
  -- spells it as a JSON number or as a string in decimal.
  pub parse_level-decimal :
      (tc : TestCase Num) (n : ℕ)
      → n < 2 ^ 63
      → (parse_level (with_level (Raw.int (pos n)) tc)
          ≡ some (record (with_level (Raw.int (pos n)) tc) { level_int = pos n }, pos n))
        × (parse_level (with_level (Raw.string (decimal n)) tc)
            ≡ some (record (with_level (Raw.string (decimal n)) tc) { level_int = pos n }, pos n))
  unfolding parse_level
  parse_level-decimal tc n h = (ground arith, rw (level_of_string-decimal n h, parse_level) refl)
