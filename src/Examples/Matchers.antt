-- ===== src/Examples/Matchers.antt =====
-- The theorems on matchers at concrete matchers and values, and tests of the matchers.
use mathlib.Core.List.{Permᴰ}
use ojs_conformance.Common.{arith, str_eq, text, ℤ, pos, true, false, ◌≡◌, ◌↔◌, refl, All}
use ojs_conformance.Json.{Raw, Items, Fields, Value, Values, Entries, elements}
use ojs_conformance.Json.Unmarshal.{items, fields}
use ojs_conformance.Json.Size.{size}
use ojs_conformance.Assertions.{passes, pass}
use ojs_conformance.Assertions.Patterns.{range_pattern, length_pattern, approx_pattern}
use ojs_conformance.Assertions.Match.{match_assertion}
use ojs_conformance.Assertions.Match.Total.{unrolled, match_assertion-unrolled}
use ojs_conformance.Assertions.Match.Object.{
  IsPlain, Holds, match_assertion-perm, match_assertion_iff-Holds,
}
use ojs_conformance.Assertions.Match.Alternatives.{Pointwise, match_assertion_iff-Pointwise}
use ojs_conformance.Examples.{whole}

-- {"state": "available", "attempt": 0} and the same fields the other way round
abbrev job_matcher : Fields ℤ
job_matcher =
    Fields.field (text "state") (Raw.string (text "available"))
      (Fields.field (text "attempt") (Raw.int (pos 0)) Fields.end)

abbrev job_matcher_swapped : Fields ℤ
job_matcher_swapped =
    Fields.field (text "attempt") (Raw.int (pos 0))
      (Fields.field (text "state") (Raw.string (text "available")) Fields.end)

abbrev job : Entries ℤ
job = Entries.entry (text "state") (Value.string (text "available")) (
    Entries.entry (text "attempt") (Value.float64 (pos 0))
      (Entries.entry (text "id") (Value.string (text "1")) Entries.end))

-- [1, 2] as messages and as a value
abbrev numbers : Items ℤ
numbers = Items.cons (Raw.int (pos 1)) (Items.cons (Raw.int (pos 2)) Items.nil)

abbrev number_values : Values ℤ
number_values = Values.cons (Value.float64 (pos 1)) (Values.cons (Value.float64 (pos 2)) Values.nil)

abbrev with_in : Fields ℤ
with_in = Fields.field (text "$in") (Raw.array numbers) Fields.end

abbrev with_or : Fields ℤ
with_or = Fields.field (text "$or") (Raw.array numbers) Fields.end

abbrev with_empty : Fields ℤ
with_empty = Fields.field (text "$empty") (Raw.bool true) Fields.end

job_test : match_assertion whole (Raw.object job_matcher) (Value.object job) ≡ pass
unfolding match_assertion range_pattern length_pattern approx_pattern
job_test = refl

missing_test :
    passes (match_assertion whole (Raw.object job_matcher) (Value.object Entries.end)) ≡ false
unfolding match_assertion
missing_test = refl

match_assertion-unrolled_example :
    unrolled whole
      (λ r v. pass)
      (size (Raw.object job_matcher))
      (Raw.object job_matcher)
      (Value.object job)
    ≡ match_assertion whole (Raw.object job_matcher) (Value.object job)
match_assertion-unrolled_example =
    match_assertion-unrolled whole (λ r v. pass) (size (Raw.object job_matcher))
      (Raw.object job_matcher) (Value.object job) (omega arith)

job_matcher-IsPlain : IsPlain (fields job_matcher)
unfolding str_eq
job_matcher-IsPlain = record {
  no_exists = refl;
  no_match = refl;
  no_in = refl;
  no_size = refl;
  no_or = refl;
  no_empty = refl;
  no_range = refl;
}

job_matcher_swapped-IsPlain : IsPlain (fields job_matcher_swapped)
unfolding str_eq
job_matcher_swapped-IsPlain = record {
  no_exists = refl;
  no_match = refl;
  no_in = refl;
  no_size = refl;
  no_or = refl;
  no_empty = refl;
  no_range = refl;
}

match_assertion_iff-Holds_example :
    (passes (match_assertion whole (Raw.object job_matcher) (Value.object job)) ≡ true)
    ↔ All (Holds whole job) (fields job_matcher)
match_assertion_iff-Holds_example =
    match_assertion_iff-Holds whole job_matcher job job_matcher-IsPlain

match_assertion-perm_example :
    passes (match_assertion whole (Raw.object job_matcher) (Value.object job))
    ≡ passes (match_assertion whole (Raw.object job_matcher_swapped) (Value.object job))
match_assertion-perm_example =
    match_assertion-perm whole job_matcher job_matcher_swapped job job_matcher-IsPlain
      job_matcher_swapped-IsPlain ∣ Permᴰ.swap refl refl ∣₁

match_assertion_iff-Pointwise_example :
    (passes (match_assertion whole (Raw.array numbers) (Value.array number_values)) ≡ true)
    ↔ Pointwise (match_assertion whole) (items numbers) (elements number_values)
match_assertion_iff-Pointwise_example = match_assertion_iff-Pointwise whole numbers number_values
