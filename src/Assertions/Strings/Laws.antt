-- ===== src/Assertions/Strings/Laws.antt =====
-- Matchers that agree, and matchers that exclude one another.
use ojs_conformance.Common.{
  ℕ, ◌^◌, ◌<◌, pos, ℤ, Text, text, Bool, true, false, not, ◌++◌, ◌≡◌, refl, ◌==◌, length, decimal,
  atoi-decimal, eq_ℤ, ap, ◌∙◌, Bool-cases, inl, inr,
}
use ojs_conformance.Json.{Runtime, Value, Values, elements}
use ojs_conformance.Assertions.{passes, require, wrong_length, Mismatch}
use ojs_conformance.Assertions.Strings.{match_string_assertion, has_item, on_int}

passes-require : (b : Bool) (e : Mismatch) → passes (require b e) ≡ b
passes-require true e = refl
passes-require false e = refl

module _ {Num : Type 0} (R : Runtime Num) where
  -- `array:min_length:` and `array:min:` are the same matcher, for every text behind the colon and
  -- every value.
  pub match_string_assertion-min :
      (n : Text) (v : Value Num)
      → match_string_assertion R (text "array:min_length:" ++ n) v
        ≡ match_string_assertion R (text "array:min:" ++ n) v
  unfolding match_string_assertion
  match_string_assertion-min n v = refl

  -- Of `absent` and `exists` exactly one passes, whatever the value.
  pub match_string_assertion-absent :
      (v : Value Num)
      → passes (match_string_assertion R (text "absent") v)
        ≡ not (passes (match_string_assertion R (text "exists") v))
  unfolding match_string_assertion
  match_string_assertion-absent Value.null = refl
  match_string_assertion-absent _ = refl

  -- On an array exactly one of `contains:` and `not_contains:` passes, for every target.
  pub match_string_assertion-contains :
      (target : Text) (vs : Values Num)
      → passes (match_string_assertion R (text "contains:" ++ target) (Value.array vs))
        ≡ not (passes (match_string_assertion R (text "not_contains:" ++ target) (Value.array vs)))
  unfolding match_string_assertion
  match_string_assertion-contains target vs = elim (Bool-cases (has_item R target (elements vs))) [
    | inl e ↦ rw e
    | inr e ↦ rw e
  ]

  -- `array:length:N` with N in decimal, N < 2 ^ 63, passes exactly for the arrays of length N.
  pub match_string_assertion-length :
      (n : ℕ) (vs : Values Num)
      → n < 2 ^ 63
      → passes (match_string_assertion R (text "array:length:" ++ decimal n) (Value.array vs))
        ≡ (length (elements vs) == n)
  unfolding match_string_assertion
  match_string_assertion-length n vs h =
      let check = λ (z : ℤ). require (eq_ℤ (pos (length (elements vs))) z) wrong_length in
      ap (λ o. passes (on_int o check)) (atoi-decimal n h) ∙ passes-require _ wrong_length
