-- ===== src/Assertions/Match/Total.antt =====
-- MatchAssertion terminates, and satisfies the equation that its Go body states.
use ojs_conformance.Common.{
  ℕ, zero, suc, ◌<◌, ◌≤◌, Text, text, List, [], ◌∷◌, Option, none, some, ◌≡◌, refl, ◌∙◌, sym, arith,
  Option-cases, inl, inr, Bool, true, false,
}
use ojs_conformance.Json.{Runtime, Value, Raw, Items, Fields, elements}
use ojs_conformance.Json.Unmarshal.{get_field, items, fields, unmarshal_array}
use ojs_conformance.Json.Size.{
  size, size-pos, Below, FieldsBelow, items-Below, fields-FieldsBelow, unmarshal_array-Below,
  get_field-lt, Below-mono,
}
use ojs_conformance.Assertions.Strings.{match_string_assertion}
use ojs_conformance.Assertions.Match.{
  Rec, Map, wants_absent, match_elements, match_array_assertion, match_field, match_fields,
  match_plain_object, match_any, match_alternatives, match_object_assertion, match_with, match_fuel,
  match_assertion,
}

module _ {Num : Type 0} (f g : Rec Num) where
  -- Two recursive calls agree on the messages that are smaller than `n`.
  abbrev Agree : ℕ → Type 0
  Agree n = (r : Raw Num) (v : Value Num) → size r < n → f r v ≡ g r v

  module _ {n : ℕ} (same : Agree n) where
    match_elements-Agree :
        (i : ℕ) (rs : List (Raw Num)) (vs : List (Value Num))
        → Below n rs
        → match_elements f i rs vs ≡ match_elements g i rs vs
    unfolding match_elements
    match_elements-Agree i [] vs b = refl
    match_elements-Agree i (r ∷ rs) [] b = refl
    match_elements-Agree i (r ∷ rs) (v ∷ vs) b =
        rw (same r v b.0, match_elements-Agree (suc i) rs vs b.1)

    match_field-Agree :
        (key : Text) (exp : Raw Num) (b : Bool) (o : Option (Value Num))
        → size exp < n
        → match_field f key exp b o ≡ match_field g key exp b o
    unfolding match_field
    match_field-Agree key exp false (some v) h = rw (same exp v h)
    match_field-Agree key exp false none h = refl
    match_field-Agree key exp true none h = refl
    match_field-Agree key exp true (some v) h = refl

    match_fields-Agree :
        (fs : Map Num) (obj : Text → Option (Value Num))
        → FieldsBelow n fs
        → match_fields f fs obj ≡ match_fields g fs obj
    unfolding match_fields
    match_fields-Agree [] obj b = refl
    match_fields-Agree ((key, exp) ∷ fs) obj b =
        let here = match_field-Agree key exp (wants_absent exp) (obj key) b.0 in
        rw (here, match_fields-Agree fs obj b.1, match_fields)

    match_any-Agree :
        (rs : List (Raw Num)) (v : Value Num) → Below n rs → match_any f rs v ≡ match_any g rs v
    unfolding match_any
    match_any-Agree [] v b = refl
    match_any-Agree (r ∷ rs) v b = rw (same r v b.0, match_any-Agree rs v b.1)

    match_array_assertion-Agree :
        (rs : List (Raw Num)) (v : Value Num)
        → Below n rs
        → match_array_assertion f rs v ≡ match_array_assertion g rs v
    unfolding match_array_assertion
    match_array_assertion-Agree rs (Value.array vs) b =
        rw (match_elements-Agree 0 rs (elements vs) b)
    match_array_assertion-Agree rs _ b = refl

    match_plain_object-Agree :
        (fs : Map Num) (v : Value Num)
        → FieldsBelow n fs
        → match_plain_object f fs v ≡ match_plain_object g fs v
    unfolding match_plain_object
    match_plain_object-Agree fs (Value.object es) b = match_fields-Agree fs _ b
    match_plain_object-Agree fs _ b = refl

    match_alternatives-Agree :
        (key : Text) (fs : Map Num) (v : Value Num)
        → FieldsBelow n fs
        → match_alternatives key f fs v ≡ match_alternatives key g fs v
    unfolding match_alternatives
    match_alternatives-Agree key fs v b = elim (Option-cases (get_field key fs)) [
      | inl e ↦ rw (e, match_alternatives)
      | inr (r, e) ↦ elim (Option-cases (unmarshal_array r)) [
        | inl u ↦ rw (e, u, match_alternatives)
        | inr (rs, u) ↦
            let small = get_field-lt n key fs r b e in
            let below = unmarshal_array-Below r rs u in
            rw (e, u, match_alternatives)
              (match_any-Agree rs v (Below-mono (size r) n rs (omega arith) below))
      ]
    ]

    match_object_assertion-Agree :
        (R : Runtime Num) (fs : Map Num) (v : Value Num)
        → FieldsBelow n fs
        → match_object_assertion R f fs v ≡ match_object_assertion R g fs v
    unfolding match_object_assertion
    match_object_assertion-Agree R fs v b =
        let same_in = match_alternatives-Agree (text "$in") fs v b in
        let same_or = match_alternatives-Agree (text "$or") fs v b in
        let same_fields = match_plain_object-Agree fs v b in
        elim (Option-cases (get_field (text "range") fs)) [
          | inl e ↦ rw (e, same_in, same_or, same_fields)
          | inr (r, e) ↦ rw (e, same_in, same_or)
        ]

  -- So the body of MatchAssertion needs the recursive call at smaller messages only.
  match_with-Agree :
      (R : Runtime Num) (m : Raw Num) (v : Value Num)
      → Agree (size m)
      → match_with R f m v ≡ match_with R g m v
  unfolding match_with size
  match_with-Agree R Raw.null v same = refl
  match_with-Agree R (Raw.array rs) v same =
      match_array_assertion-Agree same (items rs) v (items-Below _ rs (omega arith))
  match_with-Agree R (Raw.object fs) v same =
      match_object_assertion-Agree same R (fields fs) v (fields-FieldsBelow _ fs (omega arith))
  match_with-Agree R _ v same = refl

module _ {Num : Type 0} (R : Runtime Num) where
  match_fuel-enough :
      (j k : ℕ) (m : Raw Num) (v : Value Num)
      → size m ≤ j
      → size m ≤ k
      → match_fuel R j m v ≡ match_fuel R k m v
  unfolding match_fuel
  match_fuel-enough zero k m v hj hk = absurd (omega (arith, size-pos m))
  match_fuel-enough (suc j) zero m v hj hk = absurd (omega (arith, size-pos m))
  match_fuel-enough (suc j) (suc k) m v hj hk =
      match_with-Agree (match_fuel R j) (match_fuel R k) R m v
        (λ r w h. match_fuel-enough j k r w (omega arith) (omega arith))

  -- The answer of MatchAssertion is that of its Go body, in which the recursive calls are calls of
  -- MatchAssertion itself.
  pub match_assertion-match_with :
      (m : Raw Num) (v : Value Num) → match_assertion R m v ≡ match_with R (match_assertion R) m v
  unfolding match_assertion match_fuel
  match_assertion-match_with m v =
      match_fuel-enough (size m) (suc (size m)) m v (omega arith) (omega arith)
      ∙ match_with-Agree (match_fuel R (size m)) (match_assertion R) R m v
          (λ r w h. match_fuel-enough (size m) (size r) r w (omega arith) (omega arith))

  -- The Go body unrolled to a depth; a call that is deeper gets the answer of `base`.
  abbrev pub unrolled : Rec Num → ℕ → Rec Num
  unrolled base zero = base
  unrolled base (suc n) = match_with R (unrolled base n)

  -- MatchAssertion terminates: its body makes no chain of calls longer than the size of the matcher,
  -- since from this depth on the unrolled body gives the answer of MatchAssertion, whatever a deeper call
  -- would return.
  pub match_assertion-unrolled :
      (base : Rec Num) (n : ℕ) (m : Raw Num) (v : Value Num)
      → size m ≤ n
      → unrolled base n m v ≡ match_assertion R m v
  match_assertion-unrolled base zero m v h = absurd (omega (arith, size-pos m))
  match_assertion-unrolled base (suc n) m v h =
      match_with-Agree (unrolled base n) (match_assertion R) R m v
        (λ r w k. match_assertion-unrolled base n r w (omega arith))
      ∙ sym (match_assertion-match_with m v)

  -- The same for each kind of matcher.
  pub match_assertion-object :
      (fs : Fields Num) (v : Value Num)
      → match_assertion R (Raw.object fs) v
        ≡ match_object_assertion R (match_assertion R) (fields fs) v
  unfolding match_with
  match_assertion-object fs v = match_assertion-match_with (Raw.object fs) v

  pub match_assertion-array :
      (rs : Items Num) (v : Value Num)
      → match_assertion R (Raw.array rs) v ≡ match_array_assertion (match_assertion R) (items rs) v
  unfolding match_with
  match_assertion-array rs v = match_assertion-match_with (Raw.array rs) v

  pub match_assertion-string :
      (s : Text) (v : Value Num) → match_assertion R (Raw.string s) v ≡ match_string_assertion R s v
  unfolding match_with
  match_assertion-string s v = match_assertion-match_with (Raw.string s) v
