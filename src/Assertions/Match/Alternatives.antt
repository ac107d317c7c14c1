-- ===== src/Assertions/Match/Alternatives.antt =====
-- The operators `$or`, `$in` and `$empty`, and arrays of matchers.
use ojs_conformance.Common.{
  ℕ, suc, text, true, List, [], ◌∷◌, none, some, ◌≡◌, refl, ◌↔◌, sym, arith, any, length, ◌==◌,
  ==_iff, Bool-cases, &&_iff, inl, inr,
}
use ojs_conformance.Json.{Runtime, Value, Values, Raw, Items, Fields, elements}
use ojs_conformance.Json.Unmarshal.{get_field, has_field, items, fields}
use ojs_conformance.Assertions.{passes, passes-and_then, passes-wrap, wrap, at_index, pass}
use ojs_conformance.Assertions.Match.{
  Rec, Map, match_any, match_alternatives, match_elements, match_array_assertion,
  match_object_assertion, match_assertion,
}
use ojs_conformance.Assertions.Match.Total.{match_assertion-object, match_assertion-array}

module _ {Num : Type 0} where
  match_any-any :
      (rec : Rec Num) (rs : List (Raw Num)) (v : Value Num)
      → passes (match_any rec rs v) ≡ any (λ r. passes (rec r v)) rs
  unfolding match_any
  match_any-any rec [] v = refl
  match_any-any rec (r ∷ rs) v = ground (arith, match_any-any rec rs v)

  -- None of the operators that come before `$size`.
  pub record NotEarly (fs : Map Num) : Type 0 where
    pub no_exists : get_field (text "$exists") fs ≡ none
    pub no_match : get_field (text "$match") fs ≡ none

  pub record NotMiddle (fs : Map Num) : Type 0 where
    pub early : NotEarly fs
    pub no_in : get_field (text "$in") fs ≡ none
    pub no_size : get_field (text "$size") fs ≡ none

  module _ (R : Runtime Num) (fs : Fields Num) (v : Value Num) where
    -- An object with `$in`, and without `$exists` and `$match`, passes exactly when some message of
    -- the list passes.
    pub match_assertion-in :
        (rs : Items Num)
        → NotEarly (fields fs)
        → get_field (text "$in") (fields fs) ≡ some (Raw.array rs)
        → passes (match_assertion R (Raw.object fs) v)
          ≡ any (λ r. passes (match_assertion R r v)) (items rs)
    unfolding match_object_assertion match_alternatives
    match_assertion-in rs p e =
        rw
          (match_assertion-object R fs v, p.no_exists, p.no_match, e, has_field, match_alternatives)
          (match_any-any (match_assertion R) (items rs) v)

    -- An object with `$or`, and without `$exists`, `$match`, `$in` and `$size`, passes exactly when
    -- some alternative passes.
    pub match_assertion-or :
        (rs : Items Num)
        → NotMiddle (fields fs)
        → get_field (text "$or") (fields fs) ≡ some (Raw.array rs)
        → passes (match_assertion R (Raw.object fs) v)
          ≡ any (λ r. passes (match_assertion R r v)) (items rs)
    unfolding match_object_assertion match_alternatives
    match_assertion-or rs p e =
        rw
          (
            match_assertion-object R fs v,
            p.early.no_exists,
            p.early.no_match,
            p.no_in,
            p.no_size,
            e,
            has_field,
            match_alternatives,
          )
          (match_any-any (match_assertion R) (items rs) v)

    -- An object with `$empty`, and without the operators before it, passes for every value, whatever
    -- the operand of `$empty` is.
    pub match_assertion-empty :
        (r : Raw Num)
        → NotMiddle (fields fs)
        → get_field (text "$or") (fields fs) ≡ none
        → get_field (text "$empty") (fields fs) ≡ some r
        → match_assertion R (Raw.object fs) v ≡ pass
    unfolding match_object_assertion
    match_assertion-empty r p no_or e = rw (
      match_assertion-object R fs v,
      p.early.no_exists,
      p.early.no_match,
      p.no_in,
      p.no_size,
      no_or,
      e,
      has_field,
    )

  -- The lists are equally long and each message accepts the value at its place.
  abbrev pub Pointwise : Rec Num → List (Raw Num) → List (Value Num) → Type 0
  Pointwise rec [] [] = Unit
  Pointwise rec [] (v ∷ vs) = ⊥
  Pointwise rec (r ∷ rs) [] = ⊥
  Pointwise rec (r ∷ rs) (v ∷ vs) = (passes (rec r v) ≡ true) × Pointwise rec rs vs

  Pointwise-length :
      (rec : Rec Num) (rs : List (Raw Num)) (vs : List (Value Num))
      → Pointwise rec rs vs
      → length vs ≡ length rs
  Pointwise-length rec [] [] h = refl
  Pointwise-length rec [] (v ∷ vs) h = absurd h
  Pointwise-length rec (r ∷ rs) [] h = absurd h
  Pointwise-length rec (r ∷ rs) (v ∷ vs) h = omega (arith, Pointwise-length rec rs vs h.1)

  match_elements_iff :
      (rec : Rec Num) (i : ℕ) (rs : List (Raw Num)) (vs : List (Value Num))
      → length vs ≡ length rs
      → (passes (match_elements rec i rs vs) ≡ true) ↔ Pointwise rec rs vs
  unfolding match_elements
  match_elements_iff rec i [] [] h = ((λ e. tt), (λ e. refl))
  match_elements_iff rec i [] (v ∷ vs) h = absurd (omega arith)
  match_elements_iff rec i (r ∷ rs) [] h = absurd (omega arith)
  match_elements_iff rec i (r ∷ rs) (v ∷ vs) h =
      let rest = match_elements_iff rec (suc i) rs vs (omega arith) in
      let here = passes-wrap (at_index i) (rec r v) in
      let both = &&_iff (passes (rec r v)) (passes (match_elements rec (suc i) rs vs)) in
      rw (passes-and_then (wrap (at_index i) (rec r v)) (match_elements rec (suc i) rs vs), here)
        ((λ e. ((both.0 e).0, rest.0 ((both.0 e).1))), (λ e. both.1 (e.0, rest.1 (e.1))))

  match_array_assertion_iff :
      (rec : Rec Num) (rs : List (Raw Num)) (vs : Values Num)
      → (passes (match_array_assertion rec rs (Value.array vs)) ≡ true)
        ↔ Pointwise rec rs (elements vs)
  unfolding match_array_assertion
  match_array_assertion_iff rec rs vs = elim (Bool-cases (length (elements vs) == length rs)) [
    | inl same ↦ rw same (match_elements_iff rec 0 rs (elements vs) ((==_iff _ _).0 same))
    | inr other ↦
        rw other (
          (λ e. cc),
          (λ h. cc (sym other, (==_iff _ _).1 (Pointwise-length rec rs (elements vs) h))),
        )
  ]

  -- An array of matchers passes for an array exactly when both have the same length and each matcher
  -- passes for the element at its index.
  pub match_assertion_iff-Pointwise :
      (R : Runtime Num) (rs : Items Num) (vs : Values Num)
      → (passes (match_assertion R (Raw.array rs) (Value.array vs)) ≡ true)
        ↔ Pointwise (match_assertion R) (items rs) (elements vs)
  match_assertion_iff-Pointwise R rs vs =
      rw (match_assertion-array R rs (Value.array vs))
        (match_array_assertion_iff (match_assertion R) (items rs) vs)
