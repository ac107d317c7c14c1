-- ===== src/Evaluate/Codes.antt =====
-- The forms of a status assertion that evaluateStatusAssertion (runner/http/runner.go,
-- runner/grpc/assertions.go) accepts.
use ojs_conformance.Common.{
  ℕ, ◌<◌, ◌^◌, Text, text, ℤ, pos, true, List, [], ◌∷◌, ◌++◌, none, some, ◌≡◌, ◌↔◌, ◌∙◌, ap, refl,
  arith, any, All, map, eq_ℤ, in_int64-pos, join, decimal, split_on, split_on-join, trim_space,
  decimal-all, trim_space-digits, atoi, atoi-decimal, has_prefix, drop-length_append, Bool-cases,
  Option-cases, inl, inr,
}
use ojs_conformance.Json.{Runtime, Raw, Items, nil, cons, field, end}
use ojs_conformance.Json.Unmarshal.{items, unmarshal_int, unmarshal_string}
use ojs_conformance.Evaluate.{Codec}
use ojs_conformance.Evaluate.Status.{
  one_of, one_of_loop, codes_of, refused_message, ints, in_list, evaluate_status_assertion,
}
use ojs_conformance.Evaluate.Checks.{status_in_failures}
use ojs_conformance.Evaluate.Expectations.{failing_iff}

-- The outcome of the loop does not depend on the message at its end.
one_of_loop-message :
    (quote : Text → Text) (m n : Text) (actual : ℤ) (codes : List Text)
    → one_of_loop quote m actual codes ≡ none
    → one_of_loop quote n actual codes ≡ none
unfolding one_of_loop
one_of_loop-message quote m n actual [] h = absurd (ground arith)
one_of_loop-message quote m n actual (c ∷ codes) h = elim (Option-cases (atoi (trim_space c))) [
  | inl e ↦ absurd (let h' = rw (e, one_of_loop) at h in ground arith)
  | inr (z, e) ↦ elim (Bool-cases (eq_ℤ actual z)) [
    | inl f ↦ rw (e, f, one_of_loop) refl
    | inr f ↦
        rw (e, f, one_of_loop)
          (one_of_loop-message quote m n actual codes (rw (e, f, one_of_loop) at h))
  ]
]

-- On numbers in decimal, the loop looks for the code among them.
one_of_loop-decimal :
    (quote : Text → Text) (m : Text) (actual : ℤ) (ns : List ℕ)
    → All (λ n. n < 2 ^ 63) ns
    → (one_of_loop quote m actual (map decimal ns) ≡ none) ↔ (any (eq_ℤ actual) (map pos ns) ≡ true)
unfolding one_of_loop
one_of_loop-decimal quote m actual [] small =
    ((λ e. absurd (ground arith)), (λ e. absurd (ground arith)))
one_of_loop-decimal quote m actual (n ∷ ns) (h, small) =
    let read : atoi (trim_space (decimal n)) ≡ some (pos n) =
      ap atoi (trim_space-digits (decimal n) (decimal-all n)) ∙ atoi-decimal n h in
    let later = one_of_loop-decimal quote m actual ns small in
    elim (Bool-cases (eq_ℤ actual (pos n))) [
      | inl f ↦ rw (read, f, one_of_loop) ((λ e. refl), (λ e. refl))
      | inr f ↦ rw (read, f, one_of_loop) later
    ]

module _ {Num : Type 0} (R : Runtime Num) (C : Codec Num) where
  -- Whether a status is accepted does not depend on what the messages end with.
  pub evaluate_status_assertion-suffix :
      (suffix suffix' : ℤ → Text) (raw : Raw Num) (actual : ℤ)
      → evaluate_status_assertion R C suffix raw actual ≡ none
      → evaluate_status_assertion R C suffix' raw actual ≡ none
  unfolding evaluate_status_assertion
  evaluate_status_assertion-suffix suffix suffix' raw actual h =
      elim (Option-cases (unmarshal_int raw)) [
        | inr (z, e) ↦ elim (Bool-cases (eq_ℤ actual z)) [
          | inl f ↦ rw (e, f, evaluate_status_assertion) refl
          | inr f ↦ absurd (let h' = rw (e, f, evaluate_status_assertion) at h in ground arith)
        ]
        | inl e ↦ elim (Option-cases (unmarshal_string raw)) [
          | inr (s, f) ↦ elim (Bool-cases (has_prefix s one_of)) [
            | inl p ↦
                rw (e, f, p, evaluate_status_assertion)
                  (one_of_loop-message C.quote (refused_message suffix actual (codes_of s))
                    (refused_message suffix' actual (codes_of s)) actual
                    (split_on b',' (codes_of s)) (rw (e, f, p, evaluate_status_assertion) at h))
            | inr p ↦
                rw (e, f, p, evaluate_status_assertion)
                  (rw (e, f, p, evaluate_status_assertion) at h)
          ]
          | inl f ↦ elim (Option-cases (in_list raw)) [
            | inl p ↦ absurd (let h' = rw (e, f, p, evaluate_status_assertion) at h in ground arith)
            | inr (zs, p) ↦ elim (Bool-cases (any (eq_ℤ actual) zs)) [
              | inl q ↦ rw (e, f, p, q, evaluate_status_assertion) refl
              | inr q ↦
                  absurd (let h' = rw (e, f, p, q, evaluate_status_assertion) at h in ground arith)
            ]
          ]
        ]
      ]

  -- A list of codes as JSON.
  abbrev pub raw_ints : List ℕ → Items Num
  raw_ints [] = nil
  raw_ints (n ∷ ns) = cons (Raw.int (pos n)) (raw_ints ns)

  ints-raw_ints :
      (ns : List ℕ) → All (λ n. n < 2 ^ 63) ns → ints (items (raw_ints ns)) ≡ some (map pos ns)
  unfolding ints
  ints-raw_ints [] small = refl
  ints-raw_ints (n ∷ ns) (h, small) = rw (in_int64-pos n h, ints-raw_ints ns small) refl

  evaluate_status_assertion-in_list :
      (suffix : ℤ → Text) (raw : Raw Num) (actual : ℤ) {zs : List ℤ}
      → unmarshal_int raw ≡ none
      → unmarshal_string raw ≡ none
      → in_list raw ≡ some zs
      → (evaluate_status_assertion R C suffix raw actual ≡ none) ↔ (any (eq_ℤ actual) zs ≡ true)
  unfolding evaluate_status_assertion
  evaluate_status_assertion-in_list suffix raw actual {zs} no_int no_string listed =
      elim (Bool-cases (any (eq_ℤ actual) zs)) [
        | inl e ↦
            rw (no_int, no_string, listed, e, evaluate_status_assertion) ((λ x. refl), (λ x. refl))
        | inr e ↦
            rw (no_int, no_string, listed, e, evaluate_status_assertion)
              ((λ x. absurd (ground arith)), (λ x. absurd (ground arith)))
      ]

  -- The three ways to list status codes, `one_of:`, `$in` and status_in, accept the same codes: those
  -- of the list, if it is not empty and its entries are in the range of an int.
  pub evaluate_status_assertion-listed :
      (suffix : ℤ → Text) (id : Text) (actual : ℤ) (n : ℕ) (ns : List ℕ)
      → All (λ k. k < 2 ^ 63) (n ∷ ns)
      → let listed = any (eq_ℤ actual) (map pos (n ∷ ns)) ≡ true in
        ((evaluate_status_assertion R C suffix
              (Raw.string (one_of ++ join (text ",") (map decimal (n ∷ ns))))
              actual
            ≡ none)
          ↔ listed)
        × (((evaluate_status_assertion R C suffix
                  (Raw.object (field (text "$in") (Raw.array (raw_ints (n ∷ ns))) end))
                  actual
                ≡ none)
              ↔ listed)
            × ((status_in_failures id (map pos (n ∷ ns)) actual ≡ []) ↔ listed))
  unfolding evaluate_status_assertion status_in_failures
  evaluate_status_assertion-listed suffix id actual n ns small =
      let codes = join (text ",") (map decimal (n ∷ ns)) in
      let behind : codes_of (one_of ++ codes) ≡ codes = drop-length_append one_of codes in
      (
        rw (behind, split_on-join n ns, evaluate_status_assertion)
            (one_of_loop-decimal C.quote (refused_message suffix actual codes) actual (n ∷ ns)
              small),
        (
          evaluate_status_assertion-in_list suffix
              (Raw.object (field (text "$in") (Raw.array (raw_ints (n ∷ ns))) end)) actual refl refl
              (ints-raw_ints (n ∷ ns) small),
          failing_iff (any (eq_ℤ actual) (map pos (n ∷ ns))) _,
        ),
      )
