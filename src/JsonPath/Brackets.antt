-- ===== src/JsonPath/Brackets.antt =====
-- The loop over chained brackets in ResolveJSONPath.
use ojs_conformance.Common.{
  ℕ, zero, suc, ◌≤◌, Text, text, List, [], ◌∷◌, ◌≡◌, refl, arith, length, cut, str_eq, atoi, ◌==◌,
  Bool-cases, Option-cases, inl, inr,
}
use ojs_conformance.Json.{Value}
use ojs_conformance.JsonPath.{Resolved, Outcome, next, return, at_position, brackets}
use ojs_conformance.JsonPath.Lengths.{length-cut}

module _ {Num : Type 0} where
  pub step-Agree :
      (o : Outcome Num) (f g : Value Num → Outcome Num)
      → ((v : Value Num) → f v ≡ g v)
      → (elim o [ return r ↦ return r | next v ↦ f v ])
        ≡ (elim o [ return r ↦ return r | next v ↦ g v ])
  step-Agree (next v) f g h = h v
  step-Agree (return r) f g h = refl

  -- The loop over chained brackets ends: with any fuel from the length of its text on, it gives the
  -- same answer.
  pub brackets_enough :
      (rec : Text → Value Num → Resolved Num) (later : List Text) (f g : ℕ) (rest : Text)
      (v : Value Num)
      → length rest ≤ f
      → length rest ≤ g
      → brackets rec later f rest v ≡ brackets rec later g rest v
  unfolding brackets
  brackets_enough rec later f g [] v h k = refl
  brackets_enough rec later zero g (c ∷ cs) v h k = absurd (omega arith)
  brackets_enough rec later (suc f) zero (c ∷ cs) v h k = absurd (omega arith)
  brackets_enough rec later (suc f) (suc g) (c ∷ cs) v h k = elim (Bool-cases (c == b'[')) [
    | inr e ↦ rw (e, brackets) refl
    | inl e ↦ elim (Option-cases (cut (text "]") cs)) [
      | inl n ↦ rw (e, n, brackets) refl
      | inr (p, n) ↦
          let parts = length-cut (text "]") cs p n in
          elim (Bool-cases (str_eq p.0 (text "*"))) [
            | inl s ↦ rw (e, n, s, brackets) refl
            | inr s ↦ elim (Option-cases (atoi p.0)) [
              | inl a ↦ rw (e, n, s, a, brackets) refl
              | inr (z, a) ↦
                  rw (e, n, s, a, brackets)
                    (step-Agree (at_position z v) (brackets rec later f p.1)
                      (brackets rec later g p.1)
                      (λ w. brackets_enough rec later f g p.1 w (omega arith) (omega arith)))
            ]
          ]
    ]
  ]
