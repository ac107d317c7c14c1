-- ===== src/JsonPath/Keys.antt =====
-- A path of plain field names looks the fields up one after another.
use ojs_conformance.Common.{
  Text, text, List, [], ◌∷◌, ◌++◌, none, some, ◌≡◌, refl, All, join, length, Option-cases, inl, inr,
}
use ojs_conformance.Json.{Runtime, Value, get_entry}
use ojs_conformance.JsonPath.{
  Resolved, ok, err, expected_object, visit, visit_all, resolve_fuel, resolve_json_path,
}
use ojs_conformance.JsonPath.Split.{IsKey, split_json_path-join, cut-IsKey}

module _ {Num : Type 0} where
  -- The lookups that a path of field names stands for: nil where a field is missing, and an error
  -- where a value in between is no object.
  abbrev pub descend : List Text → Value Num → Resolved Num
  descend [] v = ok v
  descend (k ∷ ks) (Value.object es) = elim (get_entry k es) [
    | none ↦ ok Value.null
    | some w ↦ descend ks w
  ]
  descend (k ∷ ks) _ = err expected_object

  module _ (R : Runtime Num) (rec : Text → Value Num → Resolved Num) where
    visit_all-descend :
        (ks : List Text) (v : Value Num) → All IsKey ks → visit_all R rec ks v ≡ descend ks v
    unfolding visit_all
    visit_all-descend [] v h = refl
    visit_all-descend ([] ∷ ks) v h = absurd (h.0.0 refl)
    visit_all-descend ((c ∷ cs) ∷ ks) (Value.object es) h =
        elim (Option-cases (get_entry (c ∷ cs) es)) [
          | inl e ↦ rw (cut-IsKey (c ∷ cs) (h.0.1), e, visit, descend)
          | inr (w, e) ↦
              rw (cut-IsKey (c ∷ cs) (h.0.1), e, visit, descend) (visit_all-descend ks w h.1)
        ]
    visit_all-descend ((c ∷ cs) ∷ ks) _ h = rw (cut-IsKey (c ∷ cs) (h.0.1), visit)

  -- For field names without dots and brackets, `$.a.b.c` is resolved to the lookups of its names.
  pub resolve_json_path-descend :
      (R : Runtime Num) (ks : List Text) (v : Value Num)
      → All IsKey ks
      → resolve_json_path R (text "$." ++ join (text ".") ks) v ≡ descend ks v
  unfolding resolve_json_path
  resolve_json_path-descend R ks v h =
      rw (split_json_path-join ks h)
        (visit_all-descend R (resolve_fuel R (length (text "$." ++ join (text ".") ks))) ks v h)
