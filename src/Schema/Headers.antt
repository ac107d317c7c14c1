-- ===== src/Schema/Headers.antt =====
-- lib/schema.go: the header assertions. Maps are lists of entries, in the order of iteration.
use ojs_conformance.Common.{
  Text, text, Bool, true, false, List, [], ◌∷◌, Option, none, some, ◌≡◌, refl, ap, sym, arith, map,
  str_eq, if◌then◌else◌, ◌>>=◌, Option-cases, inl, inr,
}
use ojs_conformance.Json.{Raw}
use ojs_conformance.Json.Unmarshal.{unmarshal_string, unmarshal_object}
use ojs_conformance.Schema.{Assertions}

pub record HeaderMatcher : Type 0 where
  pub value : Text
  pub is_regex : Bool

abbrev pub exact : Text → HeaderMatcher
exact v = record { value = v; is_regex = false }

abbrev pub regex : Text → HeaderMatcher
regex v = record { value = v; is_regex = true }

-- A key of a map of strings.
abbrev pub get_text : Text → List (Text × Text) → Option Text
get_text k [] = none
get_text k ((j, v) ∷ m) = if str_eq j k then some v else get_text k m

with_key : {A : Type 0} → Text → Option A → List (Text × A) → List (Text × A)
with_key k none m = m
with_key k (some a) m = (k, a) ∷ m

-- The value of an object with `$match` or `$eq`.
object_header : Option (List (Text × Text)) → Option Text
object_header none = none
object_header (some m) = elim (get_text (text "$match") m) [
  | some v ↦ some v
  | none ↦ get_text (text "$eq") m
]

object_matcher : Option (List (Text × Text)) → Option HeaderMatcher
object_matcher none = none
object_matcher (some m) = elim (get_text (text "$match") m) [
  | some v ↦ some (regex v)
  | none ↦ elim (get_text (text "$eq") m) [ none ↦ none | some v ↦ some (exact v) ]
]

module _ {Num : Type 0} where
  -- json.Unmarshal into a map[string]string: every value has to be a string.
  unfoldable pub string_map : List (Text × Raw Num) → Option (List (Text × Text))
  string_map [] = some []
  string_map ((k, r) ∷ fs) = do v ← unmarshal_string r; m ← string_map fs; some ((k, v) ∷ m)

  unfoldable pub unmarshal_strings : Raw Num → Option (List (Text × Text))
  unfolding string_map
  unmarshal_strings raw = do fs ← unmarshal_object raw; string_map fs

  header_value : Raw Num → Option Text
  unfolding object_header unmarshal_strings
  header_value raw = elim (unmarshal_string raw) [
    | some v ↦ some v
    | none ↦ object_header (unmarshal_strings raw)
  ]

  header_matcher : Raw Num → Option HeaderMatcher
  unfolding object_matcher unmarshal_strings
  header_matcher raw = elim (unmarshal_string raw) [
    | some v ↦ some (exact v)
    | none ↦ object_matcher (unmarshal_strings raw)
  ]

  -- The loops of the fallback.
  complex_headers : List (Text × Raw Num) → List (Text × Text)
  unfolding with_key header_value
  complex_headers [] = []
  complex_headers ((k, r) ∷ fs) = with_key k (header_value r) (complex_headers fs)

  complex_matchers : List (Text × Raw Num) → List (Text × HeaderMatcher)
  unfolding with_key header_matcher
  complex_matchers [] = []
  complex_matchers ((k, r) ∷ fs) = with_key k (header_matcher r) (complex_matchers fs)

  headers_of : Raw Num → List (Text × Text)
  unfolding complex_headers
  headers_of raw = elim (unmarshal_strings raw) [
    | some simple ↦ simple
    | none ↦ elim (unmarshal_object raw) [ none ↦ [] | some fs ↦ complex_headers fs ]
  ]

  matchers_of : Raw Num → List (Text × HeaderMatcher)
  unfolding complex_matchers
  matchers_of raw = elim (unmarshal_strings raw) [
    | some simple ↦ map (λ h. (h.0, exact (h.1))) simple
    | none ↦ elim (unmarshal_object raw) [ none ↦ [] | some fs ↦ complex_matchers fs ]
  ]

  -- Assertions.ParsedHeaders
  unfoldable pub parsed_headers : Assertions Num → List (Text × Text)
  unfolding headers_of
  parsed_headers a = elim a.headers [ none ↦ [] | some raw ↦ headers_of raw ]

  -- Assertions.ParsedHeaderMatchers
  unfoldable pub parsed_header_matchers : Assertions Num → List (Text × HeaderMatcher)
  unfolding matchers_of
  parsed_header_matchers a = elim a.headers [ none ↦ [] | some raw ↦ matchers_of raw ]

-- What a matcher compares with.
abbrev pub values : List (Text × HeaderMatcher) → List (Text × Text)
values = map (λ h. (h.0, h.1.value))

values-exact : (m : List (Text × Text)) → values (map (λ h. (h.0, exact (h.1))) m) ≡ m
values-exact [] = refl
values-exact (h ∷ m) = ap (◌∷◌ h) (values-exact m)

abbrev value_of : Option HeaderMatcher → Option Text
value_of none = none
value_of (some h) = some h.value

object_header-value_of :
    (o : Option (List (Text × Text))) → object_header o ≡ value_of (object_matcher o)
unfolding object_header object_matcher
object_header-value_of none = refl
object_header-value_of (some m) = ground arith

with_key-values :
    (k : Text) (o : Option HeaderMatcher) (m : List (Text × HeaderMatcher))
    → with_key k (value_of o) (values m) ≡ values (with_key k o m)
unfolding with_key
with_key-values k none m = refl
with_key-values k (some h) m = refl

module _ {Num : Type 0} where
  header_value-value_of : (r : Raw Num) → header_value r ≡ value_of (header_matcher r)
  unfolding header_value header_matcher
  header_value-value_of r = elim (Option-cases (unmarshal_string r)) [
    | inl e ↦ rw (e, header_value, header_matcher) (object_header-value_of (unmarshal_strings r))
    | inr (v, e) ↦ rw (e, header_value, header_matcher)
  ]

  complex_headers-values :
      (fs : List (Text × Raw Num)) → complex_headers fs ≡ values (complex_matchers fs)
  unfolding complex_headers complex_matchers
  complex_headers-values [] = refl
  complex_headers-values ((k, r) ∷ fs) =
      rw (header_value-value_of r, complex_headers-values fs)
        (with_key-values k (header_matcher r) (complex_matchers fs))

  headers_of-values : (raw : Raw Num) → headers_of raw ≡ values (matchers_of raw)
  unfolding headers_of matchers_of
  headers_of-values raw = elim (Option-cases (unmarshal_strings raw)) [
    | inr (m, e) ↦ rw (e, headers_of, matchers_of) (sym (values-exact m))
    | inl e ↦
        rw (e, headers_of, matchers_of)
          (elim (Option-cases (unmarshal_object raw)) [
            | inl d ↦ rw d
            | inr (fs, d) ↦ rw d (complex_headers-values fs)
          ])
  ]

  -- ParsedHeaders and ParsedHeaderMatchers find the same headers, with the same values in the same
  -- order.
  pub parsed_headers-values :
      (a : Assertions Num) → parsed_headers a ≡ values (parsed_header_matchers a)
  unfolding parsed_headers parsed_header_matchers
  parsed_headers-values a = elim (Option-cases a.headers) [
    | inl e ↦ rw e
    | inr (raw, e) ↦ rw e (headers_of-values raw)
  ]
