-- ===== src/Json/Unmarshal.antt =====
-- json.Unmarshal of a json.RawMessage into the Go types that the source unmarshals into. A JSON
-- null leaves the target at its zero value, and is no error.
use ojs_conformance.Common.{
  Text, ℤ, pos, Bool, false, List, [], ◌∷◌, Option, none, some, str_eq, in_int64, if◌then◌else◌,
}
use ojs_conformance.Json.{Runtime, Raw, Items, Fields, nil, cons, end, field}

module _ {Num : Type 0} where
  abbrev pub items : Items Num → List (Raw Num)
  items nil = []
  items (cons r rs) = r ∷ items rs

  abbrev pub fields : Fields Num → List (Text × Raw Num)
  fields end = []
  fields (field k r fs) = (k, r) ∷ fields fs

  -- A key of an unmarshalled map.
  abbrev pub get_field : Text → List (Text × Raw Num) → Option (Raw Num)
  get_field k [] = none
  get_field k ((j, r) ∷ fs) = if str_eq j k then some r else get_field k fs

  -- `_, ok := m[k]`
  unfoldable pub has_field : Text → List (Text × Raw Num) → Bool
  has_field k fs = elim (get_field k fs) [ none ↦ false | some _ ↦ Bool.true ]

  -- into a string
  abbrev pub unmarshal_string : Raw Num → Option Text
  unmarshal_string Raw.null = some []
  unmarshal_string (Raw.string s) = some s
  unmarshal_string _ = none

  -- into a bool
  abbrev pub unmarshal_bool : Raw Num → Option Bool
  unmarshal_bool Raw.null = some false
  unmarshal_bool (Raw.bool b) = some b
  unmarshal_bool _ = none

  -- into an int
  abbrev pub unmarshal_int : Raw Num → Option ℤ
  unmarshal_int Raw.null = some (pos 0)
  unmarshal_int (Raw.int z) = if in_int64 z then some z else none
  unmarshal_int _ = none

  -- into a float64
  abbrev pub unmarshal_float : Runtime Num → Raw Num → Option Num
  unmarshal_float R Raw.null = some (R.of_int (pos 0))
  unmarshal_float R (Raw.int z) = some (R.of_int z)
  unmarshal_float R (Raw.float n) = some n
  unmarshal_float R _ = none

  -- into a []json.RawMessage
  abbrev pub unmarshal_array : Raw Num → Option (List (Raw Num))
  unmarshal_array Raw.null = some []
  unmarshal_array (Raw.array rs) = some (items rs)
  unmarshal_array _ = none

  -- into a map[string]json.RawMessage
  abbrev pub unmarshal_object : Raw Num → Option (List (Text × Raw Num))
  unmarshal_object Raw.null = some []
  unmarshal_object (Raw.object fs) = some (fields fs)
  unmarshal_object _ = none
