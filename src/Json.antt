-- ===== src/Json.antt =====
-- JSON as the library code sees it: a Go `any` that encoding/json produced (`Value`), a
-- json.RawMessage by the tree that it denotes (`Raw`), and the operations of Go's runtime on
-- float64, regular expressions and formatting, which are arguments (`Runtime`).
pub mod Unmarshal
pub mod Size
use ojs_conformance.Common.{
  ℕ, Text, ℤ, Bool, List, [], ◌∷◌, Option, none, some, str_eq, if◌then◌else◌,
}

-- The float64 operations that the matchers use, strconv.ParseFloat, the digits of the verb %v on a
-- float64, and regexp.Compile with Regexp.MatchString. `Num` is the type of the float64 values.
pub record Runtime (Num : Type 0) : Type 0 where
  pub of_int : ℤ → Num
  pub lt : Num → Num → Bool
  pub eq : Num → Num → Bool
  pub sub : Num → Num → Num
  pub abs : Num → Num
  pub trunc : Num → Num
  pub int64_of : Num → ℤ
  -- x * 50 / 100.0, the tolerance of an approximate match
  pub half : Num → Num
  -- the constant 1e-9
  pub epsilon : Num
  -- the value and whether the error is nil
  pub parse_float : Text → Num × Bool
  pub format_float : Num → Text
  pub format_float32 : Num → Text
  pub compile : Text → Option (Text → Bool)

-- The dynamic values: those that encoding/json makes, and the other numeric types of toFloat64.
mutual
  pub data Value (Num : Type 0) : Type 0 where
    null : Value Num
    bool : Bool → Value Num
    float64 : Num → Value Num
    float32 : Num → Value Num
    int : ℤ → Value Num
    int64 : ℤ → Value Num
    int32 : ℤ → Value Num
    number : Text → Value Num
    string : Text → Value Num
    array : Values Num → Value Num
    object : Entries Num → Value Num

  pub data Values (Num : Type 0) : Type 0 where
    nil : Values Num
    cons : Value Num → Values Num → Values Num

  -- A map; a key that stands twice has its first value.
  pub data Entries (Num : Type 0) : Type 0 where
    end : Entries Num
    entry : Text → Value Num → Entries Num → Entries Num

module _ {Num : Type 0} where
  abbrev pub elements : Values Num → List (Value Num)
  elements nil = []
  elements (cons v vs) = v ∷ elements vs

  abbrev pub pairs : Entries Num → List (Text × Value Num)
  pairs end = []
  pairs (entry k v es) = (k, v) ∷ pairs es

  -- `v, ok := obj[key]`
  abbrev pub get_entry : Text → Entries Num → Option (Value Num)
  get_entry k end = none
  get_entry k (entry j v es) = if str_eq j k then some v else get_entry k es

-- The text of a json.RawMessage, by the JSON value that it spells. An integer literal is kept apart
-- from other numbers, since only it unmarshals into an `int`; `malformed` is a text that is not JSON.
mutual
  pub data Raw (Num : Type 0) : Type 0 where
    null : Raw Num
    bool : Bool → Raw Num
    int : ℤ → Raw Num
    float : Num → Raw Num
    string : Text → Raw Num
    array : Items Num → Raw Num
    object : Fields Num → Raw Num
    malformed : Text → Raw Num

  pub data Items (Num : Type 0) : Type 0 where
    nil : Items Num
    cons : Raw Num → Items Num → Items Num

  pub data Fields (Num : Type 0) : Type 0 where
    end : Fields Num
    field : Text → Raw Num → Fields Num → Fields Num
