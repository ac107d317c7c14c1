-- ===== src/JsonPath.antt =====
-- lib/assertions.go: ResolveJSONPath and splitJSONPath. A Go error is its kind, without the message.
-- The recursive call of ResolveJSONPath is the argument `rec`; `resolve_json_path` ties the knot with the
-- length of the path as fuel, and the loop over chained brackets has the length of its text.
pub mod Split
pub mod Keys
pub mod Lengths
pub mod Brackets
pub mod Total
use ojs_conformance.Common.{
  ℕ, zero, suc, Text, text, ℤ, pos, negsuc, inc, dec, Bool, true, false, not, ◌&&◌, ◌||◌, List, [],
  ◌∷◌, ◌++◌, Option, none, some, ◌==◌, eq_ℤ, ltb, if◌then◌else◌, str_eq, has_prefix, trim_prefix,
  cut, join, atoi, length, drop, get_elem?, reverse,
}
use ojs_conformance.Json.{Runtime, Value, Values, Entries, nil, cons, elements, get_entry}
use ojs_conformance.Assertions.Format.{sprint_v}

pub data PathError : Type 0 where
  expected_object expected_array unclosed unsupported_filter : PathError
  unexpected_characters invalid_index out_of_bounds : PathError
  -- the recursion of the model ended early
  out_of_fuel : PathError

pub data Resolved (Num : Type 0) : Type 0 where
  ok : Value Num → Resolved Num
  err : PathError → Resolved Num

-- What a part of the path does: the loop goes on with a new current value, or the function returns.
pub data Outcome (Num : Type 0) : Type 0 where
  next : Value Num → Outcome Num
  return : Resolved Num → Outcome Num

-- The part that is read when the path ends, unless it is empty.
last_part : Text → List Text
last_part [] = []
last_part (c ∷ cs) = (c ∷ cs) ∷ []

-- The loop of splitJSONPath, from a depth of brackets and the part read so far.
unfoldable pub split_from : Text → ℤ → Text → List Text
unfolding last_part
split_from [] depth current = last_part current
split_from (c ∷ cs) depth current =
    let closed = current ∷ split_from cs depth [] in
    let opened = split_from cs (inc depth) (current ++ c ∷ []) in
    let left = split_from cs (dec depth) (current ++ c ∷ []) in
    let kept = split_from cs depth (current ++ c ∷ []) in
    if c == b'['
    then opened
    else if c == b']'
    then left
    else if c == b'.' && eq_ℤ depth (pos 0)
    then closed
    else kept

unfoldable pub split_json_path : Text → List Text
unfolding split_from
split_json_path path = split_from path (pos 0) []

drop_quotes : Text → Text
drop_quotes [] = []
drop_quotes (c ∷ cs) = let rest = drop_quotes cs in if c == 39 || c == 34 then rest else c ∷ cs

-- strings.Trim(s, "'\"")
trim_quotes : Text → Text
unfolding drop_quotes
trim_quotes s = reverse (drop_quotes (reverse (drop_quotes s)))

-- The remaining brackets of the part and the parts that follow it, as one path.
unfoldable pub remaining_path : Text → List Text → Text
unfolding join trim_prefix
remaining_path [] later = trim_prefix (join (text ".") later) (text ".")
remaining_path (c ∷ cs) later = trim_prefix (join (text ".") ((c ∷ cs) ∷ later)) (text ".")

module _ {Num : Type 0} where
  abbrev pub as_object : Value Num → Option (Entries Num)
  as_object (Value.object es) = some es
  as_object _ = none

  abbrev pub as_array : Value Num → Option (List (Value Num))
  as_array (Value.array vs) = some (elements vs)
  as_array _ = none

  -- `obj[field]`, the zero value nil for a missing key
  abbrev pub entry_or_null : Text → Entries Num → Value Num
  entry_or_null k es = elim (get_entry k es) [ none ↦ Value.null | some v ↦ v ]

  abbrev pub to_values : List (Value Num) → Values Num
  to_values [] = nil
  to_values (v ∷ vs) = cons v (to_values vs)

  -- Goes on from the value that the outcome leaves.
  abbrev pub and_next : Outcome Num → (Value Num → Outcome Num) → Outcome Num
  and_next (next v) f = f v
  and_next (return r) f = return r

  abbrev pub finish : Outcome Num → (Value Num → Resolved Num) → Resolved Num
  finish (next v) f = f v
  finish (return r) f = r

  -- The field in front of the first bracket, if there is one.
  unfoldable pub enter_field : Text → Value Num → Outcome Num
  enter_field [] current = next current
  enter_field (c ∷ cs) current = elim (as_object current) [
    | none ↦ return (err expected_object)
    | some es ↦ next (entry_or_null (c ∷ cs) es)
  ]

  -- A value that the rest of the path finds in an element; errors and nils are left out.
  keep_found : Resolved Num → List (Value Num) → List (Value Num)
  keep_found (err e) later = later
  keep_found (ok Value.null) later = later
  keep_found (ok v) later = v ∷ later

  -- The results of the wildcard: all elements if no path remains.
  unfoldable pub collect :
      (Text → Value Num → Resolved Num) → Text → List (Value Num) → List (Value Num)
  unfolding keep_found
  collect rec [] vs = vs
  collect rec (c ∷ cs) [] = []
  collect rec (c ∷ cs) (v ∷ vs) = keep_found (rec (c ∷ cs) v) (collect rec (c ∷ cs) vs)

  unfoldable pub wildcard :
      (Text → Value Num → Resolved Num) → Text → List Text → Value Num → Resolved Num
  unfolding collect remaining_path
  wildcard rec rest later current = elim (as_array current) [
    | none ↦ err expected_array
    | some arr ↦ ok (Value.array (to_values (collect rec (remaining_path rest later) arr)))
  ]

  -- `arr[index]`, with the checks in front of it
  unfoldable pub at_position : ℤ → Value Num → Outcome Num
  at_position index current = elim (as_array current) [
    | none ↦ return (err expected_array)
    | some arr ↦ elim index [
      | negsuc _ ↦ return (err out_of_bounds)
      | pos i ↦ elim (get_elem? arr i) [ none ↦ return (err out_of_bounds) | some v ↦ next v ]
    ]
  ]

  -- The loop over chained brackets.
  unfoldable pub brackets :
      (Text → Value Num → Resolved Num) → List Text → ℕ → Text → Value Num → Outcome Num
  unfolding has_prefix cut wildcard atoi at_position str_eq
  brackets rec later fuel [] current = next current
  brackets rec later zero (c ∷ cs) current = return (err out_of_fuel)
  brackets rec later (suc fuel) (c ∷ cs) current =
      if not (c == b'[') then return (err unexpected_characters) else elim (cut (text "]") cs) [
        | none ↦ return (err unclosed)
        | some g ↦
            if str_eq (g.0) (text "*")
            then return (wildcard rec (g.1) later current)
            else elim (atoi (g.0)) [
              | none ↦ return (err invalid_index)
              | some index ↦ elim (at_position index current) [
                | return r ↦ return r
                | next v ↦ brackets rec later fuel (g.1) v
              ]
            ]
      ]

  module _ (R : Runtime Num) where
    -- The loop of the filter: the first object whose value at the key is printed as wanted, or nil.
    unfoldable pub find_match : Text → Text → List (Value Num) → Value Num
    find_match key wanted [] = Value.null
    find_match key wanted (item ∷ items) =
        let later = find_match key wanted items in
        elim (as_object item) [
          | none ↦ later
          | some es ↦ elim (get_entry key es) [
            | none ↦ later
            | some v ↦ if str_eq (sprint_v R v) wanted then item else later
          ]
        ]

    -- What stands behind the filter: a field, or text that is left out.
    after_filter : (Text → Value Num → Resolved Num) → Text → Value Num → Outcome Num
    after_filter rec [] matched = next matched
    after_filter rec (c ∷ cs) Value.null = next Value.null
    after_filter rec (c ∷ cs) matched = if c == b'.' then return (rec cs matched) else next matched

    -- A filter expression [?(@.key=='value')].
    unfoldable pub filter_part : (Text → Value Num → Resolved Num) → Text → Value Num → Outcome Num
    unfolding cut find_match after_filter trim_quotes
    filter_part rec rest current = elim (cut (text ")]") rest) [
      | none ↦ return (err unclosed)
      | some g ↦ elim (cut (text "==") (drop 5 (g.0))) [
        | none ↦ return (err unsupported_filter)
        | some kv ↦ elim (as_array current) [
          | none ↦ return (err expected_array)
          | some arr ↦ after_filter rec (g.1) (find_match (kv.0) (trim_quotes (kv.1)) arr)
        ]
      ]
    ]

    -- One part of the path; `later` are the parts that follow it.
    unfoldable pub visit :
        (Text → Value Num → Resolved Num) → Text → List Text → Value Num → Outcome Num
    unfolding cut has_prefix enter_field filter_part brackets
    visit rec [] later current = next current
    visit rec (c ∷ cs) later current = elim (cut (text "[") (c ∷ cs)) [
      | none ↦ elim (as_object current) [
        | none ↦ return (err expected_object)
        | some es ↦ elim (get_entry (c ∷ cs) es) [ none ↦ return (ok Value.null) | some v ↦ next v ]
      ]
      | some g ↦
          let rest = b'[' ∷ g.1 in
          and_next (enter_field (g.0) current) (λ v.
            if has_prefix rest (text "[?(@.")
            then filter_part rec rest v
            else brackets rec later (length rest) rest v)
    ]

    unfoldable pub visit_all :
        (Text → Value Num → Resolved Num) → List Text → Value Num → Resolved Num
    unfolding visit
    visit_all rec [] current = ok current
    visit_all rec (part ∷ later) current =
        finish (visit rec part later current) (visit_all rec later)

    -- The body of ResolveJSONPath.
    unfoldable pub resolve_with :
        (Text → Value Num → Resolved Num) → Text → Value Num → Resolved Num
    unfolding trim_prefix split_json_path visit_all
    resolve_with rec path data' =
        visit_all rec (split_json_path (trim_prefix path (text "$."))) data'

    unfoldable pub resolve_fuel : ℕ → Text → Value Num → Resolved Num
    unfolding resolve_with
    resolve_fuel zero path data' = err out_of_fuel
    resolve_fuel (suc fuel) path data' = resolve_with (resolve_fuel fuel) path data'

    -- ResolveJSONPath
    unfoldable pub resolve_json_path : Text → Value Num → Resolved Num
    unfolding resolve_fuel
    resolve_json_path path data' = resolve_fuel (suc (length path)) path data'
