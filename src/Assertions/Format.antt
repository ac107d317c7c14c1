-- ===== src/Assertions/Format.antt =====
-- fmt.Sprintf("%v", v) of a JSON value, which `contains:` and the path filters compare.
use ojs_conformance.Common.{
  Text, text, Bool, true, false, List, [], ◌∷◌, ◌++◌, ltb, ◌==◌, if◌then◌else◌, join, decimal_ℤ,
}
use ojs_conformance.Json.{Runtime, Value, Values, Entries, nil, cons, end, entry}

-- The order of Go strings.
unfoldable pub text_lt : Text → Text → Bool
text_lt [] [] = false
text_lt [] (y ∷ ys) = true
text_lt (x ∷ xs) [] = false
text_lt (x ∷ xs) (y ∷ ys) = let rest = text_lt xs ys in if x == y then rest else ltb x y

-- fmt prints the entries of a map sorted by key.
insert_pair : Text × Text → List (Text × Text) → List (Text × Text)
unfolding text_lt
insert_pair p [] = p ∷ []
insert_pair p (q ∷ qs) =
    let rest = insert_pair p qs in if text_lt (q.0) (p.0) then q ∷ rest else p ∷ q ∷ qs

show_pairs : List (Text × Text) → List Text
show_pairs [] = []
show_pairs ((k, v) ∷ ps) = (k ++ b':' ∷ v) ∷ show_pairs ps

abbrev bracketed : Text → List Text → Text
bracketed start parts = start ++ b'[' ∷ (join (text " ") parts ++ b']' ∷ [])

module _ {Num : Type 0} (R : Runtime Num) where
  unfoldable mutual
    unfolding insert_pair show_pairs

    pub sprint_v : Value Num → Text
    sprint_v Value.null = text "<nil>"
    sprint_v (Value.bool true) = text "true"
    sprint_v (Value.bool false) = text "false"
    sprint_v (Value.float64 n) = R.format_float n
    sprint_v (Value.float32 n) = R.format_float32 n
    sprint_v (Value.int z) = decimal_ℤ z
    sprint_v (Value.int64 z) = decimal_ℤ z
    sprint_v (Value.int32 z) = decimal_ℤ z
    sprint_v (Value.number s) = s
    sprint_v (Value.string s) = s
    sprint_v (Value.array vs) = bracketed [] (sprint_values vs)
    sprint_v (Value.object es) = bracketed (text "map") (show_pairs (sprint_entries es))

    pub sprint_values : Values Num → List Text
    sprint_values nil = []
    sprint_values (cons v vs) = sprint_v v ∷ sprint_values vs

    pub sprint_entries : Entries Num → List (Text × Text)
    sprint_entries end = []
    sprint_entries (entry k v es) = insert_pair (k, sprint_v v) (sprint_entries es)
