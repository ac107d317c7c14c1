-- ===== src/JsonPath/Split.antt =====
-- splitJSONPath on plain keys.
use ojs_conformance.Common.{
  ℕ, Text, text, pos, Bool, true, not, ◌||◌, List, [], ◌∷◌, ◌++◌, none, ◌≡◌, ◌≢◌, refl, ◌∙◌, sym,
  ap, arith, ◌==◌, all, All, join, cut, append-nil, append_assoc,
}
use ojs_conformance.JsonPath.{split_from, split_json_path}

-- Neither a bracket nor a dot.
abbrev pub is_plain : ℕ → Bool
is_plain c = not (c == b'[' || (c == b']' || c == b'.'))

-- A field name that a path can hold as it is.
abbrev pub IsKey : Text → Type 0
IsKey k = (k ≢ []) × (all is_plain k ≡ true)

split_from-key :
    (key rest current : Text)
    → all is_plain key ≡ true
    → split_from (key ++ rest) (pos 0) current ≡ split_from rest (pos 0) (current ++ key)
unfolding split_from
split_from-key [] rest current h = rw append-nil
split_from-key (c ∷ cs) rest current h =
    ground (arith, split_from-key cs rest (current ++ c ∷ []), append_assoc current (c ∷ []) cs)

split_from-last : (key : Text) → IsKey key → split_from key (pos 0) [] ≡ key ∷ []
unfolding split_from
split_from-last [] h = absurd (h.0 refl)
split_from-last (c ∷ cs) h =
    ap (λ t. split_from t (pos 0) []) (sym (append-nil (c ∷ cs)))
    ∙ split_from-key (c ∷ cs) [] [] h.1

split_from-dot :
    (key rest : Text)
    → IsKey key
    → split_from (key ++ b'.' ∷ rest) (pos 0) [] ≡ key ∷ split_from rest (pos 0) []
unfolding split_from
split_from-dot key rest h = split_from-key key (b'.' ∷ rest) [] h.1

-- The keys of a dotted path are found again.
pub split_json_path-join :
    (ks : List Text) → All IsKey ks → split_json_path (join (text ".") ks) ≡ ks
unfolding split_json_path join
split_json_path-join [] h = refl
split_json_path-join (k ∷ []) h = split_from-last k h.0
split_json_path-join (k ∷ q ∷ ks) h =
    split_from-dot k (join (text ".") (q ∷ ks)) h.0 ∙ ap (◌∷◌ k) (split_json_path-join (q ∷ ks) h.1)

-- Where there is no bracket, none is found.
pub cut-IsKey : (key : Text) → all is_plain key ≡ true → cut (text "[") key ≡ none
unfolding cut
cut-IsKey [] h = refl
cut-IsKey (c ∷ cs) h = ground (arith, cut-IsKey cs)
