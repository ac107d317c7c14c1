-- ===== src/JsonPath/Lengths.antt =====
-- How long the texts are that ResolveJSONPath cuts out of a path.
use ojs_conformance.Common.{
  ℕ, suc, ◌+◌, ◌≤◌, Text, text, ℤ, pos, inc, dec, true, List, [], ◌∷◌, ◌++◌, some, ◌≡◌, ◌∙◌, ap,
  sym, arith, length, length-append, length-drop, drop, has_prefix, has_prefix-split, cut, join,
  trim_prefix, Bool-cases, Option-cases, some_inj, inl, inr,
}
use ojs_conformance.JsonPath.{last_part, split_from, split_json_path, remaining_path}

-- The parts, each with its dot.
unfoldable pub weight : List Text → ℕ
weight [] = 0
weight (p ∷ ps) = suc (length p + weight ps)

pub length-join :
    (p : Text) (ps : List Text) → length (join (text ".") (p ∷ ps)) ≡ length p + weight ps
unfolding join weight
length-join p [] = omega arith
length-join p (q ∷ ps) =
    length-append p (b'.' ∷ join (text ".") (q ∷ ps)) ∙ omega (arith, length-join q ps)

pub length-trim_prefix : (s p : Text) → length (trim_prefix s p) ≤ length s
unfolding trim_prefix
length-trim_prefix s p = elim (Bool-cases (has_prefix s p)) [
  | inl e ↦ rw e (omega (arith, length-drop (length p) s))
  | inr e ↦ rw e (omega arith)
]

length-has_prefix : (s p : Text) → has_prefix s p ≡ true → length p ≤ length s
length-has_prefix s p h =
    omega (arith, ap length (has_prefix-split s p h), length-append p (drop (length p) s))

pub length-cut :
    (p s : Text) (g : Text × Text)
    → cut p s ≡ some g
    → length g.0 + (length p + length g.1) ≡ length s
unfolding cut
length-cut p [] g e = elim (Bool-cases (has_prefix [] p)) [
  | inl f ↦
      let found : ([], []) ≡ g = some_inj (rw f at e) in
      let short = length-has_prefix [] p f in rw (sym found) (omega (arith, short))
  | inr f ↦ let bad = rw f at e in ground arith
]
length-cut p (x ∷ xs) g e = elim (Bool-cases (has_prefix (x ∷ xs) p)) [
  | inl f ↦
      let found : ([], drop (length p) (x ∷ xs)) ≡ g = some_inj (rw f at e) in
      let short = length-has_prefix (x ∷ xs) p f in
      rw (sym found) (omega (arith, short, length-drop (length p) (x ∷ xs)))
  | inr f ↦ elim (Option-cases (cut p xs)) [
    | inl q ↦ let bad = rw (f, q) at e in ground arith
    | inr (k, q) ↦
        let found : (x ∷ k.0, k.1) ≡ g = some_inj (rw (f, q) at e) in
        let ih = length-cut p xs k q in rw (sym found) (omega (arith, ih))
  ]
]

length-last_part : (s : Text) → weight (last_part s) ≤ suc (length s)
unfolding last_part weight
length-last_part [] = omega arith
length-last_part (c ∷ cs) = omega arith

pub weight-split_from :
    (s : Text) (d : ℤ) (current : Text)
    → weight (split_from s d current) ≤ suc (length s + length current)
unfolding split_from weight
weight-split_from [] d current = let h = length-last_part current in omega arith
weight-split_from (c ∷ cs) d current = ground (
  arith,
  length-append current (c ∷ []),
  weight-split_from cs (inc d) (current ++ c ∷ []),
  weight-split_from cs (dec d) (current ++ c ∷ []),
  weight-split_from cs d (current ++ c ∷ []),
  weight-split_from cs d [],
)

pub weight-split_json_path : (s : Text) → weight (split_json_path s) ≤ suc (length s)
unfolding split_json_path
weight-split_json_path s = let h = weight-split_from s (pos 0) [] in omega arith

-- What is left of the path behind a bracket is no longer than the rest of the part and the parts
-- behind it.
pub length-remaining_path :
    (rest : Text) (later : List Text)
    → length (remaining_path rest later) ≤ length rest + weight later
unfolding remaining_path weight
length-remaining_path [] [] = omega arith
length-remaining_path [] (p ∷ later) =
    let t = length-trim_prefix (join (text ".") (p ∷ later)) (text ".") in
    let j = length-join p later in omega arith
length-remaining_path (c ∷ cs) later =
    let t = length-trim_prefix (join (text ".") ((c ∷ cs) ∷ later)) (text ".") in
    let j = length-join (c ∷ cs) later in omega arith
