-- ===== src/Badge.antt =====
-- badge/badge.go: the SVG of a badge and the handler that serves it. The length of a string in bytes
-- is an argument.
use ojs_conformance.Common.{
  ℕ, ◌+◌, ◌*◌, ◌/◌, Text, text, true, List, [], ◌∷◌, ◌++◌, ◌≡◌, ◌≢◌, refl, arith, str_eq, length,
  drop, decimal, has_prefix, has_prefix-append, contains, if◌then◌else◌, append-nil, subst,
  get_elem?, some, zero, suc,
}
use ojs_conformance.Client.{trim_suffix}

-- The color of the value.
unfoldable pub badge_color : Text → Text
unfolding str_eq
badge_color status =
    if str_eq status (text "fail")
    then text "#e05d44"
    else if str_eq status (text "partial")
    then text "#dfb317"
    else text "#4c1"

-- A list of texts, one behind the other.
unfoldable pub concat : List Text → Text
concat [] = []
concat (t ∷ ts) = t ++ concat ts

abbrev pub badge_width : ℕ → ℕ
badge_width len = len * 7 + 10

-- The pieces of the template of SVG, with its arguments between them.
unfoldable pub badge_parts : (Text → ℕ) → Text → Text → Text → List Text
unfolding badge_color decimal
badge_parts byte_length label level status =
    let color = badge_color status in
    let label_width = badge_width (byte_length label) in
    let value_width = badge_width (byte_length level) in
    let total_width = label_width + value_width in
    text "<svg xmlns=\"http://www.w3.org/2000/svg\" width=\""
    ∷ decimal total_width
    ∷ text "\" height=\"20\" role=\"img\">\n"
    ∷ text "  <linearGradient id=\"s\" x2=\"0\" y2=\"100%\"><stop offset=\"0\" "
    ∷ text "stop-color=\"#bbb\" stop-opacity=\".1\"/><stop offset=\"1\" "
    ∷ text "stop-opacity=\".1\"/></linearGradient>\n"
    ∷ text "  <clipPath id=\"r\"><rect width=\""
    ∷ decimal total_width
    ∷ text "\" height=\"20\" rx=\"3\" fill=\"#fff\"/></clipPath>\n"
    ∷ text "  <g clip-path=\"url(#r)\">\n"
    ∷ text "    <rect width=\""
    ∷ decimal label_width
    ∷ text "\" height=\"20\" fill=\"#555\"/>\n    <rect x=\""
    ∷ decimal label_width
    ∷ text "\" width=\""
    ∷ decimal value_width
    ∷ text "\" height=\"20\" fill=\""
    ∷ color
    ∷ text "\"/>\n    <rect width=\""
    ∷ decimal total_width
    ∷ text "\" height=\"20\" fill=\"url(#s)\"/>\n"
    ∷ text "  </g>\n"
    ∷ text "  <g fill=\"#fff\" text-anchor=\"middle\" "
    ∷ text "font-family=\"Verdana,Geneva,DejaVu Sans,sans-serif\" "
    ∷ text "text-rendering=\"geometricPrecision\" font-size=\"11\">\n"
    ∷ text "    <text x=\""
    ∷ decimal (label_width / 2)
    ∷ text "\" y=\"15\" fill=\"#010101\" fill-opacity=\".3\">"
    ∷ label
    ∷ text "</text>\n    <text x=\""
    ∷ decimal (label_width / 2)
    ∷ text "\" y=\"14\">"
    ∷ label
    ∷ text "</text>\n    <text x=\""
    ∷ decimal (label_width + value_width / 2)
    ∷ text "\" y=\"15\" fill=\"#010101\" fill-opacity=\".3\">"
    ∷ level
    ∷ text "</text>\n    <text x=\""
    ∷ decimal (label_width + value_width / 2)
    ∷ text "\" y=\"14\">"
    ∷ level
    ∷ text "</text>\n  </g>\n</svg>"
    ∷ []

-- SVG
unfoldable pub svg : (Text → ℕ) → Text → Text → Text → Text
unfolding badge_parts concat
svg byte_length label level status = concat (badge_parts byte_length label level status)

-- The value, or the default where it is empty.
abbrev or_default : Text → Text → Text
or_default [] default = default
or_default (c ∷ cs) default = c ∷ cs

abbrev pub badge_label : Text → Text
badge_label [] = text "OJS conformance"
badge_label (c ∷ cs) = text "OJS " ++ (c ∷ cs)

abbrev level_in : Text → Text
unfolding trim_suffix
level_in path =
    or_default (trim_suffix (drop (length (text "/badge/")) path) (text ".svg")) (text "L0-L4")

-- Handler.ServeBadge: the headers and the body, from the path, which the route lets begin with /badge/,
-- and the values of `status` and `name` in the query.
unfoldable pub serve_badge : (Text → ℕ) → Text → Text → Text → List (Text × Text) × Text
unfolding svg trim_suffix
serve_badge byte_length path status name =
    let level = level_in path in
    (
      (text "Content-Type", text "image/svg+xml") ∷ (text "Cache-Control", text "max-age=300") ∷ [],
      svg byte_length (badge_label name) level (or_default status (text "pass")),
    )

contains-prefix : (s p : Text) → has_prefix s p ≡ true → contains s p ≡ true
unfolding contains
contains-prefix [] p h = h
contains-prefix (x ∷ xs) p h = rw (h, contains) refl

contains-behind : (a s p : Text) → contains s p ≡ true → contains (a ++ s) p ≡ true
unfolding contains
contains-behind [] s p h = h
contains-behind (x ∷ a) s p h = ground (arith, contains-behind a s p)

has_prefix-longer : (s r p : Text) → has_prefix s p ≡ true → has_prefix (s ++ r) p ≡ true
unfolding has_prefix
has_prefix-longer s r [] h = refl
has_prefix-longer [] r (y ∷ ys) h = ground arith
has_prefix-longer (x ∷ xs) r (y ∷ ys) h = ground (arith, has_prefix-longer xs r ys)

contains-append : (s r p : Text) → contains s p ≡ true → contains (s ++ r) p ≡ true
unfolding contains
contains-append [] r p h = contains-prefix r p (has_prefix-longer [] r p h)
contains-append (x ∷ xs) r p h =
    ground (arith, contains-append xs r p, has_prefix-longer (x ∷ xs) r p)

contains-concat :
    (ts : List Text) (i : ℕ) (t p : Text)
    → get_elem? ts i ≡ some t
    → contains t p ≡ true
    → contains (concat ts) p ≡ true
unfolding concat
contains-concat [] i t p e h = ground arith
contains-concat (u ∷ ts) zero t p e h =
    contains-append u (concat ts) p (let q : u ≡ t = cc in rw q h)
contains-concat (u ∷ ts) (suc i) t p e h =
    contains-behind u (concat ts) p (contains-concat ts i t p e h)

contains_self : (p : Text) → contains p p ≡ true
contains_self p =
    contains-prefix p p (subst (λ t. has_prefix t p ≡ true) (append-nil p) (has_prefix-append p []))

-- A name that is not empty stands in the badge as it is, with nothing escaped.
pub serve_badge-verbatim :
    (byte_length : Text → ℕ) (path status name : Text)
    → name ≢ []
    → contains (serve_badge byte_length path status name).1 name ≡ true
unfolding serve_badge badge_parts
serve_badge-verbatim byte_length path status [] ne = absurd (ne refl)
serve_badge-verbatim byte_length path status (c ∷ cs) ne =
    contains-concat
      (badge_parts byte_length (badge_label (c ∷ cs)) (level_in path)
        (or_default status (text "pass")))
      28 (badge_label (c ∷ cs)) (c ∷ cs) refl
      (contains-behind (text "OJS ") (c ∷ cs) (c ∷ cs) (contains_self (c ∷ cs)))
