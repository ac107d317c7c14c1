-- ===== src/Common/Fields.antt =====
-- strings.TrimSpace, strings.Split at one character and strings.EqualFold against an ASCII word, with
-- the splitting of numbers in a list.
use Prim.Native.Nat.{ℕ, zero, suc, ◌-◌, ◌/◌}
use mathlib.Core.Path.{◌≡◌, refl, ap, sym, ◌∙◌}
use mathlib.Core.Logic.{inl, inr}
use mathlib.Core.Bool.{Bool, true, ◌&&◌, ◌||◌}
use mathlib.Core.List.{
  List, [], ◌∷◌, ◌++◌, map, reverse, append-nil, append_assoc, reverse-reverse, reverse-append,
}
use native.Mathlib.Omega.{arith}
use ojs_conformance.Common.Tests.{leb, ltb, ◌==◌, if◌then◌else◌, Bool-cases}
use ojs_conformance.Common.Lists.{all}
use ojs_conformance.Common.Texts.{Text, text, str_eq, join, is_digit}
use ojs_conformance.Common.Decimal.{digits_onto, decimal}

-- unicode.IsSpace
abbrev pub is_space : ℕ → Bool
is_space c =
    (leb 9 c && leb c 13)
    || (c == 32
        || (c == 0x85
            || (c == 0xA0
                || (c == 0x1680
                    || ((leb 0x2000 c && leb c 0x200A)
                        || (c == 0x2028
                            || (c == 0x2029 || (c == 0x202F || (c == 0x205F || c == 0x3000)))))))))

unfoldable pub trim_left : Text → Text
trim_left [] = []
trim_left (c ∷ cs) = let rest = trim_left cs in if is_space c then rest else c ∷ cs

-- strings.TrimSpace
unfoldable pub trim_space : Text → Text
unfolding trim_left
trim_space s = reverse (trim_left (reverse (trim_left s)))

-- The loop of strings.Split, from the part read so far.
unfoldable pub split_onto : ℕ → Text → Text → List Text
split_onto sep part [] = part ∷ []
split_onto sep part (c ∷ cs) =
    let cut = split_onto sep [] cs in
    let kept = split_onto sep (part ++ c ∷ []) cs in if c == sep then part ∷ cut else kept

-- strings.Split(s, sep) with a separator of one character
unfoldable pub split_on : ℕ → Text → List Text
unfolding split_onto
split_on sep s = split_onto sep [] s

abbrev pub to_upper : ℕ → ℕ
to_upper c = if leb b'a' c && leb c b'z' then c - 32 else c

-- strings.EqualFold(s, w), for a word `w` of capital letters that fold to ASCII only
unfoldable pub equal_fold : Text → Text → Bool
unfolding str_eq
equal_fold s w = str_eq (map to_upper s) w

digits_onto-all :
    (f n : ℕ) (rest : Text) → all is_digit rest ≡ true → all is_digit (digits_onto f n rest) ≡ true
unfolding digits_onto
digits_onto-all zero n rest h = h
digits_onto-all (suc f) n rest h = elim (Bool-cases (ltb n 10)) [
  | inl small ↦ rw small (ground arith)
  | inr large ↦ rw large (digits_onto-all f (n / 10) _ (ground arith))
]

-- A number in decimal consists of digits.
pub decimal-all : (n : ℕ) → all is_digit (decimal n) ≡ true
unfolding decimal
decimal-all n = digits_onto-all (suc n) n [] refl

pub all-append : (p : ℕ → Bool) (s t : Text) → all p (s ++ t) ≡ (all p s && all p t)
all-append p [] t = refl
all-append p (c ∷ cs) t = ground (arith, all-append p cs t)

pub all-reverse : (p : ℕ → Bool) (s : Text) → all p s ≡ true → all p (reverse s) ≡ true
all-reverse p [] h = refl
all-reverse p (c ∷ cs) h =
    ap (all p) (reverse-append (c ∷ []) cs)
    ∙ (all-append p (reverse cs) (c ∷ []) ∙ ground (arith, all-reverse p cs))

trim_left-digits : (s : Text) → all is_digit s ≡ true → trim_left s ≡ s
unfolding trim_left
trim_left-digits [] h = refl
trim_left-digits (c ∷ cs) h = ground (arith, trim_left-digits cs)

-- White space is trimmed from no run of digits.
pub trim_space-digits : (s : Text) → all is_digit s ≡ true → trim_space s ≡ s
unfolding trim_space
trim_space-digits s h =
    ap (λ t. reverse (trim_left (reverse t))) (trim_left-digits s h)
    ∙ (ap reverse (trim_left-digits (reverse s) (all-reverse is_digit s h)) ∙ reverse-reverse s)

split_onto-digits :
    (part s rest : Text)
    → all is_digit s ≡ true
    → split_onto b',' part (s ++ rest) ≡ split_onto b',' (part ++ s) rest
unfolding split_onto
split_onto-digits part [] rest h = rw (append-nil part) refl
split_onto-digits part (c ∷ cs) rest h =
    ground (arith, split_onto-digits (part ++ c ∷ []) cs rest, append_assoc part (c ∷ []) cs)

-- Numbers in decimal, with commas between them, are found again.
pub split_on-join :
    (n : ℕ) (ns : List ℕ)
    → split_on b',' (join (text ",") (map decimal (n ∷ ns))) ≡ map decimal (n ∷ ns)
unfolding split_on join split_onto
split_on-join n [] =
    ap (split_onto b',' []) (sym (append-nil (decimal n)))
    ∙ split_onto-digits [] (decimal n) [] (decimal-all n)
split_on-join n (m ∷ ns) =
    split_onto-digits [] (decimal n) (b',' ∷ join (text ",") (map decimal (m ∷ ns))) (decimal-all n)
    ∙ ap (◌∷◌ (decimal n)) (split_on-join m ns)
