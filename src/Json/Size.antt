-- ===== src/Json/Size.antt =====
-- The size of a raw message, which bounds the depth of every recursion over it.
use ojs_conformance.Common.{
  subst, some_inj, ℕ, suc, ◌+◌, ◌<◌, ◌≤◌, Text, List, [], ◌∷◌, some, ◌≡◌, arith, All,
}
use ojs_conformance.Json.{Raw, Items, Fields, nil, cons, end, field}
use ojs_conformance.Json.Unmarshal.{items, fields, get_field, unmarshal_array, unmarshal_object}

unfoldable mutual
  pub size : {Num : Type 0} → Raw Num → ℕ
  size Raw.null = 1
  size (Raw.bool b) = 1
  size (Raw.int z) = 1
  size (Raw.float n) = 1
  size (Raw.string s) = 1
  size (Raw.array rs) = suc (size_items rs)
  size (Raw.object fs) = suc (size_fields fs)
  size (Raw.malformed s) = 1

  pub size_items : {Num : Type 0} → Items Num → ℕ
  size_items nil = 0
  size_items (cons r rs) = size r + size_items rs

  pub size_fields : {Num : Type 0} → Fields Num → ℕ
  size_fields end = 0
  size_fields (field k r fs) = size r + size_fields fs

-- Every message of the list is smaller than `n`.
abbrev pub Below : {Num : Type 0} → ℕ → List (Raw Num) → Type 0
Below n = All (λ r. size r < n)

abbrev pub FieldsBelow : {Num : Type 0} → ℕ → List (Text × Raw Num) → Type 0
FieldsBelow n = All (λ f. size (f.1) < n)

module _ {Num : Type 0} where
  pub items-Below : (n : ℕ) (rs : Items Num) → size_items rs < n → Below n (items rs)
  unfolding size
  items-Below n nil h = tt
  items-Below n (cons r rs) h = (omega arith, items-Below n rs (omega arith))

  pub fields-FieldsBelow :
      (n : ℕ) (fs : Fields Num) → size_fields fs < n → FieldsBelow n (fields fs)
  unfolding size
  fields-FieldsBelow n end h = tt
  fields-FieldsBelow n (field k r fs) h = (omega arith, fields-FieldsBelow n fs (omega arith))

  -- What an array or an object unmarshals into is smaller than the message.
  pub unmarshal_array-Below :
      (r : Raw Num) (rs : List (Raw Num)) → unmarshal_array r ≡ some rs → Below (size r) rs
  unfolding size
  unmarshal_array-Below Raw.null rs e = subst (Below 1) (some_inj e) tt
  unmarshal_array-Below (Raw.array xs) rs e =
      subst (Below _) (some_inj e) (items-Below _ xs (omega arith))
  unmarshal_array-Below _ rs e = cc

  pub unmarshal_object-FieldsBelow :
      (r : Raw Num) (fs : List (Text × Raw Num))
      → unmarshal_object r ≡ some fs
      → FieldsBelow (size r) fs
  unfolding size
  unmarshal_object-FieldsBelow Raw.null fs e = subst (FieldsBelow 1) (some_inj e) tt
  unmarshal_object-FieldsBelow (Raw.object xs) fs e =
      subst (FieldsBelow _) (some_inj e) (fields-FieldsBelow _ xs (omega arith))
  unmarshal_object-FieldsBelow _ fs e = cc

  pub get_field-lt :
      (n : ℕ) (k : Text) (fs : List (Text × Raw Num)) (r : Raw Num)
      → FieldsBelow n fs
      → get_field k fs ≡ some r
      → size r < n
  get_field-lt n k [] r b e = cc
  get_field-lt n k ((j, x) ∷ fs) r b e = ground (arith, get_field-lt n k fs r b.1)

  pub size-pos : (r : Raw Num) → 0 < size r
  unfolding size
  size-pos Raw.null = omega arith
  size-pos _ = omega arith

  pub Below-mono : (m n : ℕ) (rs : List (Raw Num)) → m ≤ n → Below m rs → Below n rs
  Below-mono m n [] h b = tt
  Below-mono m n (r ∷ rs) h b = (omega arith, Below-mono m n rs h b.1)
