-- ===== src/Assertions/Match/Object.antt =====
-- What an object matcher asks for, and that the order in which Go ranges over it does not matter.
use mathlib.Core.List.{Perm, Permᴰ}
use mathlib.Core.Bool.{Bool-set}
use mathlib.Core.Logic.{∥∥₁_elim}
use ojs_conformance.Common.{
  Text, text, Bool, true, false, ◌&&◌, [], ◌∷◌, Option, none, some, ◌≡◌, refl, ◌↔◌, ◌∙◌, sym, ap,
  arith, inl, inr, all, All, ◌⊎◌, &&_iff, some_inj,
}
use ojs_conformance.Json.{Runtime, Value, Raw, Entries, Fields, get_entry}
use ojs_conformance.Json.Unmarshal.{get_field, fields, has_field}
use ojs_conformance.Assertions.{passes, passes-and_then, passes-wrap}
use ojs_conformance.Assertions.Match.{
  Rec, Map, wants_absent, match_field, match_fields, match_plain_object, match_object_assertion,
  match_assertion,
}
use ojs_conformance.Assertions.Match.Total.{match_assertion-object}

module _ {Num : Type 0} where
  -- No key of the map is an operator of matchObjectAssertion.
  pub record IsPlain (fs : Map Num) : Type 0 where
    pub no_exists : get_field (text "$exists") fs ≡ none
    pub no_match : get_field (text "$match") fs ≡ none
    pub no_in : get_field (text "$in") fs ≡ none
    pub no_size : get_field (text "$size") fs ≡ none
    pub no_or : get_field (text "$or") fs ≡ none
    pub no_empty : get_field (text "$empty") fs ≡ none
    pub no_range : get_field (text "range") fs ≡ none

  match_object_assertion-IsPlain :
      (R : Runtime Num) (rec : Rec Num) (fs : Map Num) (v : Value Num)
      → IsPlain fs
      → match_object_assertion R rec fs v ≡ match_plain_object rec fs v
  unfolding match_object_assertion
  match_object_assertion-IsPlain R rec fs v p =
      rw (p.no_exists, p.no_match, p.no_in, p.no_size, p.no_or, p.no_empty, p.no_range, has_field)

  -- One field of the matcher, as a test.
  abbrev pub field_passes : Rec Num → Entries Num → Text × Raw Num → Bool
  field_passes rec es f =
      passes (match_field rec (f.0) (f.1) (wants_absent (f.1)) (get_entry (f.0) es))

  match_fields-all :
      (rec : Rec Num) (fs : Map Num) (es : Entries Num)
      → passes (match_fields rec fs (λ key. get_entry key es)) ≡ all (field_passes rec es) fs
  unfolding match_fields
  match_fields-all rec [] es = refl
  match_fields-all rec ((key, exp) ∷ fs) es =
      passes-and_then (match_field rec key exp (wants_absent exp) (get_entry key es)) _
      ∙ ap (◌&&◌ (field_passes rec es (key, exp))) (match_fields-all rec fs es)

  all-Permᴰ : (p : Text × Raw Num → Bool) {fs gs : Map Num} → Permᴰ fs gs → all p fs ≡ all p gs
  all-Permᴰ p Permᴰ.nil = refl
  all-Permᴰ p (Permᴰ.cons e h) = ground (arith, ap p e, all-Permᴰ p h)
  all-Permᴰ p (Permᴰ.swap e d) = ground (arith, ap p e, ap p d)
  all-Permᴰ p (Permᴰ.trans h k) = all-Permᴰ p h ∙ all-Permᴰ p k

  match_plain_object-all :
      (R : Runtime Num) (fs : Fields Num) (es : Entries Num)
      → IsPlain (fields fs)
      → passes (match_assertion R (Raw.object fs) (Value.object es))
        ≡ all (field_passes (match_assertion R) es) (fields fs)
  unfolding match_plain_object
  match_plain_object-all R fs es p =
      ap passes (
        match_assertion-object R fs (Value.object es)
        ∙ match_object_assertion-IsPlain R (match_assertion R) (fields fs) (Value.object es) p)
      ∙ match_fields-all (match_assertion R) (fields fs) es

  -- Where neither object has an operator key, a matcher with the same fields in another order
  -- passes for the same objects: the order in which Go ranges over a map does not change the verdict.
  pub match_assertion-perm :
      (R : Runtime Num) (fs gs : Fields Num) (es : Entries Num)
      → IsPlain (fields fs)
      → IsPlain (fields gs)
      → Perm (fields fs) (fields gs)
      → passes (match_assertion R (Raw.object fs) (Value.object es))
        ≡ passes (match_assertion R (Raw.object gs) (Value.object es))
  match_assertion-perm R fs gs es p q h =
      match_plain_object-all R fs es p
      ∙ ∥∥₁_elim h (Bool-set _ _) (all-Permᴰ (field_passes (match_assertion R) es))
      ∙ sym (match_plain_object-all R gs es q)

  -- What one field of the matcher asks of the object: that the key is not there, if the matcher is
  -- `absent`, or that it is there with a value that its matcher accepts.
  abbrev pub Holds : Runtime Num → Entries Num → Text × Raw Num → Type 0
  Holds R es (key, exp) =
      ((wants_absent exp ≡ true) × (get_entry key es ≡ none))
      ⊎ ((wants_absent exp ≡ false)
          × ((v : Value Num) × (get_entry key es ≡ some v)
              × (passes (match_assertion R exp v) ≡ true)))

  match_field_iff :
      (rec : Rec Num) (key : Text) (exp : Raw Num) (b : Bool) (o : Option (Value Num))
      → (passes (match_field rec key exp b o) ≡ true) ↔ (
          ((b ≡ true) × (o ≡ none))
          ⊎ ((b ≡ false) × ((v : Value Num) × (o ≡ some v) × (passes (rec exp v) ≡ true))))
  unfolding match_field
  match_field_iff rec key exp true none = ((λ h. inl (refl, refl)), (λ h. refl))
  match_field_iff rec key exp true (some v) = ((λ h. cc), (λ h. ground arith))
  match_field_iff rec key exp false none = ((λ h. cc), (λ h. ground arith))
  match_field_iff rec key exp false (some v) = (
    (λ h. inr (refl, (v, refl, sym (passes-wrap _ (rec exp v)) ∙ h))),
    (λ h. passes-wrap _ (rec exp v) ∙ accepted h),
  )
    where
      accepted :
          ((false ≡ true) × (some v ≡ none))
            ⊎ ((false ≡ false)
                × ((w : Value Num) × (some v ≡ some w) × (passes (rec exp w) ≡ true)))
          → passes (rec exp v) ≡ true
      accepted (inl (e, d)) = cc
      accepted (inr (e, (w, d, h))) = ap (λ x. passes (rec exp x)) (some_inj d) ∙ h

  field_passes_iff :
      (R : Runtime Num) (es : Entries Num) (f : Text × Raw Num)
      → (field_passes (match_assertion R) es f ≡ true) ↔ Holds R es f
  field_passes_iff R es (key, exp) =
      match_field_iff (match_assertion R) key exp (wants_absent exp) (get_entry key es)

  all-All :
      (R : Runtime Num) (es : Entries Num) (fs : Map Num)
      → (all (field_passes (match_assertion R) es) fs ≡ true) ↔ All (Holds R es) fs
  all-All R es [] = ((λ h. tt), (λ h. refl))
  all-All R es (f ∷ fs) =
      let here = field_passes_iff R es f in
      let rest = all-All R es fs in
      let both =
        &&_iff (field_passes (match_assertion R) es f)
          (all (field_passes (match_assertion R) es) fs) in
      (
        (λ h. (here.0 ((both.0 h).0), rest.0 ((both.0 h).1))),
        (λ h. both.1 (here.1 (h.0), rest.1 (h.1))),
      )

  -- An object matcher without operator keys passes for an object exactly when every field holds.
  pub match_assertion_iff-Holds :
      (R : Runtime Num) (fs : Fields Num) (es : Entries Num)
      → IsPlain (fields fs)
      → (passes (match_assertion R (Raw.object fs) (Value.object es)) ≡ true)
        ↔ All (Holds R es) (fields fs)
  match_assertion_iff-Holds R fs es p =
      rw (match_plain_object-all R fs es p) (all-All R es (fields fs))
