-- ===== src/Client/Settings.antt =====
-- The idiom of runner/grpc/client.go for optional settings: what is built goes with the flag that the
-- source keeps beside it (hasOpts, hasRetry, hasUnique).
use ojs_conformance.Common.{
  Bool, true, false, ◌||◌, Option, none, some, if◌then◌else◌, ◌≡◌, ◌↔◌, ◌∙◌, refl, ap, arith, inl,
  inr, Bool-cases,
}

-- `if v, ok := …; ok { set the field; the flag = true }`
abbrev pub read {ℓ κ} : {A : Type ℓ} {O : Type κ} → O × Bool → Option A → (O → A → O) → O × Bool
read (o, found) none set = (o, found)
read (o, found) (some a) set = (set o a, true)

-- The same behind a test of the field.
abbrev pub fall_back {ℓ κ} :
    {A : Type ℓ} {O : Type κ} → O × Bool → (O → Bool) → Option A → (O → A → O) → O × Bool
fall_back (o, found) is_unset v set = if is_unset o then read (o, found) v set else (o, found)

-- The pointer that is set only if the flag is.
abbrev pub built {ℓ} : {O : Type ℓ} → O × Bool → Option O
built (o, found) = if found then some o else none

abbrev pub found {ℓ} : {A : Type ℓ} → Option A → Bool
found none = false
found (some a) = true

module _ {ℓ κ} {A : Type ℓ} {O : Type κ} where
  pub read-found : (s : O × Bool) (v : Option A) (f : O → A → O) → (read s v f).1 ≡ s.1 || found v
  read-found (o, true) none f = refl
  read-found (o, true) (some a) f = refl
  read-found (o, false) none f = refl
  read-found (o, false) (some a) f = refl

  -- Nothing is set while the flag is not.
  pub read-blank :
      {blank : O} (s : O × Bool) (v : Option A) (f : O → A → O)
      → (s.1 ≡ false → s.0 ≡ blank)
      → (read s v f).1 ≡ false
      → (read s v f).0 ≡ blank
  read-blank s none f h e = h e
  read-blank s (some a) f h e = ground arith

  pub fall_back-found :
      {blank : O} (s : O × Bool) (t : O → Bool) (v : Option A) (f : O → A → O)
      → t blank ≡ true
      → (s.1 ≡ false → s.0 ≡ blank)
      → (fall_back s t v f).1 ≡ s.1 || found v
  fall_back-found (o, true) t none f e h = ground arith
  fall_back-found (o, true) t (some a) f e h = ground arith
  fall_back-found (o, false) t v f e h =
      rw (ap t (h refl) ∙ e, fall_back) (read-found (o, false) v f)

  pub fall_back-blank :
      {blank : O} (s : O × Bool) (t : O → Bool) (v : Option A) (f : O → A → O)
      → (s.1 ≡ false → s.0 ≡ blank)
      → (fall_back s t v f).1 ≡ false
      → (fall_back s t v f).0 ≡ blank
  fall_back-blank (o, b) t v f h e = elim (Bool-cases (t o)) [
    | inl q ↦ rw (q, fall_back) (read-blank (o, b) v f h (rw (q, fall_back) at e))
    | inr q ↦ rw (q, fall_back) (h (rw (q, fall_back) at e))
  ]

pub built-none_iff {ℓ} :
    {O : Type ℓ} (s : O × Bool) {b : Bool} → s.1 ≡ b → (built s ≡ none) ↔ (b ≡ false)
built-none_iff (o, true) e = ground arith
built-none_iff (o, false) e = ground arith

pub built-some {ℓ} : {O : Type ℓ} (s : O × Bool) {o : O} → built s ≡ some o → s.0 ≡ o
built-some (o, true) e = ground arith
built-some (o, false) e = ground arith

pub read-keeps {ℓ κ μ} :
    {A : Type ℓ} {O : Type κ} {X : Type μ} (s : O × Bool) (v : Option A) (f : O → A → O) (g : O → X)
    → ((o : O) (a : A) → g (f o a) ≡ g o)
    → g (read s v f).0 ≡ g s.0
read-keeps s none f g h = refl
read-keeps s (some a) f g h = h s.0 a

pub fall_back-keeps {ℓ κ μ} :
    {A : Type ℓ} {O : Type κ} {X : Type μ} (s : O × Bool) (t : O → Bool) (v : Option A)
    (f : O → A → O) (g : O → X)
    → ((o : O) (a : A) → g (f o a) ≡ g o)
    → g (fall_back s t v f).0 ≡ g s.0
fall_back-keeps s t v f g h = elim (Bool-cases (t s.0)) [
  | inl e ↦ rw (e, fall_back) (read-keeps s v f g h)
  | inr e ↦ rw (e, fall_back) refl
]
