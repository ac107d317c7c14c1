-- ===== src/Portal/Store.antt =====
-- The store of certificates.
use ojs_conformance.Common.{
  ℕ, ◌+◌, Text, ℤ, pos, Bool, false, ◌&&◌, [], ◌∷◌, Option, none, some, ◌≡◌, refl, ◌∙◌, ap, sym,
  subst, arith, All, str_eq, str_eq_iff, str_eq_refl, ltb, Bool-cases, Option-cases, some_inj, inl,
  inr, if◌then◌else◌,
}
use ojs_conformance.Portal.{
  CertificationRequest, Certificate, Platform, Certs, find_cert, put_cert, issued_status,
  updated_status, validity, new_certificate, updated_certificate, issue, update_certificate, verify,
}

pub find_cert-put_cert :
    (id j : Text) (c : Certificate) (cs : Certs)
    → find_cert j (put_cert id c cs) ≡ (if str_eq id j then some c else find_cert j cs)
unfolding find_cert put_cert
find_cert-put_cert id j c [] = refl
find_cert-put_cert id j c ((k, d) ∷ m) =
    ground (arith, str_eq_iff id j, str_eq_iff k id, str_eq_iff k j, find_cert-put_cert id j c m)

-- Every certificate stands under its own id.
abbrev pub IsKeyed : Certs → Type 0
IsKeyed cs = All (λ e. e.1.id ≡ e.0) cs

put_cert-IsKeyed :
    (id : Text) (c : Certificate) (cs : Certs) → c.id ≡ id → IsKeyed cs → IsKeyed (put_cert id c cs)
unfolding put_cert
put_cert-IsKeyed id c [] e h = (e, tt)
put_cert-IsKeyed id c ((k, d) ∷ m) e h = elim (Bool-cases (str_eq k id)) [
  | inl same ↦ rw same (e ∙ sym ((str_eq_iff k id).0 same), h.1)
  | inr other ↦ rw other (h.0, put_cert-IsKeyed id c m e h.1)
]

find_cert-IsKeyed :
    (id : Text) (c : Certificate) (cs : Certs) → find_cert id cs ≡ some c → IsKeyed cs → c.id ≡ id
unfolding find_cert
find_cert-IsKeyed id c [] e h = ground arith
find_cert-IsKeyed id c ((k, d) ∷ m) e h = elim (Bool-cases (str_eq k id)) [
  | inl same ↦
      let found : d ≡ c = some_inj (rw same at e) in
      sym (ap (λ x. x.id) found) ∙ (h.0 ∙ (str_eq_iff k id).0 same)
  | inr other ↦ find_cert-IsKeyed id c m (rw other at e) h.1
]

-- On counts that are not negative, Issue and UpdateCertificate give a certificate the same status.
pub issued_status-updated_status :
    (passed failed : ℕ)
    → issued_status (pos passed) (pos failed) ≡ updated_status (pos passed) (pos failed)
unfolding issued_status updated_status
issued_status-updated_status passed failed = ground arith

module _ {Num : Type 0} (P : Platform Num) where
  update_certificate-found :
      (id : Text) (passed failed total : ℤ) (cs after : Certs)
      → update_certificate P id passed failed total cs ≡ some after
      → (c : Certificate) × (find_cert id cs ≡ some c)
        × (put_cert id (updated_certificate P passed failed total c) cs ≡ after)
  unfolding update_certificate
  update_certificate-found id passed failed total cs after e =
      elim (Option-cases (find_cert id cs)) [
        | inl q ↦ let bad = rw (q, update_certificate) at e in ground arith
        | inr (c, q) ↦ (c, q, some_inj (rw (q, update_certificate) at e))
      ]

  -- Issue keeps every certificate under its own id.
  pub issue-IsKeyed :
      (req : CertificationRequest) (passed failed total : ℤ) (now : ℕ) (cs : Certs)
      → IsKeyed cs
      → IsKeyed (issue P req passed failed total now cs).0
  unfolding issue
  issue-IsKeyed req passed failed total now cs h =
      let cert = new_certificate P req passed failed total now in
      put_cert-IsKeyed cert.id cert cs refl h

  -- UpdateCertificate keeps every certificate under its own id.
  pub update_certificate-IsKeyed :
      (id : Text) (passed failed total : ℤ) (cs after : Certs)
      → IsKeyed cs
      → update_certificate P id passed failed total cs ≡ some after
      → IsKeyed after
  update_certificate-IsKeyed id passed failed total cs after h e =
      let (c, q, r) = update_certificate-found id passed failed total cs after e in
      subst IsKeyed r (
        put_cert-IsKeyed id (updated_certificate P passed failed total c) cs
          (find_cert-IsKeyed id c cs q h) h)

  -- What Issue returns is found under its id, and the other certificates are as before.
  pub find_cert-issue :
      (req : CertificationRequest) (passed failed total : ℤ) (now : ℕ) (cs : Certs)
      → (id : Text)
      → let after = issue P req passed failed total now cs in
        find_cert id after.0 ≡ (if str_eq after.1.id id then some after.1 else find_cert id cs)
  unfolding issue
  find_cert-issue req passed failed total now cs id =
      let cert = new_certificate P req passed failed total now in
      find_cert-put_cert cert.id id cert cs

  -- The answer of Verify for the certificate found.
  abbrev answer : Text → ℕ → Option Certificate → Bool
  answer fingerprint now none = false
  answer fingerprint now (some c) = str_eq c.fingerprint fingerprint && ltb now c.expires_at

  -- Verify accepts what Issue returned, with its fingerprint, exactly until 180 days after it was
  -- issued.
  pub verify-issue :
      (req : CertificationRequest) (passed failed total : ℤ) (now later : ℕ) (cs : Certs)
      → let after = issue P req passed failed total now cs in
        verify after.1.id after.1.fingerprint later after.0 ≡ ltb later (now + validity)
  unfolding verify issue
  verify-issue req passed failed total now later cs =
      let cert = new_certificate P req passed failed total now in
      let found : find_cert cert.id (put_cert cert.id cert cs) ≡ some cert =
        find_cert-put_cert cert.id cert.id cert cs
        ∙ ap (λ b. if b then some cert else find_cert cert.id cs) (str_eq_refl cert.id) in
      ap (answer cert.fingerprint later) found
      ∙ ap (λ b. b && ltb later (now + validity)) (str_eq_refl cert.fingerprint)

  -- UpdateCertificate changes the answer of Verify for no id, no fingerprint and no time: a
  -- fingerprint from before the update stays valid.
  pub verify-update_certificate :
      (id : Text) (passed failed total : ℤ) (cs after : Certs)
      → update_certificate P id passed failed total cs ≡ some after
      → (j fingerprint : Text) (now : ℕ)
      → verify j fingerprint now after ≡ verify j fingerprint now cs
  unfolding verify update_certificate
  verify-update_certificate id passed failed total cs after e j fingerprint now =
      let (c, q, r) = update_certificate-found id passed failed total cs after e in
      ap (λ m. answer fingerprint now (find_cert j m)) (sym r)
      ∙ ap (answer fingerprint now)
          (find_cert-put_cert id j (updated_certificate P passed failed total c) cs)
      ∙ elim (Bool-cases (str_eq id j)) [
        | inl same ↦
            let found : find_cert j cs ≡ some c =
              ap (λ k. find_cert k cs) (sym ((str_eq_iff id j).0 same)) ∙ q in
            rw same (sym (ap (answer fingerprint now) found))
        | inr other ↦ rw other refl
      ]
