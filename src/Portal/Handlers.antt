-- ===== src/Portal/Handlers.antt =====
-- The handlers of the portal.
use ojs_conformance.Common.{
  ℕ, text, pos, Bool, true, false, not, ◌&&◌, [], none, some, ◌≡◌, refl, ◌∙◌, ap, arith, str_eq,
  str_eq_refl, ◌==◌, if◌then◌else◌,
}
use ojs_conformance.Portal.{
  CertificationRequest, Platform, Certs, find_cert, put_cert, issue, CertifyCall, new_certificate,
  queued, certificate, response_status, compute_level, issued_status, handle_certify,
  handle_get_certificate,
}
use ojs_conformance.Portal.Store.{find_cert-put_cert}

-- What a request must have to be accepted.
abbrev pub is_complete : CertificationRequest → Bool
is_complete req = not (str_eq req.server_url []) && not (str_eq req.name [])

abbrev pub is_accepted : CertifyCall → Bool
is_accepted r =
    str_eq r.http_method (text "POST")
    && (elim r.body [ none ↦ false | some req ↦ is_complete req ])

module _ {Num : Type 0} (P : Platform Num) where
  -- HandleCertify answers 202 exactly for a POST with a JSON body that has a server URL and a name;
  -- in every other case it leaves the store as it was.
  pub handle_certify-status :
      (r : CertifyCall) (now : ℕ) (cs : Certs)
      → let after = handle_certify P r now cs in
        ((response_status after.1 == 202) ≡ is_accepted r)
        × ((is_accepted r ≡ false) → after.0 ≡ cs)
  unfolding handle_certify response_status
  handle_certify-status r now cs = ground arith

  -- What HandleCertify accepts can be fetched at once under the id of its answer: the certificate is
  -- there with the status "fail" and the level "L0", on no tests.
  pub handle_get_certificate-handle_certify :
      (req : CertificationRequest) (now : ℕ) (cs : Certs)
      → is_complete req ≡ true
      → let after =
          handle_certify P (record { http_method = text "POST"; body = some req }) now cs in
        let cert = new_certificate P req (pos 0) (pos 0) (pos 0) now in
        (after.1 ≡ queued cert.id)
        × (handle_get_certificate cert.id after.0 ≡ certificate cert)
        × (cert.status ≡ text "fail")
        × (cert.level ≡ text "L0")
  unfolding handle_certify handle_get_certificate issue
  handle_get_certificate-handle_certify req now cs h =
      let url : str_eq req.server_url [] ≡ false = ground arith in
      let name : str_eq req.name [] ≡ false = ground arith in
      let cert = new_certificate P req (pos 0) (pos 0) (pos 0) now in
      let found : find_cert cert.id (put_cert cert.id cert cs) ≡ some cert =
        find_cert-put_cert cert.id cert.id cert cs
        ∙ ap (λ b. if b then some cert else find_cert cert.id cs) (str_eq_refl cert.id) in
      (
        rw (url, name) refl,
        rw (url, name, found, handle_get_certificate) refl,
        (unfold issued_status in refl),
        (unfold compute_level in refl),
      )
