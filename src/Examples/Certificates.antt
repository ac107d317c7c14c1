-- ===== src/Examples/Certificates.antt =====
-- The theorems on the portal at one request, over a platform of whole numbers.
use ojs_conformance.Common.{
  ◌*◌, ◌/◌, Text, text, ℤ, pos, Bool, false, not, List, [], ◌∷◌, some, ◌≡◌, refl, str_eq, ltb_ℤ,
  if◌then◌else◌, decimal, ◌==◌,
}
use ojs_conformance.Portal.{
  CertificationRequest, compute_level, fingerprint_of, Certificate, Platform, Certs,
  new_certificate, issue, update_certificate, updated_certificate, verify, CertifyCall,
  handle_certify, handle_get_certificate, response_status, queued, certificate,
}
use ojs_conformance.Portal.Store.{IsKeyed, issue-IsKeyed, verify-update_certificate}
use ojs_conformance.Portal.Handlers.{
  is_accepted, handle_certify-status, handle_get_certificate-handle_certify,
}

-- A ratio in percent.
abbrev percent : ℤ → ℤ → ℤ
percent (pos a) (pos b) = pos (100 * a / b)
percent _ _ = pos 0

abbrev insert_sorted :
    (Certificate → Certificate → Bool) → Certificate → List Certificate → List Certificate
insert_sorted before c [] = c ∷ []
insert_sorted before c (d ∷ ds) = if before c d then c ∷ d ∷ ds else d ∷ insert_sorted before c ds

abbrev sort : (Certificate → Certificate → Bool) → List Certificate → List Certificate
sort before [] = []
sort before (c ∷ cs) = insert_sorted before c (sort before cs)

abbrev platform : Platform ℤ
platform = record {
  sha256_hex = λ s. s;
  rfc3339 = decimal;
  of_int = λ z. z;
  div = percent;
  ge = λ a b. not (ltb_ℤ a b);
  one = pos 100;
  four_fifths = pos 80;
  three_fifths = pos 60;
  two_fifths = pos 40;
  sort_slice = sort;
}

abbrev request : CertificationRequest
request = record {
  server_url = text "http://a";
  name = text "backend";
  organization = [];
  repository = [];
  level = text "all";
  contact_email = [];
}

abbrev issued : Certs × Certificate
issued = issue platform request (pos 8) (pos 2) (pos 10) 7 []

abbrev issued_id : Text
issued_id = issued.1.id

abbrev updated : Certs
updated = (issued_id, updated_certificate platform (pos 10) (pos 0) (pos 10) issued.1) ∷ []

level_test : issued.1.level ≡ text "L0-L3"
unfolding issue compute_level
level_test = refl

updated-Eq : update_certificate platform issued_id (pos 10) (pos 0) (pos 10) issued.0 ≡ some updated
unfolding issue update_certificate str_eq fingerprint_of
updated-Eq = refl

issued-IsKeyed : IsKeyed issued.0
issued-IsKeyed = issue-IsKeyed platform request (pos 8) (pos 2) (pos 10) 7 [] tt

verify-update_certificate_example :
    verify issued_id issued.1.fingerprint 9 updated
    ≡ verify issued_id issued.1.fingerprint 9 issued.0
verify-update_certificate_example =
    verify-update_certificate platform issued_id (pos 10) (pos 0) (pos 10) issued.0 updated
      updated-Eq issued_id issued.1.fingerprint 9

abbrev call : CertifyCall
call = record { http_method = text "POST"; body = some request }

handle_certify-status_example :
    ((response_status (handle_certify platform call 7 []).1 == 202) ≡ is_accepted call)
    × ((is_accepted call ≡ false) → (handle_certify platform call 7 []).0 ≡ [])
handle_certify-status_example = handle_certify-status platform call 7 []

handle_get_certificate-handle_certify_example :
    let after = handle_certify platform call 7 [] in
    let cert = new_certificate platform request (pos 0) (pos 0) (pos 0) 7 in
    (after.1 ≡ queued cert.id)
    × (handle_get_certificate cert.id after.0 ≡ certificate cert)
    × (cert.status ≡ text "fail")
    × (cert.level ≡ text "L0")
unfolding str_eq
handle_get_certificate-handle_certify_example =
    handle_get_certificate-handle_certify platform request 7 [] refl
