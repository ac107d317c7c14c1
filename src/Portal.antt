-- ===== src/Portal.antt =====
-- badge/portal.go: the store of certificates and the handlers of the portal. The store is a list of
-- entries, one for each id; the mutex makes each operation one step. Time is a number of nanoseconds,
-- `now` what time.Now returns. SHA-256, the RFC 3339 format, the division of floats and sort.Slice are
-- fields of `Platform`.
pub mod Store
pub mod Handlers
use ojs_conformance.Common.{
  ℕ, ◌+◌, Text, text, ℤ, pos, Bool, true, false, not, ◌&&◌, ◌||◌, List, [], ◌∷◌, ◌++◌, Option, none,
  some, str_eq, ltb, ltb_ℤ, eq_ℤ, decimal_ℤ, take, map, length, if◌then◌else◌,
}

pub record CertificationRequest : Type 0 where
  pub server_url : Text
  pub name : Text
  pub organization : Text
  pub repository : Text
  pub level : Text
  pub contact_email : Text

pub record Certificate : Type 0 where
  pub id : Text
  pub name : Text
  pub organization : Text
  pub repository : Text
  pub level : Text
  pub status : Text
  pub passed : ℤ
  pub failed : ℤ
  pub total : ℤ
  pub badge_url : Text
  pub issued_at : ℕ
  pub expires_at : ℕ
  pub fingerprint : Text

-- What the portal takes from Go's libraries: `ge` is `>=` on float64, the constants are the literals
-- of computeLevel.
pub record Platform (Num : Type 0) : Type 0 where
  pub sha256_hex : Text → Text
  pub rfc3339 : ℕ → Text
  pub of_int : ℤ → Num
  pub div : Num → Num → Num
  pub ge : Num → Num → Bool
  pub one : Num
  pub four_fifths : Num
  pub three_fifths : Num
  pub two_fifths : Num
  pub sort_slice : (Certificate → Certificate → Bool) → List Certificate → List Certificate

abbrev pub Certs : Type 0
Certs = List (Text × Certificate)

-- `c, ok := cs.certs[id]`
unfoldable pub find_cert : Text → Certs → Option Certificate
find_cert id [] = none
find_cert id ((k, c) ∷ m) = if str_eq k id then some c else find_cert id m

-- `cs.certs[id] = cert`
unfoldable pub put_cert : Text → Certificate → Certs → Certs
put_cert id c [] = (id, c) ∷ []
put_cert id c ((k, d) ∷ m) = if str_eq k id then (k, c) ∷ m else (k, d) ∷ put_cert id c m

-- 180 * 24 * time.Hour
abbrev pub validity : ℕ
validity = 15552000000000000

-- The status of Issue, and that of UpdateCertificate.
unfoldable pub issued_status : ℤ → ℤ → Text
issued_status passed failed =
    if eq_ℤ passed (pos 0)
    then text "fail"
    else if ltb_ℤ (pos 0) failed && ltb_ℤ (pos 0) passed
    then text "partial"
    else text "pass"

unfoldable pub updated_status : ℤ → ℤ → Text
updated_status passed failed =
    if eq_ℤ failed (pos 0) && ltb_ℤ (pos 0) passed
    then text "pass"
    else if ltb_ℤ (pos 0) passed
    then text "partial"
    else text "fail"

-- fmt.Sprintf("/badge/%s.svg?name=%s&status=%s", level, name, status)
unfoldable pub badge_path : Text → Text → Text → Text
badge_path level name status =
    text "/badge/" ++ (level ++ (text ".svg?name=" ++ (name ++ (text "&status=" ++ status))))

module _ {Num : Type 0} (P : Platform Num) where
  -- computeLevel
  unfoldable pub compute_level : ℤ → ℤ → Text
  compute_level passed total =
      if eq_ℤ total (pos 0)
      then text "L0"
      else let ratio = P.div (P.of_int passed) (P.of_int total) in
        if P.ge ratio P.one
        then text "L0-L4"
        else if P.ge ratio P.four_fifths
        then text "L0-L3"
        else if P.ge ratio P.three_fifths
        then text "L0-L2"
        else if P.ge ratio P.two_fifths
        then text "L0-L1"
        else text "L0"

  -- The fingerprint that Issue computes.
  unfoldable pub fingerprint_of : CertificationRequest → Text → ℤ → ℤ → ℕ → Text
  fingerprint_of req level passed total now = P.sha256_hex (
      req.name
      ++ (text ":"
          ++ (req.server_url
              ++ (text ":"
                  ++ (level
                      ++ (text ":"
                          ++ (decimal_ℤ passed
                              ++ (text ":"
                                  ++ (decimal_ℤ total ++ (text ":" ++ P.rfc3339 now))))))))))

  abbrev pub new_certificate : CertificationRequest → ℤ → ℤ → ℤ → ℕ → Certificate
  new_certificate req passed failed total now =
      let level = compute_level passed total in
      let status = issued_status passed failed in
      let fingerprint = fingerprint_of req level passed total now in
      record {
        id = text "cert_" ++ take 16 fingerprint;
        name = req.name;
        organization = req.organization;
        repository = req.repository;
        level = level;
        status = status;
        passed = passed;
        failed = failed;
        total = total;
        badge_url = badge_path level req.name status;
        issued_at = now;
        expires_at = now + validity;
        fingerprint = fingerprint;
      }

  -- CertificationStore.Issue: the store afterwards and the certificate.
  unfoldable pub issue : CertificationRequest → ℤ → ℤ → ℤ → ℕ → Certs → Certs × Certificate
  unfolding put_cert
  issue req passed failed total now cs =
      let cert = new_certificate req passed failed total now in (put_cert cert.id cert cs, cert)

  -- CertificationStore.List
  unfoldable pub list_certificates : Certs → List Certificate
  list_certificates cs = P.sort_slice (λ a b. ltb b.issued_at a.issued_at) (map (λ e. e.1) cs)

  -- The certificate that UpdateCertificate leaves in the store.
  abbrev pub updated_certificate : ℤ → ℤ → ℤ → Certificate → Certificate
  updated_certificate passed failed total cert =
      let level = compute_level passed total in
      let status = updated_status passed failed in
      record cert {
        passed = passed;
        failed = failed;
        total = total;
        level = level;
        status = status;
        badge_url = badge_path level cert.name status;
      }

  -- Portal.UpdateCertificate; none is its error.
  unfoldable pub update_certificate : Text → ℤ → ℤ → ℤ → Certs → Option Certs
  unfolding find_cert put_cert
  update_certificate id passed failed total cs = elim (find_cert id cs) [
    | none ↦ none
    | some cert ↦ some (put_cert id (updated_certificate passed failed total cert) cs)
  ]

-- CertificationStore.Verify
unfoldable pub verify : Text → Text → ℕ → Certs → Bool
unfolding find_cert str_eq
verify id fingerprint now cs = elim (find_cert id cs) [
  | none ↦ false
  | some c ↦ str_eq c.fingerprint fingerprint && ltb now c.expires_at
]

-- What a handler answers: the status and the body.
pub data Response : Type 0 where
  error : ℕ → Text → Response
  queued : Text → Response
  certificate : Certificate → Response
  certificates : List Certificate → ℕ → Response
  validity_of : Bool → Text → Response

unfoldable pub response_status : Response → ℕ
response_status (error status _) = status
response_status (queued _) = 202
response_status _ = 200

-- A request of POST /api/certify: the method, and the body as json.Decoder reads it.
pub record CertifyCall : Type 0 where
  pub http_method : Text
  pub body : Option CertificationRequest

module _ {Num : Type 0} (P : Platform Num) where
  -- Portal.HandleCertify
  unfoldable pub handle_certify : CertifyCall → ℕ → Certs → Certs × Response
  unfolding issue str_eq
  handle_certify r now cs =
      if not (str_eq r.http_method (text "POST"))
      then (cs, error 405 (text "POST required"))
      else elim r.body [
        | none ↦ (cs, error 400 (text "invalid JSON"))
        | some req ↦
            if str_eq req.server_url []
            then (cs, error 400 (text "server_url is required"))
            else if str_eq req.name []
            then (cs, error 400 (text "name is required"))
            else let after = issue P req (pos 0) (pos 0) (pos 0) now cs in
              (after.0, queued (after.1.id))
      ]

  -- Portal.HandleListCertificates
  unfoldable pub handle_list_certificates : Certs → Response
  unfolding list_certificates
  handle_list_certificates cs =
      let certs = list_certificates P cs in certificates certs (length certs)

-- Portal.HandleGetCertificate
unfoldable pub handle_get_certificate : Text → Certs → Response
unfolding find_cert
handle_get_certificate id cs =
    if str_eq id [] then error 400 (text "certificate id required") else elim (find_cert id cs) [
      | none ↦ error 404 (text "certificate not found")
      | some c ↦ certificate c
    ]

-- Portal.HandleVerify
unfoldable pub handle_verify : Text → Text → ℕ → Certs → Response
unfolding verify str_eq
handle_verify id fingerprint now cs =
    if str_eq id [] || str_eq fingerprint []
    then error 400 (text "id and fingerprint are required")
    else validity_of (verify id fingerprint now cs) id
