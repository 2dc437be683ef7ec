-- ===== src/Services/Acme.antt =====
-- internal/services/acme_client.go: the account, the orders and the challenges that the client keeps
-- between its calls. golang.org/x/crypto/acme, the cryptography and the log are parameters.
-- `verifyDNSTXTRecord`, which nothing calls, and the account's key are left out.
pub mod Polling
pub mod Ends
pub mod Orders
pub mod Restart
use webrana_infinimail_backe.Services.{
  LogCall, DnsChallengeInfo, CertificateBundle, log_info, log_error, log_debug, log_warning,
  AcmeClient,
}
use webrana_infinimail_backe.Text.Decimal.{decimal}
use webrana_infinimail_backe.Dict.{Dict, delete_key, get, put}
use webrana_infinimail_backe.Text.{Bytes, codes, bytes_eq, is_empty}
use webrana_infinimail_backe.Effect.{
  ok, Result, Action, Err, raise, or_wrap, on_error, pure, ◌>>=◌, ◌>>◌, message, changes, guard,
  wrap,
}
use webrana_infinimail_backe.Prelude.{
  zero, suc, [], true, false, none, some, ◌∷◌, List, Option, Bool, ℕ, ◌++◌, String, if◌then◌else◌,
  ◌==◌,
}

-- `acme.Status`
pub data ProtocolStatus : Type 0 where
  status_valid status_invalid status_pending status_processing : ProtocolStatus
  status_deactivated status_expired status_revoked status_ready : ProtocolStatus
  status_other : Bytes → ProtocolStatus

unfoldable pub protocol_text : ProtocolStatus → Bytes
unfolding codes
protocol_text status_valid = codes "valid"
protocol_text status_invalid = codes "invalid"
protocol_text status_pending = codes "pending"
protocol_text status_processing = codes "processing"
protocol_text status_deactivated = codes "deactivated"
protocol_text status_expired = codes "expired"
protocol_text status_revoked = codes "revoked"
protocol_text status_ready = codes "ready"
protocol_text (status_other text) = text

-- the error of a challenge: an `*acme.Error` with its detail, type and HTTP status, or another
pub data ChallengeError : Type 0 where
  acme_problem : Bytes → Bytes → ℕ → ChallengeError
  generic_problem : Bytes → ChallengeError

pub record Challenge : Type 0 where
  pub kind : Bytes
  pub uri : Bytes
  pub token : Bytes
  pub status : ProtocolStatus
  pub error : Option ChallengeError

pub record Order : Type 0 where
  pub uri : Bytes
  pub status : ProtocolStatus
  pub authz_urls : List Bytes
  pub finalize_url : Bytes

pub record Authorization : Type 0 where
  pub status : ProtocolStatus
  pub challenges : List Challenge

-- What the client calls. An account is its URI, a key what stands for it.
pub record AcmeLibrary (W : Type 0) : Type 0 where
  -- `Register` with `AcceptTOS`, and whether an error is an `*acme.Error` with the status 409
  pub register : List Bytes → Action W Bytes
  pub is_conflict_error : Err → Bool
  pub get_reg : Action W Bytes
  pub authorize_order : Bytes → Action W Order
  pub get_authorization : Bytes → Action W Authorization
  pub dns01_challenge_record : Bytes → Action W Bytes
  pub accept : Challenge → Action W (Unit {0})
  pub wait_order : Bytes → Action W Order
  -- `CreateOrderCert` with the URL and the request: the certificates in DER
  pub create_order_cert : Bytes → Bytes → Action W (List Bytes)
  -- the wait between two polls, which fails if the context is done first
  pub wait_poll : Action W (Unit {0})
  pub generate_key : Action W Bytes
  -- `x509.CreateCertificateRequest` with the key, the common name and the names
  pub create_certificate_request : Bytes → Bytes → List Bytes → Action W Bytes
  -- `NotAfter` of `x509.ParseCertificate`
  pub not_after : Bytes → Option ℕ
  pub encode_pem : String → Bytes → Bytes
  pub marshal_key : Bytes → Result Bytes
  pub log : LogCall → W → W

-- `acmeClient`, with the rest of the world around it
pub record Client (W : Type 0) : Type 0 where
  pub account : Option Bytes
  pub active_orders : Dict Order
  pub active_challenges : Dict Challenge
  pub outside : W

unfoldable pub new_acme_client : {W : Type 0} → W → Client W
new_acme_client w = record {
  account = none;
  active_orders = [];
  active_challenges = [];
  outside = w;
}

-- The end of `CompleteDNSChallenge`, if no error is returned: nil, or the panic of an index that is
-- out of range.
pub data Completion : Type 0 where
  validated index_panic : Completion

-- the first challenge of the type `dns-01`
unfoldable pub find_dns01 : List Challenge → Option Challenge
unfolding codes bytes_eq
find_dns01 [] = none
find_dns01 (c ∷ cs) = if bytes_eq c.kind (codes "dns-01") then some c else find_dns01 cs

unfoldable pub problem_text : Bytes → ChallengeError → Bytes
unfolding codes decimal
problem_text kind (acme_problem detail type_ status) =
    codes "Challenge "
    ++ kind
    ++ codes " failed: "
    ++ detail
    ++ codes " (type: "
    ++ type_
    ++ codes ")"
    ++ (if status == 0 then [] else codes " (HTTP " ++ decimal status ++ codes ")")
problem_text kind (generic_problem text) = codes "Challenge " ++ kind ++ codes " failed: " ++ text

unfoldable pub is_invalid : ProtocolStatus → Bool
is_invalid status_invalid = true
is_invalid s = false

unfoldable pub detail_of : Bool → Bytes → Option ChallengeError → List Bytes
unfolding problem_text
detail_of true kind (some e) = problem_text kind e ∷ []
detail_of b kind e = []

unfoldable pub error_details : List Challenge → List Bytes
unfolding is_invalid detail_of
error_details [] = []
error_details (c ∷ cs) = detail_of (is_invalid c.status) c.kind c.error ++ error_details cs

-- `strings.Join(details, "; ")`, or the text for no details
unfoldable pub joined_details : List Bytes → Bytes
unfolding codes
joined_details [] = codes "Authorization failed with no specific error details"
joined_details (d ∷ []) = d
joined_details (d ∷ (e ∷ ds)) = d ++ codes "; " ++ joined_details (e ∷ ds)

-- `getAuthorizationErrorDetails`
unfoldable pub get_authorization_error_details : Authorization → Bytes
unfolding error_details joined_details
get_authorization_error_details authz = joined_details (error_details authz.challenges)

-- the certificate and the chain in PEM
unfoldable pub chain_of : (Bytes → Bytes) → List Bytes → Bytes
chain_of pem [] = []
chain_of pem (d ∷ ds) = pem d ++ chain_of pem ds

unfoldable pub bundle_of :
    (Bytes → Bytes) → (Bytes → Option ℕ) → Bytes → List Bytes → CertificateBundle
unfolding chain_of
bundle_of pem not_after key [] = record {
  certificate = [];
  private_key = key;
  chain = [];
  expires_at = 0;
}
bundle_of pem not_after key (d ∷ ds) = record {
  certificate = pem d;
  private_key = key;
  chain = chain_of pem ds;
  expires_at = elim (not_after d) [ none ↦ 0 | some t ↦ t ];
}

module _ {W A : Type 0} where
  abbrev put_back : Client W → Result A × W → Result A × Client W
  put_back s (r, w) = (r, record s { outside = w })

  -- a call of the library
  abbrev pub lifted : Action W A → Action (Client W) A
  lifted m s = put_back s (m s.outside)

  -- `x, ok := m[k]` with its error
  abbrev pub or_missing : Option A → Bytes → Action (Client W) A
  or_missing none text = raise (message text)
  or_missing (some a) text = pure a

module _ {W : Type 0} (lib : AcmeLibrary W) (email : Bytes) where
  abbrev pub said : LogCall → Action (Client W) (Unit {0})
  said call = changes (λ s. record s { outside = lib.log call s.outside })

  -- `RegisterAccount`
  unfoldable pub find_account : Err → Action (Client W) Bytes
  unfolding codes
  find_account e =
      if lib.is_conflict_error e
      then or_wrap (lifted lib.get_reg) "failed to retrieve existing account"
      else raise (wrap (codes "failed to register account") e)

  unfoldable pub register_account : Action (Client W) (Unit {0})
  unfolding codes find_account
  register_account = do
    account ←
        on_error
          (lifted (lib.register (if is_empty email then [] else (codes "mailto:" ++ email) ∷ [])))
          find_account
    changes (λ s. record s { account = some account })

  unfoldable pub ensure_account : Option Bytes → Action (Client W) (Unit {0})
  unfolding codes register_account
  ensure_account none = or_wrap register_account "failed to register account"
  ensure_account (some a) = pure tt

  unfoldable pub first_url : List Bytes → Action (Client W) Bytes
  unfolding codes
  first_url [] = raise (message (codes "no authorization URLs in order"))
  first_url (u ∷ us) = pure u

  -- `GetDNSChallenge`, once there is an account
  unfoldable pub order_challenge : Bytes → Action (Client W) DnsChallengeInfo
  unfolding codes first_url find_dns01
  order_challenge domain = do
    order ← or_wrap (lifted (lib.authorize_order domain)) "failed to create order"
    changes (λ s. record s { active_orders = put domain order s.active_orders })
    url ← first_url order.authz_urls
    authz ← or_wrap (lifted (lib.get_authorization url)) "failed to get authorization"
    challenge ←
        or_missing (find_dns01 authz.challenges)
          (codes "DNS-01 challenge not available for domain " ++ domain)
    changes (λ s. record s { active_challenges = put domain challenge s.active_challenges })
    txt_record ←
        or_wrap (lifted (lib.dns01_challenge_record challenge.token))
          "failed to compute DNS challenge record"
    pure (record { token = challenge.token; txt_record = txt_record })

  -- `GetDNSChallenge`
  unfoldable pub get_dns_challenge : Bytes → Action (Client W) DnsChallengeInfo
  unfolding ensure_account order_challenge
  get_dns_challenge domain s = (ensure_account s.account >> order_challenge domain) s

  -- a validated authorization: the wait for the order
  unfoldable pub await_order : Bytes → Order → Action (Client W) Completion
  unfolding codes
  await_order domain order = do
    said (log_info domain "authz_valid")
    on_error (lifted (lib.wait_order order.uri) >> pure tt) (λ e. do
      said (log_error domain "order_wait_failed" e)
      raise (wrap (codes "failed waiting for order after authorization") e))
    said (log_info domain "order_ready")
    pure validated

  unfoldable pub refuse : Bytes → String → Bytes → Action (Client W) Completion
  refuse domain step text = do said (log_error domain step (message text)); raise (message text)

  unfoldable pub refuse_status : Bytes → String → Action (Client W) Completion
  unfolding codes refuse
  refuse_status domain status =
      refuse domain "authz_invalid_status"
        (codes "authorization is " ++ codes status ++ codes ", cannot proceed")

  -- the wait for the next poll
  unfoldable pub wait_then : Bytes → Action (Client W) Completion → Action (Client W) Completion
  unfolding codes
  wait_then domain next =
      on_error (lifted lib.wait_poll) (λ e. do
        said (log_error domain "authz_timeout" e)
        raise (wrap (codes "timeout waiting for authorization") e))
      >> next

  -- the switch on the status; `next` is the next poll
  unfoldable pub on_status :
      Bytes
      → Order
      → Authorization
      → Action (Client W) Completion
      → ProtocolStatus
      → Action (Client W) Completion
  unfolding codes await_order refuse refuse_status wait_then get_authorization_error_details
  on_status domain order authz next status_valid = await_order domain order
  on_status domain order authz next status_invalid = do
    said (log_error domain "authz_invalid" (message (get_authorization_error_details authz)))
    raise (message (codes "ACME authorization failed: " ++ get_authorization_error_details authz))
  on_status domain order authz next status_pending = wait_then domain next
  on_status domain order authz next status_processing = wait_then domain next
  on_status domain order authz next status_deactivated = refuse_status domain "deactivated"
  on_status domain order authz next status_expired = refuse_status domain "expired"
  on_status domain order authz next status_revoked = refuse_status domain "revoked"
  on_status domain order authz next status_ready = do
    said (log_warning domain "authz_unknown_status")
    next
  on_status domain order authz next (status_other text) = do
    said (log_warning domain "authz_unknown_status")
    next

  unfoldable pub poll_authorization : Bytes → Bytes → Action (Client W) Authorization
  unfolding codes
  poll_authorization domain url = on_error (lifted (lib.get_authorization url)) (λ e. do
    said (log_error domain "authz_poll_error" e)
    raise (wrap (codes "failed to get authorization status") e))

  -- `n` more attempts
  unfoldable pub poll : Bytes → Order → Bytes → ℕ → Action (Client W) Completion
  unfolding codes poll_authorization on_status refuse
  poll domain order url zero =
      refuse domain "authz_max_attempts"
        (codes "timeout: authorization did not complete within 60 attempts")
  poll domain order url (suc n) = do
    authz ← poll_authorization domain url
    said (log_debug domain "authz_poll")
    on_status domain order authz (poll domain order url n) authz.status

  unfoldable pub poll_first : Bytes → Order → List Bytes → Action (Client W) Completion
  unfolding poll
  poll_first domain order [] = pure index_panic
  poll_first domain order (url ∷ urls) = poll domain order url 60

  unfoldable pub submit_challenge : Bytes → Challenge → Action (Client W) (Unit {0})
  unfolding codes
  submit_challenge domain challenge = do
    said (log_info domain "challenge_start")
    said (log_info domain "challenge_accept")
    on_error (lifted (lib.accept challenge)) (λ e. do
      said (log_error domain "challenge_accept_failed" e)
      raise (wrap (codes "failed to accept challenge") e))
    said (log_info domain "challenge_accepted")

  -- `CompleteDNSChallenge`
  unfoldable pub complete_dns_challenge : Bytes → Action (Client W) Completion
  unfolding codes submit_challenge poll_first
  complete_dns_challenge domain s =
      (do
        challenge ←
            or_missing (get domain s.active_challenges)
              (codes "no active challenge found for domain " ++ domain)
        order ←
            or_missing (get domain s.active_orders)
              (codes "no active order found for domain " ++ domain)
        submit_challenge domain challenge
        poll_first domain order order.authz_urls)
        s

  unfoldable pub is_ready : ProtocolStatus → Bool
  is_ready status_ready = true
  is_ready status = false

  -- `createCSR`, for at least one name
  unfoldable pub create_csr : Bytes → Bytes → List Bytes → Action (Client W) Bytes
  create_csr key primary others =
      lifted (lib.create_certificate_request key primary (primary ∷ others))

  -- the key in PEM and the certificates, for an order that is ready
  unfoldable pub issue_order : Bytes → List Bytes → Order → Action (Client W) (Bytes × List Bytes)
  unfolding codes protocol_text is_ready create_csr
  issue_order primary others stored_order = do
    order ← or_wrap (lifted (lib.wait_order stored_order.uri)) "failed waiting for order"
    guard (is_ready order.status)
        (message (codes "order is not ready, status: " ++ protocol_text order.status))
    key ← or_wrap (lifted lib.generate_key) "failed to generate certificate key"
    csr ← or_wrap (create_csr key primary others) "failed to create CSR"
    certificates ←
        or_wrap (lifted (lib.create_order_cert order.finalize_url csr)) "failed to finalize order"
    key_der ← or_wrap (lifted (λ w. (lib.marshal_key key, w))) "failed to marshal private key"
    pure (lib.encode_pem "EC PRIVATE KEY" key_der, certificates)

  -- the rest of `RequestCertificate`, with the order found
  unfoldable pub finalize : Bytes → List Bytes → Order → Action (Client W) CertificateBundle
  unfolding issue_order bundle_of
  finalize primary others stored_order = do
    made ← issue_order primary others stored_order
    changes (λ s. record s {
      active_orders = delete_key primary s.active_orders;
      active_challenges = delete_key primary s.active_challenges;
    })
    pure (bundle_of (lib.encode_pem "CERTIFICATE") lib.not_after made.0 made.1)

  unfoldable pub request_with_order : Bytes → List Bytes → Action (Client W) CertificateBundle
  unfolding codes finalize
  request_with_order primary others s =
      (do
        order ← or_missing (get primary s.active_orders) (
            codes "no active order found for domain "
            ++ primary
            ++ codes ", call GetDNSChallenge first")
        finalize primary others order)
        s

  -- `RequestCertificate`
  unfoldable pub request_certificate : List Bytes → Action (Client W) CertificateBundle
  unfolding codes ensure_account request_with_order
  request_certificate [] = raise (message (codes "at least one domain is required"))
  request_certificate (primary ∷ others) =
      λ s. (ensure_account s.account >> request_with_order primary others) s

  -- `ACMEClient`. A panic of `CompleteDNSChallenge` is taken as its end.
  abbrev pub acme_client : AcmeClient (Client W)
  acme_client = record {
    get_dns_challenge = get_dns_challenge;
    complete_dns_challenge = λ domain. complete_dns_challenge domain >> pure tt;
    request_certificate = request_certificate;
  }
