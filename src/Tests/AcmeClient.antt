-- ===== src/Tests/AcmeClient.antt =====
-- The ACME client over a server that validates every challenge, and the certificate manager over a
-- client that has just started.

use webrana_infinimail_backe.Models.{acme_challenge_ready}
use webrana_infinimail_backe.Tests.World.{World, world_in, cert_manager}
use webrana_infinimail_backe.Services.CertManager.Submit.{submit_acme_challenge}
use webrana_infinimail_backe.Dict.{get, put}
use webrana_infinimail_backe.Services.Acme.Restart.{KeepsChallenges, submit_after_restart-IsErr}
use webrana_infinimail_backe.Services.CertManager.{CertManager}
use webrana_infinimail_backe.Repository.Domains.{DomainRepository}
use webrana_infinimail_backe.Services.Acme.Orders.{Forgot, request_certificate-once}
use webrana_infinimail_backe.Services.{CertificateBundle}
use webrana_infinimail_backe.Services.Acme.Polling.{Validated, complete-Validated}
use webrana_infinimail_backe.Text.{Bytes, codes}
use webrana_infinimail_backe.Services.Acme.{
  Order, Challenge, AcmeLibrary, new_acme_client, Client, complete_dns_challenge,
  request_certificate, get_dns_challenge, status_ready, status_pending, lifted, acme_client,
  status_valid, validated,
}
use webrana_infinimail_backe.Effect.{ok, err, IsErr, not_found, Err}
use webrana_infinimail_backe.Prelude.{[], false, none, some, refl, ◌∷◌, List, ◌≡◌}

abbrev an_order : Order
an_order = record {
  uri = codes "order";
  status = status_ready;
  authz_urls = codes "authz" ∷ [];
  finalize_url = codes "finalize";
}

abbrev a_challenge : Challenge
a_challenge = record {
  kind = codes "dns-01";
  uri = codes "challenge";
  token = codes "token";
  status = status_pending;
  error = none;
}

abbrev library : AcmeLibrary World
library = record {
  register = λ contact w. (ok (codes "account"), w);
  is_conflict_error = λ e. false;
  get_reg = λ w. (err not_found, w);
  authorize_order = λ name w. (ok an_order, w);
  get_authorization =
      λ url w. (ok (record { status = status_valid; challenges = a_challenge ∷ [] }), w);
  dns01_challenge_record = λ token w. (ok (codes "value"), w);
  accept = λ c w. (ok tt, w);
  wait_order = λ uri w. (ok an_order, w);
  create_order_cert = λ url csr w. (ok (codes "leaf" ∷ codes "issuer" ∷ []), w);
  wait_poll = λ w. (ok tt, w);
  generate_key = λ w. (ok (codes "key"), w);
  create_certificate_request = λ key name names w. (ok (codes "csr"), w);
  not_after = λ der. some 7776000;
  encode_pem = λ kind der. der;
  marshal_key = λ key. ok key;
  log = λ call w. record w { log = call ∷ w.log };
}

abbrev email : Bytes
email = codes "ops@a.test"

abbrev started : Client World
unfolding new_acme_client
started = new_acme_client (world_in acme_challenge_ready)

abbrev ordered : Client World
ordered = (get_dns_challenge library email (codes "a.test") started).1

abbrev answered : Client World
answered = (complete_dns_challenge library email (codes "a.test") ordered).1

complete_runs :
    complete_dns_challenge library email (codes "a.test") ordered ≡ (ok validated, answered)
unfolding complete_dns_challenge get_dns_challenge get put started
complete_runs = refl

complete-Validated_example : Validated library email (codes "a.test") ordered
complete-Validated_example =
    complete-Validated library email (codes "a.test") ordered answered complete_runs

abbrev issued_once : Client World
issued_once = (request_certificate library email (codes "a.test" ∷ []) answered).1

abbrev a_bundle : CertificateBundle
a_bundle = record {
  certificate = codes "leaf";
  private_key = codes "key";
  chain = codes "issuer";
  expires_at = 7776000;
}

request_runs :
    request_certificate library email (codes "a.test" ∷ []) answered ≡ (ok a_bundle, issued_once)
unfolding request_certificate complete_dns_challenge get_dns_challenge get put started
request_runs = refl

request_certificate-once_example :
    Forgot (codes "a.test") answered issued_once
    × ((names : List Bytes)
        → (e : Err) × (request_certificate library email (codes "a.test" ∷ names) issued_once
            ≡ (err e, issued_once)))
    × ((e : Err) × (complete_dns_challenge library email (codes "a.test") issued_once
          ≡ (err e, issued_once)))
request_certificate-once_example =
    request_certificate-once library email (codes "a.test") [] answered issued_once a_bundle
      request_runs

abbrev domains : DomainRepository (Client World)
domains = record {
  create = λ d. lifted (cert_manager.domains.create d);
  get_by_id = λ i. lifted (cert_manager.domains.get_by_id i);
  get_by_name = λ name. lifted (cert_manager.domains.get_by_name name);
  list = λ active_only. lifted (cert_manager.domains.list active_only);
  update = λ d. lifted (cert_manager.domains.update d);
  delete = λ i. lifted (cert_manager.domains.delete i);
}

-- the certificate manager with its database next to the client
abbrev manager : CertManager (Client World)
manager = record {
  acme = acme_client library email;
  storage = record {
    save_certificate = λ name b. lifted (cert_manager.storage.save_certificate name b);
    delete_certificate = λ name. lifted (cert_manager.storage.delete_certificate name);
  };
  certs = record {
    create = λ c. lifted (cert_manager.certs.create c);
    get_by_id = λ i. lifted (cert_manager.certs.get_by_id i);
    get_by_domain_id = λ i. lifted (cert_manager.certs.get_by_domain_id i);
    get_by_domain_name = λ name. lifted (cert_manager.certs.get_by_domain_name name);
    update = λ c. lifted (cert_manager.certs.update c);
    delete = λ i. lifted (cert_manager.certs.delete i);
    delete_by_domain_id = λ i. lifted (cert_manager.certs.delete_by_domain_id i);
    get_expiring_certificates = λ days. lifted (cert_manager.certs.get_expiring_certificates days);
    get_all_with_auto_renew = lifted cert_manager.certs.get_all_with_auto_renew;
    list = lifted cert_manager.certs.list;
  };
  domains = domains;
  manager = record {
    repo = domains;
    config = cert_manager.manager.config;
    rand_read = lifted cert_manager.manager.rand_read;
  };
  reload = none;
  renewal_days = 30;
  lookup_txt = λ server name. lifted (cert_manager.lookup_txt server name);
  log = λ call c. record c { outside = cert_manager.log call c.outside };
  now = λ c. cert_manager.now c.outside;
}

manager-KeepsChallenges : KeepsChallenges manager
manager-KeepsChallenges = record {
  get_by_id = λ i. record { at = λ c. refl };
  update = λ d. record { at = λ c. refl };
  log = λ call c. refl;
}

submit_after_restart-IsErr_example : IsErr (submit_acme_challenge manager 1 started).0
unfolding get started
submit_after_restart-IsErr_example =
    submit_after_restart-IsErr library email manager refl manager-KeepsChallenges 1 started
      (λ name. refl)

-- With the challenge in memory, the same submission succeeds.
submit_runs : IsErr (submit_acme_challenge manager 1 ordered).0 → ⊥
unfolding submit_acme_challenge get_dns_challenge complete_dns_challenge request_certificate get put
    started webrana_infinimail_backe.Repository.Domains.domain_repository
    webrana_infinimail_backe.Tests.World.one_row webrana_infinimail_backe.Tests.World.find
    webrana_infinimail_backe.Repository.Certificates.certificate_repository
submit_runs h = h
