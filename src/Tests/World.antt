-- ===== src/Tests/World.antt =====
-- A world with two tables, a clock and a log, and the services over it. The newest row of an
-- identifier is its row.
use webrana_infinimail_backe.Services.CertManager.Frames.{KeepsDomains}
use webrana_infinimail_backe.Text.{codes}
use webrana_infinimail_backe.Services.CertManager.{CertManager}
use webrana_infinimail_backe.Services.DomainManager.{DomainManager}
use webrana_infinimail_backe.Repository.Certificates.{CertificateTable, certificate_repository}
use webrana_infinimail_backe.Repository.Domains.{
  DomainTable, domain_repository, domain_repository-RowLaws,
}
use mathlib.Core.Option.{some-injective}
use webrana_infinimail_backe.Services.{LogCall}
use webrana_infinimail_backe.Models.{
  Domain, DomainCertificate, DomainStatus, status_eq, acme_challenge_ready, active,
}
use webrana_infinimail_backe.Repository.Laws.{TableLaws, RowLaws}
use webrana_infinimail_backe.Repository.{GormTable}
use webrana_infinimail_backe.Effect.{ok, err, Action, record_not_found, Result}
use webrana_infinimail_backe.Prelude.{
  [], none, some, inl, inr, refl, ◌∷◌, List, ℕ, Option, if◌then◌else◌, ◌≡◌, ap, ◌==◌, Bool-cases,
  sym, ◌∙◌, ==→eq,
}

pub record World : Type 0 where
  pub domains : List Domain
  pub certificates : List DomainCertificate
  pub time : ℕ
  pub log : List LogCall

unfoldable pub find : ℕ → List Domain → Option Domain
find i [] = none
find i (d ∷ ds) = if i == d.id then some d else find i ds

find-id : (i : ℕ) (ds : List Domain) (r : Domain) → find i ds ≡ some r → r.id ≡ i
unfolding find
find-id i [] r h = cc h
find-id i (d ∷ ds) r h = elim (Bool-cases (i == d.id)) [
  | inl e ↦
      let same : d ≡ r = some-injective d r (sym (rw e refl) ∙ h) in
      ap (λ (x : Domain). x.id) (sym same) ∙ sym (==→eq i d.id e)
  | inr e ↦ find-id i ds r (sym (rw e refl) ∙ h)
]

abbrev pub row : World → ℕ → Option Domain
row w i = find i w.domains

unfoldable pub one_row : {A : Type 0} → Option A → Action World A
one_row none w = (err record_not_found, w)
one_row (some a) w = (ok a, w)

abbrev pub domain_rows : GormTable World Domain
domain_rows = record {
  create =
      λ d w. (ok (record d { id = 7 }), record w { domains = record d { id = 7 } ∷ w.domains });
  first = λ i w. one_row (find i w.domains) w;
  save = λ d w. (ok 1, record w { domains = d ∷ w.domains });
  delete = λ i w. (ok 0, w);
}

first-ok :
    (w w' : World) (i : ℕ) (r : Domain) (o : Option Domain) → one_row o w ≡ (ok r, w') → o ≡ some r
unfolding one_row
first-ok w w' i r none h = cc h
first-ok w w' i r (some a) h = cc h

first-world : (w : World) (o : Option Domain) → (one_row o w).1 ≡ w
unfolding one_row
first-world w none = refl
first-world w (some a) = refl

pub domain_rows-TableLaws : TableLaws (λ (d : Domain). d.id) row domain_rows.first domain_rows.save
unfolding find
domain_rows-TableLaws = record {
  first_ok = λ w w' i r h. first-ok w w' i r (find i w.domains) h;
  first_same = λ w i j. ap (λ (x : World). find j x.domains) (first-world w (find i w.domains));
  save_ok = λ w w' r n h some_ j. ap (λ (x : Result ℕ × World). find j x.1.domains) (sym h);
  save_zero = λ w w' r h. cc h;
  save_err = λ w w' r e h. cc h;
  keyed = λ w i r h. find-id i w.domains r h;
}

abbrev pub domain_table : DomainTable World
domain_table = record {
  table = domain_rows;
  first_by_name = λ name w. one_row (find 1 w.domains) w;
  find_all = λ w. (ok w.domains, w);
  find_active = λ w. (ok w.domains, w);
}

abbrev pub certificate_table : CertificateTable World
certificate_table = record {
  table = record {
    create = λ c w. (ok c, record w { certificates = c ∷ w.certificates });
    first = λ i w. (err record_not_found, w);
    save = λ c w. (ok 1, record w { certificates = c ∷ w.certificates });
    delete = λ i w. (ok 0, w);
  };
  first_by_domain_id = λ i w. (err record_not_found, w);
  first_by_domain_name = λ name w. (err record_not_found, w);
  delete_where_domain_id = λ i w. (ok 0, w);
  find_expiring = λ threshold now w. (ok w.certificates, w);
  find_auto_renew = λ w. (ok w.certificates, w);
  find_all = λ w. (ok w.certificates, w);
}

abbrev pub domain_manager : DomainManager World
domain_manager = record {
  repo = domain_repository domain_table;
  config = record { smtp_hostname = codes "mx.infinimail.test"; server_ip = codes "192.0.2.1" };
  rand_read = λ w. (ok (171 ∷ 7 ∷ []), w);
}

-- The ACME server accepts every challenge and every request; the name servers show "value".
abbrev pub cert_manager : CertManager World
cert_manager = record {
  acme = record {
    get_dns_challenge =
        λ name w. (ok (record { token = codes "token"; txt_record = codes "value" }), w);
    complete_dns_challenge = λ name w. (ok tt, w);
    request_certificate = λ names w. (
      ok (record {
        certificate = codes "cert";
        private_key = codes "key";
        chain = codes "chain";
        expires_at = 7776000;
      }),
      w,
    );
  };
  storage = record {
    save_certificate = λ name b w. (
      ok (record {
        domain_name = name;
        cert_path = codes "cert.pem";
        key_path = codes "key.pem";
        chain_path = codes "chain.pem";
        expires_at = b.expires_at;
        issued_at = w.time;
      }),
      w,
    );
    delete_certificate = λ name w. (ok tt, w);
  };
  certs = certificate_repository certificate_table (λ w. w.time);
  domains = domain_repository domain_table;
  manager = domain_manager;
  reload = none;
  renewal_days = 30;
  lookup_txt = λ server name w. (ok (codes "value" ∷ []), w);
  log = λ call w. record w { log = call ∷ w.log };
  now = λ w. w.time;
}

abbrev pub domain_laws :
    RowLaws (λ (d : Domain). d.id) row cert_manager.domains.get_by_id cert_manager.domains.update
domain_laws = domain_repository-RowLaws domain_table row domain_rows-TableLaws

pub cert_manager-KeepsDomains : KeepsDomains cert_manager row
unfolding certificate_repository
cert_manager-KeepsDomains = record {
  get_dns_challenge = λ name. record { at = λ w j. refl };
  complete_dns_challenge = λ name. record { at = λ w j. refl };
  request_certificate = λ names. record { at = λ w j. refl };
  save_certificate = λ name b. record { at = λ w j. refl };
  get_by_domain_id = λ i. record { at = λ w j. refl };
  create = λ c. record { at = λ w j. refl };
  update = λ c. record { at = λ w j. refl };
  reload = λ load name h. cc h;
  lookup_txt = λ server name. record { at = λ w j. refl };
  log = λ call w j. refl;
}

-- a domain of the given status whose challenge is stored
abbrev pub domain_in : DomainStatus → Domain
domain_in status = record {
  id = 1;
  name = codes "a.test";
  is_active = status_eq active status;
  status = status;
  dns_challenge = codes "ab07";
  error_message = [];
  acme_challenge_token = codes "token";
  acme_challenge_value = codes "value";
  acme_challenge_expires_at = some 86400;
  acme_dns_verified = status_eq acme_challenge_ready status;
}

abbrev pub world_in : DomainStatus → World
world_in status = record {
  domains = domain_in status ∷ [];
  certificates = [];
  time = 1000;
  log = [];
}
