-- ===== src/Services/CertManager/Issue.antt =====
-- certificate_manager.go: the part that `GenerateCertificate` and `SubmitACMEChallenge` share, the
-- record of a stored certificate in the database.
use webrana_infinimail_backe.Text.{codes}
use webrana_infinimail_backe.Services.{StoredCertificate, log_info}
use webrana_infinimail_backe.Services.CertManager.{CertManager, logged}
use webrana_infinimail_backe.Models.{DomainCertificate, Domain}
use webrana_infinimail_backe.Effect.{
  ok, err, Err, Action, is_not_found, ◌>>=◌, Result, attempt, ◌>>◌, raise, pure, on_error, wrap,
}
use webrana_infinimail_backe.Prelude.{true, none, some, Option, String, if◌then◌else◌}

-- an existing record with the new files
unfoldable pub renewed : DomainCertificate → StoredCertificate → DomainCertificate
renewed c stored = record c {
  cert_path = stored.cert_path;
  key_path = stored.key_path;
  expires_at = stored.expires_at;
  issued_at = stored.issued_at;
}

unfoldable pub new_record : Domain → StoredCertificate → DomainCertificate
new_record d stored = record {
  id = 0;
  domain_id = d.id;
  domain_name = d.name;
  cert_path = stored.cert_path;
  key_path = stored.key_path;
  expires_at = stored.expires_at;
  issued_at = stored.issued_at;
  auto_renew = true;
}

-- `failing` is what the caller logs before it returns an error.
module _ {W : Type 0} (s : CertManager W) (failing : Err → Action W (Unit {0})) where
  unfoldable pub fail_with : {A : Type 0} → String → Err → Action W A
  unfolding codes
  fail_with text e = do failing e; raise (wrap (codes text) e)

  -- `err != nil && !errors.Is(err, repository.ErrNotFound)`
  unfoldable pub existing_certificate :
      Result DomainCertificate → Action W (Option DomainCertificate)
  unfolding is_not_found fail_with
  existing_certificate (ok c) = pure (some c)
  existing_certificate (err e) =
      if is_not_found e then pure none else fail_with "failed to check existing certificate" e

  unfoldable pub write_certificate :
      Domain → StoredCertificate → Option DomainCertificate → Action W DomainCertificate
  unfolding renewed new_record fail_with
  write_certificate d stored (some c) = do
    on_error (s.certs.update (renewed c stored))
        λ e. fail_with "failed to update certificate record" e
    logged s (log_info d.name "db_updated")
    pure (renewed c stored)
  write_certificate d stored none = do
    created ←
        on_error (s.certs.create (new_record d stored))
          λ e. fail_with "failed to create certificate record" e
    logged s (log_info d.name "db_created")
    pure created

  unfoldable pub save_record : Domain → StoredCertificate → Action W DomainCertificate
  unfolding existing_certificate write_certificate
  save_record d stored = do
    answer ← attempt (s.certs.get_by_domain_id d.id)
    existing ← existing_certificate answer
    write_certificate d stored existing
