-- ===== src/Tests/DnsExport.antt =====
-- The export of the DNS records of a domain, at concrete names.

use webrana_infinimail_backe.Text.Split.{Without}
use webrana_infinimail_backe.Services.DnsExport.Lines.{Field, names_in}
use webrana_infinimail_backe.Text.Case.{to_lower}
use webrana_infinimail_backe.Services.DnsExport.Names.{guide_names, export_bind-Readable}
use webrana_infinimail_backe.Services.DnsExport.{
  relative_name, export_format, is_valid_format, export_bind,
}
use webrana_infinimail_backe.Models.{Domain, pending_dns}
use webrana_infinimail_backe.Text.{Bytes, codes, has_suffix, trim_suffix_text, bytes_eq, has_prefix}
use webrana_infinimail_backe.Services.DomainManager.{DomainManagerConfig, guide_for}
use webrana_infinimail_backe.Prelude.{[], true, false, none, refl, ◌≡◌, ◌⊎◌}

abbrev config : DomainManagerConfig
config = record { smtp_hostname = codes "mx.b.test"; server_ip = codes "192.0.2.1" }

abbrev named : Bytes → Domain
named n = record {
  id = 1;
  name = n;
  is_active = true;
  status = pending_dns;
  dns_challenge = codes "c0ffee";
  error_message = [];
  acme_challenge_token = [];
  acme_challenge_value = [];
  acme_challenge_expires_at = none;
  acme_dns_verified = false;
}

-- at "a.test" the zone file names "_infinimail.a.test"
exported_name : relative_name (codes "_infinimail.a.test") (codes "a.test") ≡ codes "_infinimail"
unfolding codes relative_name has_suffix trim_suffix_text bytes_eq
exported_name = refl

-- an unknown format
unknown_format : is_valid_format (export_format (codes "BIND")) ≡ false
unfolding codes export_format is_valid_format bytes_eq
unknown_format = refl

mail_name-Field : Field (codes "Mail.a.test")
unfolding codes
mail_name-Field = (
  (refl, (refl, (refl, (refl, (refl, (refl, (refl, (refl, (refl, (refl, (refl, tt))))))))))),
  (refl, (refl, (refl, (refl, (refl, (refl, (refl, (refl, (refl, (refl, (refl, tt))))))))))),
)

host-Without : Without 10 (codes "mx.b.test")
unfolding codes
host-Without = (refl, (refl, (refl, (refl, (refl, (refl, (refl, (refl, (refl, tt)))))))))

ip-Without : Without 10 (codes "192.0.2.1")
unfolding codes
ip-Without = (refl, (refl, (refl, (refl, (refl, (refl, (refl, (refl, (refl, tt)))))))))

challenge-Without : Without 10 (codes "c0ffee")
unfolding codes
challenge-Without = (refl, (refl, (refl, (refl, (refl, (refl, tt))))))

export_bind-Readable_example :
    ((has_prefix (to_lower (codes "Mail.a.test")) (codes "mail.") ≡ false)
      × (names_in
            (codes "Mail.a.test")
            (export_bind (guide_for config (named (codes "Mail.a.test"))) (codes "Mail.a.test"))
          ≡ guide_names (guide_for config (named (codes "Mail.a.test")))))
    ⊎ ((has_prefix (to_lower (codes "Mail.a.test")) (codes "mail.") ≡ true)
        × ((origin : Bytes)
            → ¬ (
                names_in origin (
                  export_bind
                    (guide_for config (named (codes "Mail.a.test")))
                    (codes "Mail.a.test"))
                ≡ guide_names (guide_for config (named (codes "Mail.a.test"))))))
export_bind-Readable_example =
    export_bind-Readable config (named (codes "Mail.a.test")) mail_name-Field host-Without
      ip-Without challenge-Without
