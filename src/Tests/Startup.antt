-- ===== src/Tests/Startup.antt =====
-- The start of the SMTP server with a pair of files, as docker-compose.prod.yml sets them.

use webrana_infinimail_backe.Smtp.Certificates.{or_other, looked_up}
use webrana_infinimail_backe.Smtp.Startup.{first_pair, started, second_pair, started-Shows}
use webrana_infinimail_backe.Smtp.Server.{Environment, shown, start_smtp_server, positive_or}
use webrana_infinimail_backe.Text.{Bytes, codes, bytes_eq}
use webrana_infinimail_backe.Effect.{ok, Result}
use webrana_infinimail_backe.Prelude.{suc, [], none, some, refl, Option, if◌then◌else◌, ℕ, ◌≡◌, ◌⊎◌}

abbrev settings : Bytes → Bytes
settings key =
    if bytes_eq key (codes "SMTP_TLS_CERT")
    then codes "cert.pem"
    else if bytes_eq key (codes "SMTP_TLS_KEY")
    then codes "key.pem"
    else if bytes_eq key (codes "SMTP_MAX_RECIPIENTS")
    then codes "-5"
    else []

abbrev production : Environment ℕ Bytes
production = record {
  getenv = settings;
  parse_duration = λ text. none;
  load_x509_key_pair = λ c k w. (ok (codes "legacy"), suc w);
}

abbrev from_acme : Option (Bytes → Result (Option Bytes))
from_acme = some (λ name. ok (some (codes "acme")))

-- the certificate of the source is not shown
legacy_shown :
    shown (started production (codes ":25") from_acme 0) (codes "a.test") ≡ some (codes "legacy")
unfolding codes bytes_eq shown start_smtp_server
legacy_shown = refl

recipients : (started production (codes ":25") from_acme 0).max_recipients ≡ 100
unfolding codes bytes_eq start_smtp_server positive_or
recipients = refl

started-Shows_example :
    ((cert : Bytes) × ((first_pair production (codes ":25") from_acme 0).0 ≡ some cert)
      × ((n : Bytes) → shown (started production (codes ":25") from_acme 0) n ≡ some cert))
    ⊎ (((first_pair production (codes ":25") from_acme 0).0 ≡ none)
        × ((n : Bytes)
            → shown (started production (codes ":25") from_acme 0) n
              ≡ or_other
                  (looked_up from_acme n)
                  (second_pair production (codes ":25") from_acme 0)))
started-Shows_example = started-Shows production (codes ":25") from_acme 0
