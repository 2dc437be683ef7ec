-- ===== src/Services/DnsExport.antt =====
-- internal/services/dns_exporter.go. The text that encoding/json makes of the records is a parameter.
pub mod Lines
pub mod Names
use webrana_infinimail_backe.Services.DomainManager.{DnsGuide, DnsRecord}
use webrana_infinimail_backe.Text.Decimal.{decimal}
use webrana_infinimail_backe.Text.{Bytes, codes, bytes_eq, has_suffix, trim_suffix_text}
use webrana_infinimail_backe.Effect.{ok, err, Result, wrap, message}
use webrana_infinimail_backe.Prelude.{[], true, false, ◌∷◌, Bool, List, ℕ, if◌then◌else◌, ◌++◌}

pub data DnsExportFormat : Type 0 where
  bind_format cloudflare_format route53_format csv_format : DnsExportFormat
  other_format : Bytes → DnsExportFormat

-- `DNSExportFormat(s)`
unfoldable pub export_format : Bytes → DnsExportFormat
unfolding codes bytes_eq
export_format s =
    if bytes_eq s (codes "bind")
    then bind_format
    else if bytes_eq s (codes "cloudflare")
    then cloudflare_format
    else if bytes_eq s (codes "route53")
    then route53_format
    else if bytes_eq s (codes "csv")
    then csv_format
    else other_format s

-- `IsValid`
unfoldable pub is_valid_format : DnsExportFormat → Bool
is_valid_format bind_format = true
is_valid_format cloudflare_format = true
is_valid_format route53_format = true
is_valid_format csv_format = true
is_valid_format (other_format s) = false

pub record DnsExportResult : Type 0 where
  pub format : DnsExportFormat
  pub content : Bytes
  pub filename : Bytes

pub record CloudflareRecord : Type 0 where
  pub kind : Bytes
  pub name : Bytes
  pub content : Bytes
  pub priority : ℕ
  pub ttl : ℕ
  pub proxied : Bool

-- `Route53Change` with its record set of one value
pub record Route53Change : Type 0 where
  pub action : Bytes
  pub name : Bytes
  pub kind : Bytes
  pub ttl : ℕ
  pub value : Bytes

pub record Route53ChangeBatch : Type 0 where
  pub comment : Bytes
  pub changes : List Route53Change

-- `json.MarshalIndent` of the two kinds of records
pub record JsonTexts : Type 0 where
  pub of_cloudflare : List CloudflareRecord → Result Bytes
  pub of_route53 : Route53ChangeBatch → Result Bytes

-- the name of a record below the domain
unfoldable pub relative_name : Bytes → Bytes → Bytes
unfolding codes has_suffix trim_suffix_text bytes_eq
relative_name name domain =
    if has_suffix name (codes "." ++ domain)
    then trim_suffix_text name (codes "." ++ domain)
    else if bytes_eq name domain
    then codes "@"
    else name

-- one line of the zone file
unfoldable pub zone_line : Bytes → ℕ → Bytes → Bytes → Bytes
unfolding codes decimal
zone_line name ttl kind value =
    name
    ++ (9 ∷ [])
    ++ decimal ttl
    ++ (9 ∷ [])
    ++ codes "IN"
    ++ (9 ∷ [])
    ++ kind
    ++ (9 ∷ [])
    ++ value
    ++ (10 ∷ [])

-- `ExportBIND`
unfoldable pub export_bind : DnsGuide → Bytes → Bytes
unfolding codes decimal relative_name zone_line
export_bind guide domain =
    zone_line (codes "@") guide.mx_record.ttl (codes "MX")
      (decimal guide.mx_record.priority ++ (9 ∷ []) ++ guide.mx_record.value ++ codes ".")
    ++ zone_line (relative_name guide.a_record.name domain) guide.a_record.ttl (codes "A")
        guide.a_record.value
    ++ zone_line (relative_name guide.txt_record.name domain) guide.txt_record.ttl (codes "TXT")
        ((b'"' ∷ []) ++ guide.txt_record.value ++ (b'"' ∷ []))

-- `ExportCloudflare`
unfoldable pub export_cloudflare : DnsGuide → List CloudflareRecord
unfolding codes
export_cloudflare guide =
    record {
      kind = guide.mx_record.kind;
      name = codes "@";
      content = guide.mx_record.value;
      priority = guide.mx_record.priority;
      ttl = guide.mx_record.ttl;
      proxied = false;
    }
    ∷ record {
      kind = guide.a_record.kind;
      name = codes "mail";
      content = guide.a_record.value;
      priority = 0;
      ttl = guide.a_record.ttl;
      proxied = false;
    }
    ∷ record {
      kind = guide.txt_record.kind;
      name = codes "_infinimail";
      content = guide.txt_record.value;
      priority = 0;
      ttl = guide.txt_record.ttl;
      proxied = false;
    }
    ∷ []

unfoldable pub upsert : DnsRecord → Bytes → Route53Change
unfolding codes
upsert r value = record {
  action = codes "UPSERT";
  name = r.name ++ codes ".";
  kind = r.kind;
  ttl = r.ttl;
  value = value;
}

-- `ExportRoute53`
unfoldable pub export_route53 : DnsGuide → Bytes → Route53ChangeBatch
unfolding codes decimal upsert
export_route53 guide domain = record {
  comment = codes "Infinimail DNS records for " ++ domain;
  changes =
      upsert guide.mx_record
        (decimal guide.mx_record.priority ++ codes " " ++ guide.mx_record.value ++ codes ".")
      ∷ upsert guide.a_record guide.a_record.value
      ∷ upsert guide.txt_record ((b'"' ∷ []) ++ guide.txt_record.value ++ (b'"' ∷ []))
      ∷ [];
}

unfoldable pub csv_line : DnsRecord → Bytes → Bytes → Bytes
unfolding codes decimal
csv_line r value priority =
    r.kind
    ++ codes ","
    ++ r.name
    ++ codes ","
    ++ value
    ++ codes ","
    ++ priority
    ++ codes ","
    ++ decimal r.ttl
    ++ (10 ∷ [])

-- `ExportCSV`
unfoldable pub export_csv : DnsGuide → Bytes
unfolding codes decimal csv_line
export_csv guide =
    codes "Type,Name,Value,Priority,TTL"
    ++ (10 ∷ [])
    ++ csv_line guide.mx_record guide.mx_record.value (decimal guide.mx_record.priority)
    ++ csv_line guide.a_record guide.a_record.value []
    ++ csv_line guide.txt_record ((b'"' ∷ []) ++ guide.txt_record.value ++ (b'"' ∷ [])) []

unfoldable pub with_json : DnsExportFormat → Bytes → Bytes → Result Bytes → Result DnsExportResult
unfolding codes
with_json format filename text (ok content) =
    ok (record { format = format; content = content; filename = filename })
with_json format filename text (err e) = err (wrap text e)

-- `Export`
unfoldable pub export : JsonTexts → DnsGuide → Bytes → DnsExportFormat → Result DnsExportResult
unfolding codes export_bind export_cloudflare export_route53 export_csv with_json
export json guide domain bind_format = ok (record {
  format = bind_format;
  content = export_bind guide domain;
  filename = domain ++ codes ".zone";
})
export json guide domain cloudflare_format =
    with_json cloudflare_format (domain ++ codes "-cloudflare.json")
      (codes "failed to marshal Cloudflare records") (json.of_cloudflare (export_cloudflare guide))
export json guide domain route53_format =
    with_json route53_format (domain ++ codes "-route53.json")
      (codes "failed to marshal Route53 records") (json.of_route53 (export_route53 guide domain))
export json guide domain csv_format = ok (record {
  format = csv_format;
  content = export_csv guide;
  filename = domain ++ codes "-dns.csv";
})
export json guide domain (other_format s) = err (message (codes "invalid export format: " ++ s))
