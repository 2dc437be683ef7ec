-- ===== src/Tests/Certificates.antt =====
-- Certificates on a small disk, in the store and at the SMTP server.

use webrana_infinimail_backe.Text.Split.{Without}
use webrana_infinimail_backe.Smtp.Server.{Environment, SmtpServer, shown, named_pair}
use webrana_infinimail_backe.Smtp.Handshake.{handshake_follows_rows, of_name}
use webrana_infinimail_backe.Smtp.Startup.{started, second_pair}
use webrana_infinimail_backe.Smtp.Certificates.{
  SecureServer, get_certificate_with_fallback, given_by, or_other,
}
use webrana_infinimail_backe.Services.CertStore.Reload.{Reloaded, reload_all-refines, served_by}
use webrana_infinimail_backe.Services.CertFiles.RoundTrip.{FileLaws, load-save}
use webrana_infinimail_backe.Services.CertStore.Serving.{removal_keeps_mail}
use webrana_infinimail_backe.Models.{DomainCertificate}
use webrana_infinimail_backe.Services.CertStore.{
  StoreConfig, CertStore, reload_all, load_from_disk, register_reload_callback,
  get_certificate_func, new_certificate_store, load_and_add_certificate, remove_certificate,
  mail_subdomain,
}
use webrana_infinimail_backe.Repository.Certificates.{CertificateRepository}
use webrana_infinimail_backe.Services.{CertificateBundle}
use webrana_infinimail_backe.Text.{bytes_eq, codes, Bytes}
use webrana_infinimail_backe.Services.CertFiles.{
  FileSystem, CertFiles, certificate_path, save_certificate, key_path, read_chain, chain_path_of,
  expiry_time, domain_dir, write_key, write_chain, load_certificate,
}
use webrana_infinimail_backe.Dict.{Dict, put, get, delete_key, get-put}
use webrana_infinimail_backe.Effect.{ok, err, Result, raise, not_found, IsErr, ◌>>◌, Err, wrap}
use webrana_infinimail_backe.Prelude.{
  [], true, false, none, some, refl, ◌∷◌, Option, Bool, List, ℕ, ◌++◌, if◌then◌else◌, ◌≡◌, ==-refl,
  ap, sym, ◌⊎◌, ◌∙◌,
}

pub record Disk : Type 0 where
  pub files : Dict Bytes
  pub called : List ℕ

read_disk : Option Bytes → Result Bytes
read_disk none = err not_found
read_disk (some x) = ok x

is_there : Option Bytes → Bool
is_there none = false
is_there (some x) = true

abbrev disk_files : FileSystem Disk
unfolding read_disk is_there
disk_files = record {
  mkdir_all = λ p mode w. (ok tt, w);
  write_file = λ p x mode w. (ok tt, record w { files = put p x w.files });
  chmod = λ p mode w. (ok tt, w);
  read_file = λ p w. read_disk (get p w.files);
  exists = λ p w. is_there (get p w.files);
  is_absent = λ p w. false;
  remove = λ p w. (ok tt, record w { files = delete_key p w.files });
  remove_all = λ p w. (ok tt, w);
}

abbrev storage : CertFiles Disk
storage = record {
  base_path = codes "/certs";
  files = disk_files;
  join_path = λ a b. a ++ b'/' ∷ b;
  validity = λ pem. some (10, 20);
  now = λ w. 15;
}

bytes_eq_after : (a b c : Bytes) → bytes_eq (a ++ b) (a ++ c) ≡ bytes_eq b c
unfolding bytes_eq
bytes_eq_after [] b c = refl
bytes_eq_after (x ∷ a) b c = rw (==-refl x, bytes_eq_after a b c) refl

if_read :
    (b : Bool) (x : Bytes) (o : Option Bytes)
    → read_disk (if b then some x else o) ≡ (if b then ok x else read_disk o)
unfolding read_disk
if_read true x o = refl
if_read false x o = refl

absent_read : (o : Option Bytes) → is_there o ≡ false → IsErr (read_disk o)
unfolding read_disk is_there
absent_read none h = tt
absent_read (some x) h = cc h

storage-FileLaws : FileLaws storage
unfolding certificate_path key_path chain_path_of domain_dir codes bytes_eq put get read_disk
    disk_files
storage-FileLaws = record {
  write_ok = λ p x mode w w' u h q.
      ap (λ (r : Result (Unit {0}) × Disk). read_disk (get q r.1.files)) (sym h)
      ∙ ap read_disk (get-put p x w.files q)
      ∙ if_read (bytes_eq p q) x (get q w.files);
  chmod_ok = λ p mode w w' u h q.
      ap (λ (r : Result (Unit {0}) × Disk). read_disk (get q r.1.files)) (sym h);
  mkdir_ok = λ p mode w w' u h q.
      ap (λ (r : Result (Unit {0}) × Disk). read_disk (get q r.1.files)) (sym h);
  read_exists = λ q w h. absent_read (get q w.files) h;
  key_apart =
      λ n. bytes_eq_after (codes "/certs/" ++ n) (codes "/privkey.pem") (codes "/fullchain.pem");
  chain_apart_key =
      λ n. bytes_eq_after (codes "/certs/" ++ n) (codes "/chain.pem") (codes "/privkey.pem");
  chain_apart_cert =
      λ n. bytes_eq_after (codes "/certs/" ++ n) (codes "/chain.pem") (codes "/fullchain.pem");
  key_apart_chain =
      λ n. bytes_eq_after (codes "/certs/" ++ n) (codes "/privkey.pem") (codes "/chain.pem");
  cert_apart_chain =
      λ n. bytes_eq_after (codes "/certs/" ++ n) (codes "/fullchain.pem") (codes "/chain.pem");
}

abbrev bundle : CertificateBundle
bundle = record {
  certificate = codes "CERT";
  private_key = codes "KEY";
  chain = [];
  expires_at = 99;
}

-- a disk with the chain of an older certificate
abbrev old_chain : Disk
old_chain = record { files = (codes "/certs/a.test/chain.pem", codes "OLD") ∷ []; called = [] }

abbrev saved_disk : Disk
saved_disk = (save_certificate storage (codes "a.test") bundle old_chain).1

load-save_example : load_certificate storage (codes "a.test") saved_disk ≡ (
  ok (record {
    certificate = codes "CERT";
    private_key = codes "KEY";
    chain = codes "OLD";
    expires_at = 20;
  }),
  saved_disk,
)
unfolding save_certificate read_chain expiry_time codes domain_dir write_key write_chain disk_files
    get bytes_eq
load-save_example =
    load-save storage storage-FileLaws (codes "a.test") bundle old_chain saved_disk _ refl

row_of : Bytes → DomainCertificate
row_of name = record {
  id = 1;
  domain_id = 1;
  domain_name = name;
  cert_path = [];
  key_path = [];
  expires_at = 20;
  issued_at = 10;
  auto_renew = true;
}

-- the rows of two domains, one of which has no files
abbrev rows : List DomainCertificate
unfolding row_of codes
rows = row_of (codes "a.test") ∷ (row_of (codes "b.test") ∷ [])

abbrev rows_repo : CertificateRepository Disk
rows_repo = record {
  create = λ c. raise not_found;
  get_by_id = λ i. raise not_found;
  get_by_domain_id = λ i. raise not_found;
  get_by_domain_name = λ n. raise not_found;
  update = λ c. raise not_found;
  delete = λ i. raise not_found;
  delete_by_domain_id = λ i. raise not_found;
  get_expiring_certificates = λ i. raise not_found;
  get_all_with_auto_renew = raise not_found;
  list = λ w. (ok rows, w);
}

abbrev config : StoreConfig Disk Bytes
config = record {
  storage = storage;
  load_key_pair = λ cert key w. disk_files.read_file cert w;
  cert_repo = some rows_repo;
  call = λ f w. record w { called = f ∷ w.called };
}

abbrev empty_store : CertStore Disk Bytes
empty_store = register_reload_callback (some 5) (new_certificate_store saved_disk)

abbrev reload_result : Disk → List DomainCertificate × Disk
reload_result v = (rows, v)

reload_all-refines_example :
    ((certs : List DomainCertificate) × (v : Disk) × (s' : CertStore Disk Bytes) × (rows_repo.list
          empty_store.outside
        ≡ (ok certs, v))
      × (reload_all config empty_store ≡ (ok tt, s'))
      × Reloaded config certs v empty_store s')
    ⊎ ((e : Err) × (v : Disk) × (rows_repo.list empty_store.outside ≡ (err e, v))
        × (reload_all config empty_store ≡ (
          err (wrap (codes "failed to get certificates from database") e),
          record empty_store { outside = v },
        )))
reload_all-refines_example = reload_all-refines config rows_repo refl empty_store

-- after the reload, the mail host of the first domain is served, the second domain is not
reloaded_mail :
    get_certificate_func (reload_all config empty_store).1 (codes "mail.a.test") ≡ ok (codes "CERT")
unfolding reload_all get_certificate_func codes get rows disk_files register_reload_callback
    new_certificate_store save_certificate put bytes_eq
reloaded_mail = refl

removal_keeps_mail_example :
    (s' : CertStore Disk Bytes) × ((load_and_add_certificate config (codes "a.test")
          >> remove_certificate (codes "a.test"))
        empty_store
      ≡ (ok tt, s'))
    × (get (codes "a.test") s'.certificates ≡ none)
    × (get_certificate_func s' (mail_subdomain (codes "a.test")) ≡ ok (codes "CERT"))
unfolding load_from_disk save_certificate register_reload_callback new_certificate_store disk_files
    get put bytes_eq
removal_keeps_mail_example =
    removal_keeps_mail config (codes "a.test") empty_store (codes "CERT") refl

abbrev reloaded : CertStore Disk Bytes
reloaded = (reload_all config empty_store).1

abbrev server : SecureServer Bytes
server = record { get_certificate = some (given_by reloaded); default_cert = some (codes "SELF") }

-- no pair of files is set
abbrev without_pair : Environment Disk Bytes
without_pair = record {
  getenv = λ key. [];
  parse_duration = λ text. none;
  load_x509_key_pair = λ c k w. (err not_found, w);
}

abbrev running : SmtpServer Bytes
running = started without_pair (codes ":25") (some (given_by reloaded)) saved_disk

www-Without : Without b'.' (codes "www")
unfolding codes
www-Without = (refl, (refl, (refl, tt)))

handshake_follows_rows_example :
    (shown running (codes "www" ++ b'.' ∷ codes "a.test")
      ≡ or_other (served_by config rows saved_disk (codes "www" ++ b'.' ∷ codes "a.test")) (
          or_other (of_name (served_by config rows saved_disk) (codes "a.test")) (
            or_other none
              (second_pair without_pair (codes ":25") (some (given_by reloaded)) saved_disk))))
    × (shown running (codes "www")
        ≡ or_other (of_name (served_by config rows saved_disk) (codes "www")) (
            or_other none
              (second_pair without_pair (codes ":25") (some (given_by reloaded)) saved_disk)))
unfolding reload_all register_reload_callback new_certificate_store named_pair
handshake_follows_rows_example =
    handshake_follows_rows config rows_repo rows saved_disk empty_store reloaded without_pair
      (codes ":25") saved_disk refl refl refl refl (codes "www") (codes "a.test") www-Without

-- a host below a domain is served by its certificate, another name by the default
served_names :
    (get_certificate_with_fallback server (codes "www.a.test") ≡ some (codes "CERT"))
    × (get_certificate_with_fallback server (codes "b.test") ≡ some (codes "SELF"))
unfolding get_certificate_with_fallback codes given_by get_certificate_func get reload_all rows
    disk_files register_reload_callback new_certificate_store save_certificate put bytes_eq
served_names = (refl, refl)
