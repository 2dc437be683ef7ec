-- ===== src/Services/CertStore.antt =====
-- internal/services/cert_store.go: the certificates in memory, by server name.
pub mod Reload
pub mod Serving
use webrana_infinimail_backe.Models.{DomainCertificate}
use webrana_infinimail_backe.Repository.Certificates.{CertificateRepository}
use webrana_infinimail_backe.Text.{Bytes, codes, is_empty, bytes_eq}
use webrana_infinimail_backe.Dict.{Dict, put, get, delete_key}
use webrana_infinimail_backe.Services.CertFiles.{
  CertFiles, certificate_exists, certificate_path, key_path,
}
use webrana_infinimail_backe.Effect.{
  ok, err, Result, Action, guard, message, ◌>>=◌, or_wrap, raise, ◌>>◌, changes, wrap,
}
use webrana_infinimail_backe.Prelude.{
  [], none, some, ◌∷◌, Option, ℕ, List, if◌then◌else◌, ◌++◌, length, ◌==◌, not, ◌&&◌,
}

-- What the store is made with: the files, `tls.LoadX509KeyPair`, which reads a certificate and
-- its key, the database if there is one, and what the callbacks do, by their numbers.
pub record StoreConfig (W C : Type 0) : Type 0 where
  pub storage : CertFiles W
  pub load_key_pair : Bytes → Bytes → W → Result C
  pub cert_repo : Option (CertificateRepository W)
  pub call : ℕ → W → W

-- `certificateStore`, and the world outside it. The locks are left out: an operation is one step.
pub record CertStore (W C : Type 0) : Type 0 where
  pub certificates : Dict C
  pub default_cert : Option C
  pub reload_callbacks : List ℕ
  pub outside : W

-- `extractParentDomain`
unfoldable pub extract_parent_domain : Bytes → Bytes
extract_parent_domain [] = []
extract_parent_domain (c ∷ s) = if c == b'.' then s else extract_parent_domain s

unfoldable pub mail_subdomain : Bytes → Bytes
unfolding codes
mail_subdomain name = codes "mail." ++ name

unfoldable pub lookup_parent : {C : Type 0} → (Bytes → Option C) → Bytes → Bytes → Option C
lookup_parent certificates name parent =
    if not (is_empty parent) && not (bytes_eq parent name) then certificates parent else none

-- `s.certificates[serverName]`, then `s.certificates[parentDomain]`
unfoldable pub lookup_name : {C : Type 0} → (Bytes → Option C) → Bytes → Option C
unfolding extract_parent_domain lookup_parent
lookup_name certificates name = if is_empty name then none else elim (certificates name) [
  | some cert ↦ some cert
  | none ↦ lookup_parent certificates name (extract_parent_domain name)
]

-- the certificate found by name, else the default one
unfoldable pub or_default : {C : Type 0} → Bytes → Option C → Option C → Result C
unfolding codes
or_default name (some cert) default_cert = ok cert
or_default name none (some cert) = ok cert
or_default name none none = err (message (codes "no certificate found for server name: " ++ name))

module _ {W C : Type 0} where
  -- `NewCertificateStore`, in the world `w`
  unfoldable pub new_certificate_store : W → CertStore W C
  new_certificate_store w = record {
    certificates = [];
    default_cert = none;
    reload_callbacks = [];
    outside = w;
  }

  abbrev leave : CertStore W C → {A : Type 0} → Result A × W → Result A × CertStore W C
  leave s (r, w) = (r, record s { outside = w })

  -- A call of another part.
  abbrev pub calls : {A : Type 0} → Action W A → Action (CertStore W C) A
  calls m s = leave s (m s.outside)

  abbrev pub stored : Bytes → C → CertStore W C → CertStore W C
  stored name cert s = record s { certificates = put name cert s.certificates }

  -- `AddCertificate`, with the certificate or nil
  unfoldable pub add_certificate : Bytes → Option C → Action (CertStore W C) (Unit {0})
  unfolding codes
  add_certificate name none =
      guard (not (is_empty name)) (message (codes "domain name cannot be empty"))
      >> raise (message (codes "certificate cannot be nil"))
  add_certificate name (some cert) =
      guard (not (is_empty name)) (message (codes "domain name cannot be empty"))
      >> changes (stored name cert)

  -- `RemoveCertificate`
  unfoldable pub remove_certificate : Bytes → Action (CertStore W C) (Unit {0})
  unfolding codes
  remove_certificate name =
      guard (not (is_empty name)) (message (codes "domain name cannot be empty"))
      >> changes (λ s. record s { certificates = delete_key name s.certificates })

  -- `GetCertificate`
  unfoldable pub get_certificate : Bytes → CertStore W C → Result C
  unfolding codes
  get_certificate name s =
      if is_empty name
      then err (message (codes "domain name cannot be empty"))
      else elim (get name s.certificates) [
        | some cert ↦ ok cert
        | none ↦ err (message (codes "certificate not found for domain: " ++ name))
      ]

  -- The entry of the name, else that of its parent domain: a name without a dot, or with nothing
  -- after it, has none.
  unfoldable pub by_name : Bytes → CertStore W C → Option C
  unfolding lookup_name
  by_name name s = lookup_name (λ n. get n s.certificates) name

  -- The function that `GetCertificateFunc` returns, at the server name of the hello.
  unfoldable pub get_certificate_func : CertStore W C → Bytes → Result C
  unfolding by_name or_default
  get_certificate_func s name = or_default name (by_name name s) s.default_cert

  unfoldable pub set_default_certificate : Option C → CertStore W C → CertStore W C
  set_default_certificate cert s = record s { default_cert = cert }

  unfoldable pub count : CertStore W C → ℕ
  count s = length s.certificates

  -- `RegisterReloadCallback`; nil is `none`
  unfoldable pub register_reload_callback : Option ℕ → CertStore W C → CertStore W C
  register_reload_callback none s = s
  register_reload_callback (some f) s = record s { reload_callbacks = s.reload_callbacks ++ f ∷ [] }

module _ {W C : Type 0} (config : StoreConfig W C) where
  -- `LoadCertificate`; reading changes nothing
  unfoldable pub load_from_disk : Bytes → W → Result C
  unfolding codes certificate_exists certificate_path key_path
  load_from_disk name w =
      if is_empty name
      then err (message (codes "domain name cannot be empty"))
      else if not (certificate_exists config.storage name w)
      then err (message (codes "certificate not found for domain: " ++ name))
      else elim (config.load_key_pair (certificate_path config.storage name)
          (key_path config.storage name) w) [
            | ok cert ↦ ok cert
            | err e ↦ err (wrap (codes "failed to load certificate for domain " ++ name) e)
          ]

  unfoldable pub call_all : List ℕ → W → W
  call_all [] w = w
  call_all (f ∷ fs) w = call_all fs (config.call f w)

  -- `notifyReloadCallbacks`
  unfoldable pub notify_reload_callbacks : CertStore W C → CertStore W C
  unfolding call_all
  notify_reload_callbacks s = record s { outside = call_all s.reload_callbacks s.outside }

  -- one round of the loop of `ReloadAll`
  unfoldable pub with_loaded : Bytes → Result C → Dict C → Dict C
  unfolding mail_subdomain
  with_loaded name (err e) d = d
  with_loaded name (ok cert) d = put (mail_subdomain name) cert (put name cert d)

  unfoldable pub load_all : List DomainCertificate → W → Dict C → Dict C
  unfolding load_from_disk with_loaded
  load_all [] w d = d
  load_all (c ∷ cs) w d =
      load_all cs w (with_loaded c.domain_name (load_from_disk c.domain_name w) d)

  unfoldable pub reload_from : CertificateRepository W → Action (CertStore W C) (Unit {0})
  unfolding codes load_all notify_reload_callbacks
  reload_from repo = do
    certs ← or_wrap (calls repo.list) "failed to get certificates from database"
    changes (λ s. record s { certificates = load_all certs s.outside [] })
    changes notify_reload_callbacks

  unfoldable pub reload_by : Option (CertificateRepository W) → Action (CertStore W C) (Unit {0})
  unfolding codes reload_from
  reload_by none = raise (message (codes "certificate repository not configured"))
  reload_by (some repo) = reload_from repo

  -- `ReloadAll`
  unfoldable pub reload_all : Action (CertStore W C) (Unit {0})
  unfolding reload_by
  reload_all = reload_by config.cert_repo

  -- `LoadAndAddCertificate`
  unfoldable pub load_and_add_certificate : Bytes → Action (CertStore W C) (Unit {0})
  unfolding load_from_disk add_certificate mail_subdomain notify_reload_callbacks
  load_and_add_certificate name = do
    cert ← λ s. (load_from_disk name s.outside, s)
    add_certificate name (some cert)
    add_certificate (mail_subdomain name) (some cert)
    changes notify_reload_callbacks
