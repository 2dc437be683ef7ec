-- ===== src/Services/CertFiles.antt =====
-- internal/services/cert_storage.go. The file system is a parameter: `os.MkdirAll`, `os.WriteFile`
-- with `os.Chmod`, `os.ReadFile`, `os.Stat`, `os.Remove` and `os.RemoveAll`, on paths.
pub mod RoundTrip
use webrana_infinimail_backe.Services.{CertificateBundle, StoredCertificate}
use webrana_infinimail_backe.Text.{Bytes, codes, is_empty}
use webrana_infinimail_backe.Effect.{
  ok, err, Action, Result, ◌>>◌, on_error, ignore, pure, guard, raise, wrap, message, or_wrap,
  ◌>>=◌, reads,
}
use webrana_infinimail_backe.Prelude.{
  zero, [], none, some, ℕ, Option, if◌then◌else◌, Bool, ◌&&◌, not,
}

pub record FileSystem (W : Type 0) : Type 0 where
  pub mkdir_all : Bytes → ℕ → Action W (Unit {0})
  pub write_file : Bytes → Bytes → ℕ → Action W (Unit {0})
  pub chmod : Bytes → ℕ → Action W (Unit {0})
  pub read_file : Bytes → W → Result Bytes
  -- `os.Stat` finds something
  pub exists : Bytes → W → Bool
  -- `os.IsNotExist` of the error of `os.Stat`
  pub is_absent : Bytes → W → Bool
  pub remove : Bytes → Action W (Unit {0})
  pub remove_all : Bytes → Action W (Unit {0})

-- `CertStorageConfig`, the file system, and `x509.ParseCertificate` of the first PEM block: the
-- times between which a certificate is valid, if it can be read.
pub record CertFiles (W : Type 0) : Type 0 where
  pub base_path : Bytes
  pub files : FileSystem W
  pub join_path : Bytes → Bytes → Bytes
  pub validity : Bytes → Option (ℕ × ℕ)
  pub now : W → ℕ

module _ {W : Type 0} (s : CertFiles W) where
  unfoldable pub domain_dir : Bytes → Bytes
  domain_dir name = s.join_path s.base_path name

  -- `GetCertificatePath`
  unfoldable pub certificate_path : Bytes → Bytes
  unfolding codes domain_dir
  certificate_path name = s.join_path (domain_dir name) (codes "fullchain.pem")

  -- `GetKeyPath`
  unfoldable pub key_path : Bytes → Bytes
  unfolding codes domain_dir
  key_path name = s.join_path (domain_dir name) (codes "privkey.pem")

  unfoldable pub chain_path_of : Bytes → Bytes
  unfolding codes domain_dir
  chain_path_of name = s.join_path (domain_dir name) (codes "chain.pem")

  unfoldable pub write_file_secure : Bytes → Bytes → Action W (Unit {0})
  write_file_secure path data_ = s.files.write_file path data_ 384 >> s.files.chmod path 384

  unfoldable pub issued_time : Bytes → W → ℕ
  issued_time pem w = elim (s.validity pem) [ none ↦ s.now w | some (from_, until) ↦ from_ ]

  -- A failed write of the key removes the certificate, whatever becomes of that.
  unfoldable pub write_key : Bytes → Bytes → Action W (Unit {0})
  unfolding codes write_file_secure certificate_path key_path
  write_key name key = on_error (write_file_secure (key_path name) key) (λ e.
      ignore (s.files.remove (certificate_path name))
      >> raise (wrap (codes "failed to write private key") e))

  -- The chain is written if there is one; the result is its path.
  unfoldable pub write_chain : Bytes → Bytes → Action W Bytes
  unfolding codes write_file_secure certificate_path key_path chain_path_of
  write_chain name chain =
      if is_empty chain
      then pure []
      else on_error (write_file_secure (chain_path_of name) chain >> pure (chain_path_of name))
          (λ e.
            ignore (s.files.remove (certificate_path name))
            >> (ignore (s.files.remove (key_path name))
                >> raise (wrap (codes "failed to write chain") e)))

  unfoldable pub save_certificate : Bytes → CertificateBundle → Action W StoredCertificate
  unfolding codes domain_dir certificate_path key_path write_file_secure write_key write_chain
      issued_time
  save_certificate name bundle = do
    guard (not (is_empty name)) (message (codes "domain name cannot be empty"))
    guard (not (is_empty bundle.certificate)) (message (codes "certificate data cannot be empty"))
    guard (not (is_empty bundle.private_key)) (message (codes "private key data cannot be empty"))
    or_wrap (s.files.mkdir_all (domain_dir name) 448) "failed to create domain directory"
    or_wrap (write_file_secure (certificate_path name) bundle.certificate)
        "failed to write certificate"
    write_key name bundle.private_key
    chain ← write_chain name bundle.chain
    issued_at ← reads (issued_time bundle.certificate)
    pure (record {
      domain_name = name;
      cert_path = certificate_path name;
      key_path = key_path name;
      chain_path = chain;
      expires_at = bundle.expires_at;
      issued_at = issued_at;
    })

  unfoldable pub read_path : Bytes → Action W Bytes
  read_path path w = (s.files.read_file path w, w)

  -- The chain, if `os.Stat` finds it; an error of the reading leaves it empty.
  unfoldable pub read_chain : Bytes → W → Bytes
  unfolding chain_path_of
  read_chain name w =
      if s.files.exists (chain_path_of name) w
      then elim (s.files.read_file (chain_path_of name) w) [ ok chain ↦ chain | err e ↦ [] ]
      else []

  -- The zero time stands for a certificate that cannot be read.
  unfoldable pub expiry_time : Bytes → ℕ
  expiry_time pem = elim (s.validity pem) [ none ↦ 0 | some (from_, until) ↦ until ]

  unfoldable pub load_certificate : Bytes → Action W CertificateBundle
  unfolding codes certificate_path key_path read_path read_chain expiry_time
  load_certificate name = do
    guard (not (is_empty name)) (message (codes "domain name cannot be empty"))
    certificate ← or_wrap (read_path (certificate_path name)) "failed to read certificate"
    key ← or_wrap (read_path (key_path name)) "failed to read private key"
    chain ← reads (read_chain name)
    pure (record {
      certificate = certificate;
      private_key = key;
      chain = chain;
      expires_at = expiry_time certificate;
    })

  unfoldable pub delete_certificate : Bytes → Action W (Unit {0})
  unfolding codes domain_dir
  delete_certificate name = do
    guard (not (is_empty name)) (message (codes "domain name cannot be empty"))
    absent ← reads (s.files.is_absent (domain_dir name))
    if absent
        then pure tt
        else or_wrap (s.files.remove_all (domain_dir name)) "failed to delete certificate directory"

  -- `CertificateExists`
  unfoldable pub certificate_exists : Bytes → W → Bool
  unfolding certificate_path key_path
  certificate_exists name w =
      s.files.exists (certificate_path name) w && s.files.exists (key_path name) w
