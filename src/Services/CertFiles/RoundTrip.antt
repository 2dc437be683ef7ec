-- ===== src/Services/CertFiles/RoundTrip.antt =====
-- Certificates saved to disk are loaded again, internal/services/cert_storage.go.
use webrana_infinimail_backe.Effect.Rules.{bind-ok, on_error-ok, bind_case, guard-ok, or_wrap-ok}
use webrana_infinimail_backe.Services.{CertificateBundle, StoredCertificate}
use webrana_infinimail_backe.Text.{Bytes, bytes_eq, is_empty, codes, bytes_eq_refl}
use webrana_infinimail_backe.Services.CertFiles.{
  CertFiles, read_chain, write_file_secure, write_key, write_chain, save_certificate, chain_path_of,
  certificate_path, domain_dir, key_path, load_certificate, expiry_time,
}
use webrana_infinimail_backe.Effect.{
  ok, err, Result, IsErr, ignore, ◌>>◌, guard, raise, pure, wrap, or_wrap,
}
use webrana_infinimail_backe.Prelude.{
  [], false, inl, inr, refl, ◌∷◌, ℕ, ◌≡◌, if◌then◌else◌, Bool-cases, ap, ◌∙◌, not, true, Bool, sym,
}

-- What the file system documents: a write that succeeds changes what is read at its path and
-- nowhere else, the mode and the directories change no content, what is read exists, and the three
-- files of a domain have different paths.
pub record FileLaws {W : Type 0} (s : CertFiles W) : Type 0 where
  pub write_ok :
      (p x : Bytes) (mode : ℕ) (w w' : W) (u : Unit {0})
      → s.files.write_file p x mode w ≡ (ok u, w')
      → (q : Bytes)
      → s.files.read_file q w' ≡ (if bytes_eq p q then ok x else s.files.read_file q w)
  pub chmod_ok :
      (p : Bytes) (mode : ℕ) (w w' : W) (u : Unit {0})
      → s.files.chmod p mode w ≡ (ok u, w')
      → (q : Bytes) → s.files.read_file q w' ≡ s.files.read_file q w
  pub mkdir_ok :
      (p : Bytes) (mode : ℕ) (w w' : W) (u : Unit {0})
      → s.files.mkdir_all p mode w ≡ (ok u, w')
      → (q : Bytes) → s.files.read_file q w' ≡ s.files.read_file q w
  pub read_exists : (q : Bytes) (w : W) → s.files.exists q w ≡ false → IsErr (s.files.read_file q w)
  pub key_apart : (n : Bytes) → bytes_eq (key_path s n) (certificate_path s n) ≡ false
  pub chain_apart_key : (n : Bytes) → bytes_eq (chain_path_of s n) (key_path s n) ≡ false
  pub chain_apart_cert : (n : Bytes) → bytes_eq (chain_path_of s n) (certificate_path s n) ≡ false
  pub key_apart_chain : (n : Bytes) → bytes_eq (key_path s n) (chain_path_of s n) ≡ false
  pub cert_apart_chain : (n : Bytes) → bytes_eq (certificate_path s n) (chain_path_of s n) ≡ false

module _ {W : Type 0} (s : CertFiles W) (laws : FileLaws s) where
  abbrev read_or : Result Bytes → Bytes
  read_or (ok x) = x
  read_or (err e) = []

  found : (r : Result Bytes) → elim r [ ok chain ↦ chain | err e ↦ [] ] ≡ read_or r
  found (ok x) = refl
  found (err e) = refl

  missing : (r : Result Bytes) → IsErr r → [] ≡ read_or r
  missing (ok x) h = elim h [ ]
  missing (err e) h = refl

  read_chain_lem :
      (n : Bytes) (w : W) → read_chain s n w ≡ read_or (s.files.read_file (chain_path_of s n) w)
  unfolding read_chain
  read_chain_lem n w = elim (Bool-cases (s.files.exists (chain_path_of s n) w)) [
    | inl e ↦ rw e (found (s.files.read_file (chain_path_of s n) w))
    | inr e ↦ rw e (
        missing (s.files.read_file (chain_path_of s n) w)
          (laws.read_exists (chain_path_of s n) w e))
  ]

  write_secure-reads :
      (p x : Bytes) (w w' : W) (u : Unit {0})
      → write_file_secure s p x w ≡ (ok u, w')
      → (q : Bytes)
      → s.files.read_file q w' ≡ (if bytes_eq p q then ok x else s.files.read_file q w)
  unfolding write_file_secure
  write_secure-reads p x w w' u h q =
      let (u1, v, h1, h2) = bind-ok (s.files.write_file p x 384) (λ _. s.files.chmod p 384) h in
      laws.chmod_ok p 384 v w' u h2 q ∙ laws.write_ok p x 384 w v u1 h1 q

  write_key-reads :
      (n x : Bytes) (w w' : W) (u : Unit {0})
      → write_key s n x w ≡ (ok u, w')
      → (q : Bytes)
      → s.files.read_file q w' ≡ (if bytes_eq (key_path s n) q then ok x else s.files.read_file q w)
  unfolding write_key
  write_key-reads n x w w' u h = write_secure-reads (key_path s n) x w w' u (
      on_error-ok (write_file_secure s (key_path s n) x)
        (λ e.
          ignore (s.files.remove (certificate_path s n))
          >> raise (wrap (codes "failed to write private key") e))
        (λ e v. (_, _, refl)) h)

  write_chain-reads :
      (n x : Bytes) (w w' : W) (path : Bytes)
      → write_chain s n x w ≡ (ok path, w')
      → (q : Bytes)
      → s.files.read_file q w' ≡ (
          if is_empty x
          then s.files.read_file q w
          else if bytes_eq (chain_path_of s n) q
          then ok x
          else s.files.read_file q w)
  unfolding write_chain
  write_chain-reads n [] w w' path h q = ap (s.files.read_file q) (cc h)
  write_chain-reads n (c ∷ x) w w' path h q =
      let h1 =
        on_error-ok (write_file_secure s (chain_path_of s n) (c ∷ x) >> pure (chain_path_of s n))
          (λ e.
            ignore (s.files.remove (certificate_path s n))
            >> (ignore (s.files.remove (key_path s n))
                >> raise (wrap (codes "failed to write chain") e)))
          (λ e v. (_, _, refl)) h in
      let (u, v, h2, h3) =
        bind-ok (write_file_secure s (chain_path_of s n) (c ∷ x)) (λ _. pure (chain_path_of s n))
          h1 in
      ap (s.files.read_file q) (cc h3) ∙ write_secure-reads (chain_path_of s n) (c ∷ x) w v u h2 q

  -- What is read at a path when a bundle has been saved, without and with its chain.
  abbrev below_chain : Bytes → CertificateBundle → W → Bytes → Result Bytes
  below_chain n b w q =
      if bytes_eq (key_path s n) q
      then ok b.private_key
      else if bytes_eq (certificate_path s n) q
      then ok b.certificate
      else s.files.read_file q w

  abbrev saved_content : Bytes → CertificateBundle → W → Bytes → Result Bytes
  saved_content n b w q =
      if is_empty b.chain
      then below_chain n b w q
      else if bytes_eq (chain_path_of s n) q
      then ok b.chain
      else below_chain n b w q

  false_of_not : (b : Bool) → not b ≡ true → b ≡ false
  false_of_not true h = sym h
  false_of_not false h = refl

  saved-reads :
      (n : Bytes) (b : CertificateBundle) (w w' : W) (r : StoredCertificate)
      → save_certificate s n b w ≡ (ok r, w')
      → (is_empty n ≡ false) × ((q : Bytes) → s.files.read_file q w' ≡ saved_content n b w q)
  unfolding save_certificate
  saved-reads n b w w' r h = bind_case (guard (not (is_empty n)) _) _ h (λ _ w0 g1 h.
      bind_case (guard (not (is_empty b.certificate)) _) _ h (λ _ w1 g2 h.
        bind_case (guard (not (is_empty b.private_key)) _) _ h (λ _ w2 g3 h.
          bind_case
            (or_wrap (s.files.mkdir_all (domain_dir s n) 448) "failed to create domain directory") _
            h
            (λ u3 w3 g4 h.
              bind_case
                (or_wrap (write_file_secure s (certificate_path s n) b.certificate)
                  "failed to write certificate")
                _ h
                (λ u4 w4 g5 h. bind_case (write_key s n b.private_key) _ h (λ u5 w5 g6 h.
                  bind_case (write_chain s n b.chain) _ h (λ path w6 g7 h.
                    let (named, e0) = guard-ok (not (is_empty n)) _ g1 in
                    let (_, e1) = guard-ok (not (is_empty b.certificate)) _ g2 in
                    let (_, e2) = guard-ok (not (is_empty b.private_key)) _ g3 in
                    (
                      false_of_not (is_empty n) named,
                      λ q.
                          let below : s.files.read_file q w5 ≡ below_chain n b w q =
                            write_key-reads n b.private_key w4 w5 u5 g6 q
                            ∙ ap (λ x. if bytes_eq (key_path s n) q then ok b.private_key else x)
                                (write_secure-reads (certificate_path s n) b.certificate w3 w4 u4
                                    (or_wrap-ok
                                      (write_file_secure s (certificate_path s n) b.certificate)
                                      "failed to write certificate" g5)
                                    q
                                  ∙ ap
                                      (λ x.
                                        if bytes_eq (certificate_path s n) q
                                        then ok b.certificate
                                        else x)
                                      (laws.mkdir_ok (domain_dir s n) 448 w2 w3 u3
                                          (or_wrap-ok (s.files.mkdir_all (domain_dir s n) 448)
                                            "failed to create domain directory" g4)
                                          q
                                        ∙ ap (s.files.read_file q) (sym (e0 ∙ e1 ∙ e2)))) in
                          ap (s.files.read_file q) (cc h)
                          ∙ write_chain-reads n b.chain w5 w6 path g7 q
                          ∙ ap
                              (λ x.
                                if is_empty b.chain
                                then x
                                else if bytes_eq (chain_path_of s n) q
                                then ok b.chain
                                else x)
                              below,
                    ))))))))

  if_same : {A : Type 0} {a : A} (t : Bool) → (if t then a else a) ≡ a
  if_same true = refl
  if_same false = refl

  chain_read :
      (n : Bytes) (b : CertificateBundle) (w : W)
      → read_or (saved_content n b w (chain_path_of s n))
        ≡ (if is_empty b.chain then read_chain s n w else b.chain)
  chain_read n b w = elim (Bool-cases (is_empty b.chain)) [
    | inl e ↦ rw (e, laws.key_apart_chain n, laws.cert_apart_chain n) (sym (read_chain_lem n w))
    | inr e ↦ rw (e, bytes_eq_refl (chain_path_of s n)) refl
  ]

  -- The three files of the domain, as they are read after the bundle has been saved.
  saved-files :
      (n : Bytes) (b : CertificateBundle) (w w' : W)
      → ((q : Bytes) → s.files.read_file q w' ≡ saved_content n b w q)
      → (s.files.read_file (certificate_path s n) w' ≡ ok b.certificate)
        × (s.files.read_file (key_path s n) w' ≡ ok b.private_key)
        × (read_chain s n w' ≡ (if is_empty b.chain then read_chain s n w else b.chain))
  saved-files n b w w' reads_ = (
    reads_ (certificate_path s n)
        ∙ rw (laws.chain_apart_cert n, laws.key_apart n, bytes_eq_refl (certificate_path s n))
            (if_same (is_empty b.chain)),
    reads_ (key_path s n)
        ∙ rw (laws.chain_apart_key n, bytes_eq_refl (key_path s n)) (if_same (is_empty b.chain)),
    read_chain_lem n w' ∙ ap read_or (reads_ (chain_path_of s n)) ∙ chain_read n b w,
  )

  -- When `SaveCertificate` returns no error, `LoadCertificate` of the same domain gives the same
  -- certificate and key, the expiry that stands in the certificate, and the same chain if the
  -- bundle has one; if it has none, the chain is the one that lay on disk before, if any.
  pub load-save :
      (n : Bytes) (b : CertificateBundle) (w w' : W) (r : StoredCertificate)
      → save_certificate s n b w ≡ (ok r, w')
      → load_certificate s n w' ≡ (
        ok (record {
          certificate = b.certificate;
          private_key = b.private_key;
          chain = if is_empty b.chain then read_chain s n w else b.chain;
          expires_at = expiry_time s b.certificate;
        }),
        w',
      )
  unfolding load_certificate
  load-save n b w w' r h =
      let (named, reads_) = saved-reads n b w w' r h in
      let (cert, key, chain) = saved-files n b w w' reads_ in rw (named, cert, key, chain) refl
