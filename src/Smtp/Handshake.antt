-- ===== src/Smtp/Handshake.antt =====
-- Which certificate the SMTP server shows, with the store of internal/services/cert_store.go as
-- its source.
use webrana_infinimail_backe.Smtp.Startup.{first_pair, started, second_pair, started-Shows}
use webrana_infinimail_backe.Smtp.Server.{Environment, shown}
use webrana_infinimail_backe.Text.Split.{Without}
use webrana_infinimail_backe.Repository.Certificates.{CertificateRepository}
use webrana_infinimail_backe.Effect.{ok}
use mathlib.Core.Path.{fun_ext}
use webrana_infinimail_backe.Services.CertStore.Reload.{served_by, Reloaded, reload_all-Reloaded}
use webrana_infinimail_backe.Text.{Bytes, bytes_eq, is_empty, bytes_eq_sound}
use webrana_infinimail_backe.Smtp.Certificates.{given_by, looked_up, or_other, in_option}
use webrana_infinimail_backe.Models.{DomainCertificate}
use webrana_infinimail_backe.Services.CertStore.{
  StoreConfig, CertStore, by_name, lookup_name, get_certificate_func, or_default, reload_all,
  extract_parent_domain, lookup_parent,
}
use webrana_infinimail_backe.Prelude.{
  none, some, refl, Option, List, ◌≡◌, ◌∙◌, ap, [], false, inl, inr, ◌∷◌, ◌++◌, Bool-cases, length,
  arith, length-append, Option-cases,
}

-- the certificate of a name that is not empty
abbrev pub of_name : {C : Type 0} → (Bytes → Option C) → Bytes → Option C
of_name rows [] = none
of_name rows (c ∷ s) = rows (c ∷ s)

parent-dotted :
    (label parent : Bytes)
    → Without b'.' label
    → extract_parent_domain (label ++ b'.' ∷ parent) ≡ parent
unfolding extract_parent_domain
parent-dotted [] parent h = refl
parent-dotted (c ∷ label) parent (other, h) = rw (other, parent-dotted label parent h) refl

parent-dotless : (label : Bytes) → Without b'.' label → extract_parent_domain label ≡ []
unfolding extract_parent_domain
parent-dotless [] h = refl
parent-dotless (c ∷ label) (other, h) = rw (other, parent-dotless label h) refl

longer : (label parent : Bytes) → bytes_eq parent (label ++ b'.' ∷ parent) ≡ false
longer label parent = elim (Bool-cases (bytes_eq parent (label ++ b'.' ∷ parent))) [
  | inl p ↦
      let same = ap length (bytes_eq_sound parent (label ++ b'.' ∷ parent) p) in
      let no : ⊥ = omega (arith, same, length-append label (b'.' ∷ parent)) in elim no [ ]
  | inr p ↦ p
]

full : (label parent : Bytes) → is_empty (label ++ b'.' ∷ parent) ≡ false
full [] parent = refl
full (c ∷ label) parent = refl

module _ {C : Type 0} where
  or_other_assoc : (a b c : Option C) → or_other (or_other a b) c ≡ or_other a (or_other b c)
  or_other_assoc (some x) b c = refl
  or_other_assoc none b c = refl

  or_others :
      (a b c d : Option C)
      → or_other (or_other (or_other a b) c) d ≡ or_other a (or_other b (or_other c d))
  or_others (some x) b c d = refl
  or_others none b c d = or_other_assoc b c d

  parent-of_name :
      (rows : Bytes → Option C) (name parent : Bytes)
      → bytes_eq parent name ≡ false
      → lookup_parent rows name parent ≡ of_name rows parent
  unfolding lookup_parent
  parent-of_name rows name [] h = refl
  parent-of_name rows name (c ∷ s) h = rw h refl

  lookup_name-parts :
      (rows : Bytes → Option C) (name : Bytes)
      → is_empty name ≡ false
      → lookup_name rows name
        ≡ or_other (rows name) (lookup_parent rows name (extract_parent_domain name))
  unfolding lookup_name
  lookup_name-parts rows name full = elim (Option-cases (rows name)) [
    | inl p ↦ rw (full, p) refl
    | inr (cert, p) ↦ rw (full, p) refl
  ]

  lookup_name-dotted :
      (rows : Bytes → Option C) (label parent : Bytes)
      → Without b'.' label
      → lookup_name rows (label ++ b'.' ∷ parent)
        ≡ or_other (rows (label ++ b'.' ∷ parent)) (of_name rows parent)
  lookup_name-dotted rows label parent h =
      let name = label ++ b'.' ∷ parent in
      lookup_name-parts rows name (full label parent)
      ∙ rw (parent-dotted label parent h)
          (ap (λ o. or_other (rows name) o) (parent-of_name rows name parent (longer label parent)))

  or_none : (o : Option C) → or_other o none ≡ o
  or_none (some c) = refl
  or_none none = refl

  lookup_name-dotless :
      (rows : Bytes → Option C) (label : Bytes)
      → Without b'.' label
      → lookup_name rows label ≡ of_name rows label
  unfolding lookup_name lookup_parent
  lookup_name-dotless rows [] h = refl
  lookup_name-dotless rows (c ∷ s) h =
      lookup_name-parts rows (c ∷ s) refl ∙ rw (parent-dotless (c ∷ s) h) (or_none (rows (c ∷ s)))

module _ {W C : Type 0} (config : StoreConfig W C) where
  looked_up-store :
      (s : CertStore W C) (n : Bytes)
      → looked_up (some (given_by s)) n ≡ or_other (by_name n s) s.default_cert
  unfolding looked_up given_by get_certificate_func or_default
  looked_up-store s n = go (by_name n s) s.default_cert
    where
      go : (a b : Option C) → looked_up (some (λ n. in_option (or_default n a b))) n ≡ or_other a b
      go (some x) b = refl
      go none (some y) = refl
      go none none = refl

  shown-store :
      (env : Environment W C) (addr : Bytes) (s : CertStore W C) (w : W)
      → (first_pair env addr (some (given_by s)) w).0 ≡ none
      → (n : Bytes)
      → shown (started env addr (some (given_by s)) w) n
        ≡ or_other
            (or_other (by_name n s) s.default_cert)
            (second_pair env addr (some (given_by s)) w)
  shown-store env addr s w absent n = elim (started-Shows env addr (some (given_by s)) w) [
    | inl (cert, p, h) ↦ cc (absent, p)
    | inr (p, h) ↦
        h n
        ∙ ap (λ o. or_other o (second_pair env addr (some (given_by s)) w)) (looked_up-store s n)
  ]

  by_name-rows :
      (certs : List DomainCertificate) (v : W) (s s' : CertStore W C) (n : Bytes)
      → Reloaded config certs v s s'
      → by_name n s' ≡ lookup_name (served_by config certs v) n
  unfolding by_name
  by_name-rows certs v s s' n r = ap (λ f. lookup_name f n) (fun_ext r.served)

  -- After `ReloadAll` has returned no error, when the pair of SMTP_TLS_CERT and SMTP_TLS_KEY could
  -- not be loaded for the listener and the SMTP server takes its certificates from the store, it
  -- shows for a server name with a dot the certificate of the last loadable row for the name, else
  -- that of the last loadable row for what follows the first dot, unless that is empty; for a name
  -- without a dot, that of the last loadable row for the name, unless it is empty; else the default
  -- certificate of the store, else the pair, if it could be loaded the second time.
  pub handshake_follows_rows :
      (repo : CertificateRepository W) (certs : List DomainCertificate) (v : W)
      (s s' : CertStore W C) (env : Environment W C) (addr : Bytes) (w : W)
      → config.cert_repo ≡ some repo
      → repo.list s.outside ≡ (ok certs, v)
      → reload_all config s ≡ (ok tt, s')
      → (first_pair env addr (some (given_by s')) w).0 ≡ none
      → (label parent : Bytes) → Without b'.' label
      → (shown (started env addr (some (given_by s')) w) (label ++ b'.' ∷ parent)
          ≡ or_other (served_by config certs v (label ++ b'.' ∷ parent)) (
              or_other
                (of_name (served_by config certs v) parent)
                (or_other s.default_cert (second_pair env addr (some (given_by s')) w))))
        × (shown (started env addr (some (given_by s')) w) label
            ≡ or_other
                (of_name (served_by config certs v) label)
                (or_other s.default_cert (second_pair env addr (some (given_by s')) w)))
  handshake_follows_rows repo certs v s s' env addr w c p r absent label parent h =
      let done = reload_all-Reloaded config repo certs v s s' c p r in
      let pair = second_pair env addr (some (given_by s')) w in
      let shows : (n : Bytes)
          → shown (started env addr (some (given_by s')) w) n
            ≡ or_other (or_other (lookup_name (served_by config certs v) n) s.default_cert) pair =
        λ n.
          shown-store env addr s' w absent n
          ∙ rw (by_name-rows certs v s s' n done, done.same_default) refl in
      (
        shows (label ++ b'.' ∷ parent)
            ∙ rw (lookup_name-dotted (served_by config certs v) label parent h)
                (or_others _ _ s.default_cert pair),
        shows label
            ∙ rw (lookup_name-dotless (served_by config certs v) label h)
                (or_other_assoc _ s.default_cert pair),
      )
