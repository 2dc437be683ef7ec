-- ===== src/Services/CertStore/Reload.antt =====
-- What `ReloadAll` of internal/services/cert_store.go leaves in memory.

use webrana_infinimail_backe.Effect.Rules.{outcome_cases}
use webrana_infinimail_backe.Repository.Certificates.{CertificateRepository}
use webrana_infinimail_backe.Dict.{Dict, get, get-put, put}
use webrana_infinimail_backe.Models.{DomainCertificate}
use webrana_infinimail_backe.Text.{Bytes, bytes_eq, codes}
use webrana_infinimail_backe.Services.CertStore.{
  StoreConfig, with_loaded, load_all, load_from_disk, mail_subdomain, CertStore, reload_all,
  call_all, reload_by, reload_from, notify_reload_callbacks,
}
use webrana_infinimail_backe.Effect.{ok, err, Result, Err, wrap}
use webrana_infinimail_backe.Prelude.{
  [], true, false, none, some, inl, inr, refl, ◌∷◌, List, Option, ◌≡◌, if◌then◌else◌, Option-cases,
  Bool, ◌∙◌, ◌||◌, ap, sym, ◌⊎◌, subst,
}

module _ {W C : Type 0} (config : StoreConfig W C) where
  loaded : Bytes → Bytes → Result C → Option C
  loaded name n (err e) = none
  loaded name n (ok cert) =
      if bytes_eq name n || bytes_eq (mail_subdomain name) n then some cert else none

  -- The certificate for the server name `n`: the last of the rows that names it, by its domain or
  -- by the mail subdomain of its domain, and whose files can be loaded.
  unfoldable pub served_by : List DomainCertificate → W → Bytes → Option C
  unfolding loaded
  served_by [] w n = none
  served_by (c ∷ cs) w n = elim (served_by cs w n) [
    | some cert ↦ some cert
    | none ↦ loaded c.domain_name n (load_from_disk config c.domain_name w)
  ]

  abbrev pub or_else_get : Option C → Option C → Option C
  or_else_get (some cert) o = some cert
  or_else_get none o = o

  get-with_loaded :
      (name n : Bytes) (r : Result C) (d : Dict C)
      → get n (with_loaded config name r d) ≡ or_else_get (loaded name n r) (get n d)
  unfolding with_loaded loaded
  get-with_loaded name n (err e) d = refl
  get-with_loaded name n (ok cert) d =
      get-put (mail_subdomain name) cert (put name cert d) n
      ∙ rw (get-put name cert d n) (choose (bytes_eq name n) (bytes_eq (mail_subdomain name) n))
    where
      choose :
          (a b : Bool)
          → (if b then some cert else (if a then some cert else get n d))
            ≡ or_else_get (if a || b then some cert else none) (get n d)
      choose true true = refl
      choose true false = refl
      choose false true = refl
      choose false false = refl

  or_else_get_assoc :
      (a b c : Option C) → or_else_get a (or_else_get b c) ≡ or_else_get (or_else_get a b) c
  or_else_get_assoc (some x) b c = refl
  or_else_get_assoc none b c = refl

  or_else_get-none : (a : Option C) → or_else_get a none ≡ a
  or_else_get-none (some x) = refl
  or_else_get-none none = refl

  served_by_cons :
      (c : DomainCertificate) (cs : List DomainCertificate) (w : W) (n : Bytes)
      → served_by (c ∷ cs) w n
        ≡ or_else_get
            (served_by cs w n)
            (loaded c.domain_name n (load_from_disk config c.domain_name w))
  unfolding served_by
  served_by_cons c cs w n = elim (Option-cases (served_by cs w n)) [
    | inl e ↦ rw e refl
    | inr (x, e) ↦ rw e refl
  ]

  get-load_all :
      (cs : List DomainCertificate) (w : W) (d : Dict C) (n : Bytes)
      → get n (load_all config cs w d) ≡ or_else_get (served_by cs w n) (get n d)
  unfolding load_all served_by
  get-load_all [] w d n = refl
  get-load_all (c ∷ cs) w d n =
      get-load_all cs w (with_loaded config c.domain_name (load_from_disk config c.domain_name w) d)
        n
      ∙ ap (or_else_get (served_by cs w n))
          (get-with_loaded c.domain_name n (load_from_disk config c.domain_name w) d)
      ∙ or_else_get_assoc (served_by cs w n)
          (loaded c.domain_name n (load_from_disk config c.domain_name w)) (get n d)
      ∙ ap (λ o. or_else_get o (get n d)) (sym (served_by_cons c cs w n))

  -- What the new state is when the rows `certs` were read and left the world `v`.
  pub record Reloaded (certs : List DomainCertificate) (v : W) (s s' : CertStore W C) : Type 0 where
    pub served : (n : Bytes) → get n s'.certificates ≡ served_by certs v n
    pub called : s'.outside ≡ call_all config s.reload_callbacks v
    pub same_default : s'.default_cert ≡ s.default_cert
    pub same_callbacks : s'.reload_callbacks ≡ s.reload_callbacks

  -- With a database, `ReloadAll` fails exactly if the rows cannot be read, and then it changes
  -- nothing in the store and calls no callback; otherwise the certificate of every server name is
  -- afterwards the one of the last row that names it, by its domain or by "mail." and its domain,
  -- and whose files can be loaded, and no name has another; every callback is called once, in the
  -- order of registration, and the default certificate stays.
  pub reload_all-refines :
      (repo : CertificateRepository W)
      → config.cert_repo ≡ some repo
      → (s : CertStore W C)
      → ((certs : List DomainCertificate) × (v : W) × (s' : CertStore W C) × (repo.list s.outside
            ≡ (ok certs, v))
          × (reload_all config s ≡ (ok tt, s'))
          × Reloaded certs v s s')
        ⊎ ((e : Err) × (v : W) × (repo.list s.outside ≡ (err e, v))
            × (reload_all config s ≡ (
              err (wrap (codes "failed to get certificates from database") e),
              record s { outside = v },
            )))
  unfolding reload_all reload_by reload_from notify_reload_callbacks get
  reload_all-refines repo h s = elim (outcome_cases repo.list s.outside) [
    | inl (certs, v, p) ↦ inl (
      certs,
      v,
      _,
      p,
      ap (λ r. reload_by config r s) h ∙ rw p refl,
      record {
        served = λ n. get-load_all certs v [] n ∙ or_else_get-none (served_by certs v n);
        called = refl;
        same_default = refl;
        same_callbacks = refl;
      },
    )
    | inr (e, v, p) ↦ inr (e, v, p, ap (λ r. reload_by config r s) h ∙ rw p refl)
  ]

  pub reload_all-Reloaded :
      (repo : CertificateRepository W) (certs : List DomainCertificate) (v : W)
      (s s' : CertStore W C)
      → config.cert_repo ≡ some repo
      → repo.list s.outside ≡ (ok certs, v)
      → reload_all config s ≡ (ok tt, s')
      → Reloaded certs v s s'
  reload_all-Reloaded repo certs v s s' h p r = elim (reload_all-refines repo h s) [
    | inl (certs', v', s'', p', r', done) ↦
        let same_certs : certs' ≡ certs = cc (p, p') in
        let same_v : v' ≡ v = cc (p, p') in
        let same_s : s'' ≡ s' = cc (r, r') in
        subst (λ x. Reloaded certs v s x) same_s
          (subst (λ x. Reloaded certs x s s'') same_v
            (subst (λ x. Reloaded x v' s s'') same_certs done))
    | inr (e, v', p', r') ↦ cc (p, p')
  ]
