-- ===== src/Services/CertStore/Serving.antt =====
-- Which certificate a server name gets, internal/services/cert_store.go.

use webrana_infinimail_backe.Text.Split.{Without}
use webrana_infinimail_backe.Dict.{Dict, get, put, get-put, delete_key, get-delete}
use webrana_infinimail_backe.Services.CertStore.{
  extract_parent_domain, get_certificate_func, mail_subdomain, StoreConfig, by_name, CertStore,
  load_from_disk, load_and_add_certificate, add_certificate, notify_reload_callbacks, call_all,
  or_default, stored, remove_certificate, lookup_name, lookup_parent,
}
use webrana_infinimail_backe.Text.{Bytes, bytes_eq, codes, is_empty, bytes_eq_sound, bytes_eq_refl}
use webrana_infinimail_backe.Effect.{ok, err, Err, result_cases, ◌>>◌}
use webrana_infinimail_backe.Prelude.{
  [], false, none, some, inl, inr, refl, ◌∷◌, length, ℕ, ◌≢◌, ◌++◌, ◌≡◌, Bool-cases, arith, ap,
  length-append, ◌∙◌, ◌⊎◌,
}

length-differs : (a b : Bytes) → length a ≢ length b → bytes_eq a b ≡ false
length-differs a b h = elim (Bool-cases (bytes_eq a b)) [
  | inl e ↦ elim (h (ap length (bytes_eq_sound a b e))) [ ]
  | inr e ↦ e
]

not_longer : (label name : Bytes) → bytes_eq name (label ++ b'.' ∷ name) ≡ false
not_longer label name =
    length-differs name (label ++ b'.' ∷ name)
      (λ h. omega (arith, h, length-append label (b'.' ∷ name)))

parent-label :
    (label name : Bytes) → Without b'.' label → extract_parent_domain (label ++ b'.' ∷ name) ≡ name
unfolding extract_parent_domain
parent-label [] name h = refl
parent-label (c ∷ label) name (other, h) = rw (other, parent-label label name h) refl

append-not_empty : (a b : Bytes) (c : ℕ) → is_empty (a ++ c ∷ b) ≡ false
append-not_empty [] b c = refl
append-not_empty (x ∷ a) b c = refl

name_apart_mail : (name : Bytes) → bytes_eq name (mail_subdomain name) ≡ false
unfolding mail_subdomain codes
name_apart_mail name = not_longer (codes "mail") name

mail_apart_name : (name : Bytes) → bytes_eq (mail_subdomain name) name ≡ false
unfolding mail_subdomain codes
mail_apart_name name = length-differs (mail_subdomain name) name (λ h. omega (arith, h))

module _ {C : Type 0} where
  stays : (d : Dict C) (k n : Bytes) (v : C) → bytes_eq k n ≡ false → get n (put k v d) ≡ get n d
  stays d k n v h = get-put k v d n ∙ rw h refl

  here : (d : Dict C) (k : Bytes) (v : C) → get k (put k v d) ≡ some v
  here d k v = get-put k v d k ∙ rw (bytes_eq_refl k) refl

module _ {W C : Type 0} where
  by_name-found :
      (s : CertStore W C) (n : Bytes) (cert : C)
      → is_empty n ≡ false
      → get n s.certificates ≡ some cert
      → by_name n s ≡ some cert
  unfolding by_name lookup_name
  by_name-found s n cert named found = rw (named, found) refl

  by_name-parent :
      (s : CertStore W C) (n parent : Bytes) (cert : C)
      → is_empty n ≡ false
      → get n s.certificates ≡ none
      → extract_parent_domain n ≡ parent
      → is_empty parent ≡ false
      → bytes_eq parent n ≡ false
      → get parent s.certificates ≡ some cert
      → by_name n s ≡ some cert
  unfolding by_name lookup_name lookup_parent
  by_name-parent s n parent cert named new above above_named shorter found =
      rw (named, new) (rw above (rw (above_named, shorter) found))

  name_served :
      (s : CertStore W C) (n : Bytes) (cert : C)
      → by_name n s ≡ some cert
      → get_certificate_func s n ≡ ok cert
  unfolding get_certificate_func
  name_served s n cert h = ap (λ o. or_default n o s.default_cert) h

  -- A server name of one label below a domain gets the domain's certificate, unless the name has
  -- one of its own.
  pub subdomain_gets_parent :
      (s : CertStore W C) (label name : Bytes) (cert : C)
      → Without b'.' label
      → is_empty name ≡ false
      → get name s.certificates ≡ some cert
      → get (label ++ b'.' ∷ name) s.certificates ≡ none
      → get_certificate_func s (label ++ b'.' ∷ name) ≡ ok cert
  subdomain_gets_parent s label name cert one_label named found new = name_served s _ cert (
      by_name-parent s (label ++ b'.' ∷ name) name cert (append-not_empty label name b'.') new
        (parent-label label name one_label) named (not_longer label name) found)

  -- What `LoadAndAddCertificate` leaves when the certificate of `name` was loaded.
  pub record Added (name : Bytes) (cert : C) (s s' : CertStore W C) : Type 0 where
    pub domain_served : get_certificate_func s' name ≡ ok cert
    pub mail_served : get_certificate_func s' (mail_subdomain name) ≡ ok cert
    pub others :
        (n : Bytes)
        → bytes_eq name n ≡ false
        → bytes_eq (mail_subdomain name) n ≡ false
        → get n s'.certificates ≡ get n s.certificates

module _ {W C : Type 0} (config : StoreConfig W C) where
  with_added : Bytes → C → CertStore W C → CertStore W C
  unfolding notify_reload_callbacks
  with_added name cert s =
      notify_reload_callbacks config (stored (mail_subdomain name) cert (stored name cert s))

  loaded-named :
      (name : Bytes) (w : W) (cert : C)
      → load_from_disk config name w ≡ ok cert
      → is_empty name ≡ false
  unfolding load_from_disk
  loaded-named [] w cert h = cc h
  loaded-named (c ∷ name) w cert h = refl

  -- `LoadAndAddCertificate` returns the error of the loading and changes nothing, or it succeeds,
  -- and afterwards the server names of the domain and of its mail host get the certificate that
  -- was loaded, every other name has the entry that it had, and every callback was called once.
  pub load_and_add-Added :
      (name : Bytes) (s : CertStore W C)
      → ((cert : C) × (s' : CertStore W C) × (load_from_disk config name s.outside ≡ ok cert)
          × (load_and_add_certificate config name s ≡ (ok tt, s'))
          × Added name cert s s'
          × (s'.outside ≡ call_all config s.reload_callbacks s.outside))
        ⊎ ((e : Err) × (load_from_disk config name s.outside ≡ err e)
            × (load_and_add_certificate config name s ≡ (err e, s)))
  unfolding load_and_add_certificate add_certificate mail_subdomain codes with_added
      notify_reload_callbacks
  load_and_add-Added name s = elim (result_cases (load_from_disk config name s.outside)) [
    | inl (cert, p) ↦
        let named : is_empty name ≡ false = loaded-named name s.outside cert p in
        let d : Dict C = put name cert s.certificates in
        inl (
          cert,
          with_added name cert s,
          p,
          rw (p, named) refl,
          record {
            domain_served = name_served _ name cert (
                by_name-found _ name cert named (
                  stays d (mail_subdomain name) name cert (mail_apart_name name)
                  ∙ here s.certificates name cert));
            mail_served = name_served _ (mail_subdomain name) cert (
                by_name-found _ (mail_subdomain name) cert refl
                  (here d (mail_subdomain name) cert));
            others = λ n h k.
                stays d (mail_subdomain name) n cert k ∙ stays s.certificates name n cert h;
          },
          refl,
        )
    | inr (e, p) ↦ inr (e, p, rw p refl)
  ]

  -- A certificate that came by `LoadAndAddCertificate` is still given for the mail host of its
  -- domain after `RemoveCertificate` of the domain, while the domain has no entry any more.
  pub removal_keeps_mail :
      (name : Bytes) (s : CertStore W C) (cert : C)
      → load_from_disk config name s.outside ≡ ok cert
      → (s' : CertStore W C) × ((load_and_add_certificate config name >> remove_certificate name) s
          ≡ (ok tt, s'))
        × (get name s'.certificates ≡ none)
        × (get_certificate_func s' (mail_subdomain name) ≡ ok cert)
  unfolding load_and_add_certificate add_certificate mail_subdomain codes with_added
      notify_reload_callbacks remove_certificate
  removal_keeps_mail name s cert p =
      let named : is_empty name ≡ false = loaded-named name s.outside cert p in
      let added : CertStore W C = with_added name cert s in
      (
        record added { certificates = delete_key name added.certificates },
        rw (p, named) refl,
        get-delete name added.certificates name ∙ rw (bytes_eq_refl name) refl,
        name_served _ (mail_subdomain name) cert (
            by_name-found _ (mail_subdomain name) cert refl (
              get-delete name added.certificates (mail_subdomain name)
              ∙ rw (name_apart_mail name)
                  (here (put name cert s.certificates) (mail_subdomain name) cert))),
      )
