-- ===== src/Services/DnsExport/Names.antt =====
-- The names in a zone file of internal/services/dns_exporter.go, read as RFC 1035 says.

use webrana_infinimail_backe.Services.DnsExport.Lines.{resolve, Field, names_in, three_lines-names}
use webrana_infinimail_backe.Text.Decimal.{decimal, decimal-Without}
use webrana_infinimail_backe.Text.Split.{Without, append-Without, take-Without, drop-Without}
use webrana_infinimail_backe.Text.Case.{to_lower}
use webrana_infinimail_backe.Models.{Domain}
use webrana_infinimail_backe.Services.DnsExport.{relative_name, export_bind}
use webrana_infinimail_backe.Services.DomainManager.{
  DnsGuide, guide_for, get_parent_domain_name, get_mail_hostname_name, DomainManagerConfig,
}
use webrana_infinimail_backe.Text.{
  drop, length-drop_le, codes, bytes_eq, Bytes, has_suffix, trim_suffix_text, has_suffix-append,
  has_suffix-longer, trim_suffix-append, bytes_eq_refl, has_prefix,
}
use webrana_infinimail_backe.Prelude.{
  List, ◌==◌, ℕ, ◌-◌, ◌⊎◌, subst, sym, false, refl, ◌≡◌, ◌++◌, if◌then◌else◌, arith, true, inl, inr,
  ◌∷◌, length, [], ap, Bool-cases, ◌∙◌,
}

abbrev pub guide_names : DnsGuide → List Bytes
guide_names guide = guide.mx_record.name ∷ guide.a_record.name ∷ guide.txt_record.name ∷ []

relative_name_below : (x d : Bytes) → relative_name (x ++ (codes "." ++ d)) d ≡ x
unfolding relative_name codes
relative_name_below x d =
    subst
      (λ b.
        (if b
          then trim_suffix_text (x ++ (codes "." ++ d)) (codes "." ++ d)
          else if bytes_eq (x ++ (codes "." ++ d)) d
          then codes "@"
          else x ++ (codes "." ++ d))
        ≡ x)
      (sym (has_suffix-append x (codes "." ++ d))) (trim_suffix-append x (codes "." ++ d))

relative_name_self : (d : Bytes) → relative_name d d ≡ codes "@"
unfolding relative_name codes
relative_name_self d = rw (has_suffix-longer d (codes "." ++ d) (omega arith), bytes_eq_refl d) refl

-- a text is longer than what follows its first five bytes
drop-shorter : (d : Bytes) → has_prefix (to_lower d) (codes "mail.") ≡ true → ¬ (drop d 5 ≡ d)
unfolding has_prefix to_lower codes drop
drop-shorter [] h p = cc
drop-shorter (c ∷ d) h p = omega (arith, ap length p, length-drop_le d 4)

-- the three names as they are written, read at an origin
abbrev written_names : DnsGuide → Bytes → Bytes → List Bytes
written_names guide domain origin =
    resolve origin (codes "@")
    ∷ resolve origin (relative_name guide.a_record.name domain)
    ∷ resolve origin (relative_name guide.txt_record.name domain)
    ∷ []

below-written :
    (config : DomainManagerConfig) (d : Domain)
    → has_prefix (to_lower d.name) (codes "mail.") ≡ false
    → written_names (guide_for config d) d.name d.name ≡ guide_names (guide_for config d)
unfolding guide_for get_parent_domain_name get_mail_hostname_name codes resolve bytes_eq has_suffix
    trim_suffix_text
below-written config d h =
    rw
      (
        h,
        relative_name_below (codes "mail") d.name,
        relative_name_below (codes "_infinimail") d.name,
      )
      refl

first_two : (a b c a' b' c' : Bytes) → a ∷ b ∷ c ∷ [] ≡ a' ∷ b' ∷ c' ∷ [] → (a ≡ a') × (b ≡ b')
first_two a b c a' b' c' h = (cc h, cc h)

mail_host-unreadable :
    (config : DomainManagerConfig) (d : Domain) (origin : Bytes)
    → has_prefix (to_lower d.name) (codes "mail.") ≡ true
    → ¬ (written_names (guide_for config d) d.name origin ≡ guide_names (guide_for config d))
unfolding guide_for get_parent_domain_name get_mail_hostname_name codes resolve bytes_eq
mail_host-unreadable config d origin h r =
    let (mx, a) = first_two _ _ _ _ _ _ r in
    drop-shorter d.name h (cc (rw h at mx, rw (h, relative_name_self d.name) at a))

relative-Without :
    (sep : ℕ) (x d : Bytes)
    → (b'@' == sep) ≡ false
    → Without sep x
    → Without sep (relative_name x d)
unfolding relative_name codes
relative-Without sep x d at h = elim (Bool-cases (has_suffix x (codes "." ++ d))) [
  | inl p ↦ rw p (take-Without sep (length x - length (codes "." ++ d)) x h)
  | inr p ↦ elim (Bool-cases (bytes_eq x d)) [ inl q ↦ rw (p, q) (at, tt) | inr q ↦ rw (p, q) h ]
]

relative-Field : (x d : Bytes) → Field x → Field (relative_name x d)
relative-Field x d (tab, feed) =
    (relative-Without 9 x d refl tab, relative-Without 10 x d refl feed)

-- the file of three lines whose names and values are fields
export_bind-names :
    (guide : DnsGuide) (domain origin : Bytes)
    → Field guide.a_record.name
    → Field guide.txt_record.name
    → Without 10 guide.mx_record.value
    → Without 10 guide.a_record.value
    → Without 10 guide.txt_record.value
    → names_in origin (export_bind guide domain) ≡ written_names guide domain origin
unfolding export_bind codes
export_bind-names guide domain origin a txt h h' h'' =
    three_lines-names origin
      (record {
        owner = codes "@";
        ttl = guide.mx_record.ttl;
        kind = codes "MX";
        value = decimal guide.mx_record.priority ++ (9 ∷ []) ++ guide.mx_record.value ++ codes ".";
      })
      (record {
        owner = relative_name guide.a_record.name domain;
        ttl = guide.a_record.ttl;
        kind = codes "A";
        value = guide.a_record.value;
      })
      (record {
        owner = relative_name guide.txt_record.name domain;
        ttl = guide.txt_record.ttl;
        kind = codes "TXT";
        value = (b'"' ∷ []) ++ guide.txt_record.value ++ (b'"' ∷ []);
      })
      (
        ((refl, tt), (refl, tt)),
        (refl, (refl, tt)),
        append-Without 10 (decimal guide.mx_record.priority ++ (9 ∷ []) ++ guide.mx_record.value) _
            (append-Without 10 (decimal guide.mx_record.priority ++ (9 ∷ [])) _
              (append-Without 10 (decimal guide.mx_record.priority) _
                (decimal-Without guide.mx_record.priority) (refl, tt))
              h)
            (refl, tt),
      )
      (relative-Field guide.a_record.name domain a, (refl, tt), h')
      (
        relative-Field guide.txt_record.name domain txt,
        (refl, (refl, (refl, tt))),
        (refl, append-Without 10 guide.txt_record.value _ h'' (refl, tt)),
      )

append-Field : (s t : Bytes) → Field s → Field t → Field (s ++ t)
append-Field s t h h' = (append-Without 9 s t h.0 h'.0, append-Without 10 s t h.1 h'.1)

mail-Field : Field (codes "mail.")
unfolding codes
mail-Field =
    ((refl, (refl, (refl, (refl, (refl, tt))))), (refl, (refl, (refl, (refl, (refl, tt))))))

infinimail-Field : Field (codes "_infinimail.")
unfolding codes
infinimail-Field = (
  (
    refl,
    (refl, (refl, (refl, (refl, (refl, (refl, (refl, (refl, (refl, (refl, (refl, tt))))))))))),
  ),
  (
    refl,
    (refl, (refl, (refl, (refl, (refl, (refl, (refl, (refl, (refl, (refl, (refl, tt))))))))))),
  ),
)

guide-Fields :
    (config : DomainManagerConfig) (d : Domain)
    → Field d.name
    → Field (guide_for config d).a_record.name × Field (guide_for config d).txt_record.name
unfolding guide_for get_parent_domain_name get_mail_hostname_name
guide-Fields config d h = elim (Bool-cases (has_prefix (to_lower d.name) (codes "mail."))) [
  | inl p ↦ rw p (
    h,
    append-Field (codes "_infinimail.") (drop d.name 5) infinimail-Field
        (drop-Without 9 5 d.name h.0, drop-Without 10 5 d.name h.1),
  )
  | inr p ↦ rw p (
    append-Field (codes "mail.") d.name mail-Field h,
    append-Field (codes "_infinimail.") d.name infinimail-Field h,
  )
]

guide_file-names :
    (config : DomainManagerConfig) (d : Domain) (origin : Bytes)
    → Field d.name
    → Without 10 config.smtp_hostname
    → Without 10 config.server_ip
    → Without 10 d.dns_challenge
    → names_in origin (export_bind (guide_for config d) d.name)
      ≡ written_names (guide_for config d) d.name origin
unfolding guide_for codes
guide_file-names config d origin name host ip challenge =
    let fields = guide-Fields config d name in
    export_bind-names (guide_for config d) d.name origin fields.0 fields.1 host ip (
      append-Without 10 (codes "infinimail-verify=") d.dns_challenge
        (
          refl,
          (
            refl,
            (
              refl,
              (
                refl,
                (
                  refl,
                  (
                    refl,
                    (
                      refl,
                      (
                        refl,
                        (
                          refl,
                          (
                            refl,
                            (refl, (refl, (refl, (refl, (refl, (refl, (refl, (refl, tt)))))))),
                          ),
                        ),
                      ),
                    ),
                  ),
                ),
              ),
            ),
          ),
        )
        challenge)

-- When the domain's name has no tab and no line feed, and the server's name and address and the
-- domain's challenge no line feed, the names of the lines of the zone file that is written of the
-- domain's guide are read: the domain's name does not start with "mail.", in any case of letters,
-- and they are, at the domain's name, the names of the guide's three records in their order, or it
-- starts so and there is no origin at which they are.
pub export_bind-Readable :
    (config : DomainManagerConfig) (d : Domain)
    → Field d.name
    → Without 10 config.smtp_hostname
    → Without 10 config.server_ip
    → Without 10 d.dns_challenge
    → ((has_prefix (to_lower d.name) (codes "mail.") ≡ false)
        × (names_in d.name (export_bind (guide_for config d) d.name)
            ≡ guide_names (guide_for config d)))
      ⊎ ((has_prefix (to_lower d.name) (codes "mail.") ≡ true)
          × ((origin : Bytes)
              → ¬ (
                  names_in origin (export_bind (guide_for config d) d.name)
                  ≡ guide_names (guide_for config d))))
export_bind-Readable config d name host ip challenge =
    elim (Bool-cases (has_prefix (to_lower d.name) (codes "mail."))) [
      | inl h ↦ inr (
        h,
        λ origin same.
            mail_host-unreadable config d origin h
              (sym (guide_file-names config d origin name host ip challenge) ∙ same),
      )
      | inr h ↦
          inl
            (h, guide_file-names config d d.name name host ip challenge ∙ below-written config d h)
    ]
