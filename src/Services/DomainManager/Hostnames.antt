-- ===== src/Services/DomainManager/Hostnames.antt =====
-- The two hostname helpers of domain_manager.go and dns_verifier.go.
use webrana_infinimail_backe.Text.Case.{to_lower}
use webrana_infinimail_backe.Services.DomainManager.{get_parent_domain_name, get_mail_hostname_name}
use webrana_infinimail_backe.Text.{codes, Bytes, has_prefix}
use webrana_infinimail_backe.Prelude.{true, inl, inr, ◌≡◌, Bool-cases}

-- For every domain name: the mail hostname has the parent domain that the name itself has.
pub parent-mail_hostname :
    (d : Bytes) → get_parent_domain_name (get_mail_hostname_name d) ≡ get_parent_domain_name d
unfolding get_parent_domain_name get_mail_hostname_name
parent-mail_hostname d = elim (Bool-cases (has_prefix (to_lower d) (codes "mail."))) [
  | inl p ↦ rw p (rw p)
  | inr p ↦ rw p
]

-- The mail hostname starts with "mail.", in any case of letters, and taking it again changes nothing.
pub mail_hostname_stable :
    (d : Bytes)
    → (has_prefix (to_lower (get_mail_hostname_name d)) (codes "mail.") ≡ true)
      × (get_mail_hostname_name (get_mail_hostname_name d) ≡ get_mail_hostname_name d)
unfolding get_mail_hostname_name
mail_hostname_stable d = elim (Bool-cases (has_prefix (to_lower d) (codes "mail."))) [
  | inl p ↦ (rw p p, rw p (rw p))
  | inr p ↦ (rw p, rw p)
]
