-- ===== src/Tests/Domains.antt =====
-- The domain manager and the domain repository on the world of one domain.
use webrana_infinimail_backe.Services.DomainManager.Status.{activated, activate_domain_atomic}
use webrana_infinimail_backe.Tests.World.{
  row, domain_manager, World, world_in, domain_laws, one_row, find,
}
use webrana_infinimail_backe.Text.{Bytes, codes}
use webrana_infinimail_backe.Repository.Domains.{domain_repository}
use webrana_infinimail_backe.Services.DomainManager.Creation.{CreateLaw, new_domain}
use webrana_infinimail_backe.Models.{Domain, certificate_issued, pending_dns}
use webrana_infinimail_backe.Services.DomainManager.{activate_domain, create_domain}
use webrana_infinimail_backe.Repository.Laws.{PutRow, SameRows}
use webrana_infinimail_backe.Effect.{ok, Result, IsErr}
use webrana_infinimail_backe.Prelude.{[], some, refl, ◌∷◌, ◌≡◌, ◌⊎◌}

-- The certificate is issued, so the domain is activated.
activate_domain_issued : (activate_domain domain_manager 1 (world_in certificate_issued)).0 ≡ ok tt
unfolding activate_domain domain_repository one_row find
activate_domain_issued = refl

activate_domain_atomic_example :
    ((d : Domain) × ((activate_domain domain_manager 1 (world_in certificate_issued)).0 ≡ ok tt)
      × (row (world_in certificate_issued) 1 ≡ some d)
      × (d.status ≡ certificate_issued)
      × PutRow row 1
          (activated d)
          (world_in certificate_issued)
          (activate_domain domain_manager 1 (world_in certificate_issued)).1)
    ⊎ (IsErr (activate_domain domain_manager 1 (world_in certificate_issued)).0
        × SameRows row
            (world_in certificate_issued)
            (activate_domain domain_manager 1 (world_in certificate_issued)).1)
activate_domain_atomic_example =
    activate_domain_atomic domain_manager row domain_laws (world_in certificate_issued) 1

abbrev two_bytes : Bytes
two_bytes = 171 ∷ 7 ∷ []

create-CreateLaw : CreateLaw domain_manager.repo.create
unfolding domain_repository
create-CreateLaw w w' d r h = cc h

abbrev created : Result Domain × World
created = create_domain domain_manager (codes " A.Test ") (world_in pending_dns)

abbrev created_domain : Domain
created_domain = new_domain 7 (codes "a.test") (codes "ab07")

create_domain_runs : created ≡ (ok created_domain, created.1)
unfolding create_domain domain_repository
create_domain_runs = refl
