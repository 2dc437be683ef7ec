-- ===== src/Services/Acme/Orders.antt =====
-- The orders and challenges that the client of internal/services/acme_client.go keeps in memory, and
-- what the certificate manager meets when they are lost.
use webrana_infinimail_backe.Services.{CertificateBundle}
use webrana_infinimail_backe.Dict.{get, delete_key, get-delete}
use webrana_infinimail_backe.Text.{Bytes, bytes_eq, bytes_eq_refl, is_empty, codes}
use webrana_infinimail_backe.Effect.{Action, ok, Result, err, on_error, Err, message}
use webrana_infinimail_backe.Effect.Rules.{
  IsPreorder, Keeps, keeps_rules, outcome_cases, or_wrap-ok,
}
use webrana_infinimail_backe.Services.Acme.{
  Client, AcmeLibrary, issue_order, lifted, create_csr, Order, finalize, register_account,
  find_account, ensure_account, request_with_order, request_certificate, complete_dns_challenge,
}
use webrana_infinimail_backe.Prelude.{
  false, none, some, refl, ◌≡◌, ◌∙◌, List, inl, inr, subst, ap, [], ◌∷◌, if◌then◌else◌, Option,
  Option-cases, ◌++◌,
}

-- The account, the orders and the challenges are the same.
abbrev SameBook : {W : Type 0} → Client W → Client W → Type 0
SameBook u v =
    (v.account ≡ u.account)
    × (v.active_orders ≡ u.active_orders)
    × (v.active_challenges ≡ u.active_challenges)

SameBook-preorder : {W : Type 0} → IsPreorder (SameBook {W = W})
SameBook-preorder = record {
  reflexive = λ w. (refl, refl, refl);
  transitive = λ u v w p q. (q.0 ∙ p.0, q.1 ∙ p.1, q.2 ∙ p.2);
}

lifted-SameBook : {W A : Type 0} (m : Action W A) → Keeps SameBook (lifted m)
lifted-SameBook m = record { at = λ s. (refl, refl, refl) }

-- Has an account, after anything that had or got one.
abbrev HasAccount : {W : Type 0} → Client W → Type 0
HasAccount {W} s = (a : Bytes) × (s.account ≡ some a)

-- The domain has no order and no challenge any more; the others have what they had.
pub record Forgot {W : Type 0} (domain : Bytes) (s s' : Client W) : Type 0 where
  pub no_order : get domain s'.active_orders ≡ none
  pub no_challenge : get domain s'.active_challenges ≡ none
  pub other_orders :
      (n : Bytes) → bytes_eq domain n ≡ false → get n s'.active_orders ≡ get n s.active_orders
  pub other_challenges :
      (n : Bytes)
      → bytes_eq domain n ≡ false
      → get n s'.active_challenges ≡ get n s.active_challenges

module _ {W : Type 0} (lib : AcmeLibrary W) (email : Bytes) where
  issue-SameBook :
      (primary : Bytes) (others : List Bytes) (order : Order)
      → Keeps SameBook (issue_order lib email primary others order)
  unfolding issue_order create_csr
  issue-SameBook primary others order =
      search (keeps_rules, lifted-SameBook, SameBook-preorder) depth 16

  finalize-Forgot :
      (primary : Bytes) (others : List Bytes) (order : Order) (s s' : Client W)
      (b : CertificateBundle)
      → finalize lib email primary others order s ≡ (ok b, s')
      → (s'.account ≡ s.account) × Forgot primary s s'
  unfolding finalize
  finalize-Forgot primary others order s s' b h =
      elim (outcome_cases (issue_order lib email primary others order) s) [
        | inr (e, t, p) ↦ cc (rw p at h)
        | inl (made, t, p) ↦
            let same : SameBook s t =
              subst (λ (x : Result (Bytes × List Bytes) × Client W). SameBook s x.1) p
                ((issue-SameBook primary others order).at s) in
            let last : s' ≡ record t {
              active_orders = delete_key primary t.active_orders;
              active_challenges = delete_key primary t.active_challenges;
            } =
              cc (rw p at h) in
            rw last (
              same.0,
              record {
                no_order =
                    get-delete primary t.active_orders primary ∙ rw (bytes_eq_refl primary) refl;
                no_challenge =
                    get-delete primary t.active_challenges primary
                    ∙ rw (bytes_eq_refl primary) refl;
                other_orders =
                    λ n ne. get-delete primary t.active_orders n ∙ rw ne (ap (get n) same.1);
                other_challenges =
                    λ n ne. get-delete primary t.active_challenges n ∙ rw ne (ap (get n) same.2);
              },
            )
      ]

  -- the account that is registered or that exists
  obtain_account : Action (Client W) Bytes
  unfolding find_account
  obtain_account =
      on_error
        (lifted (lib.register (if is_empty email then [] else (codes "mailto:" ++ email) ∷ [])))
        (find_account lib email)

  obtain-SameBook : Keeps SameBook obtain_account
  unfolding obtain_account find_account
  obtain-SameBook = search (keeps_rules, lifted-SameBook, SameBook-preorder) depth 16

  -- Once there is an account, the orders and challenges are still the same.
  record Registered (s s' : Client W) : Type 0 where
    has : HasAccount s'
    orders : s'.active_orders ≡ s.active_orders
    challenges : s'.active_challenges ≡ s.active_challenges

  register-Registered :
      (s s' : Client W) → register_account lib email s ≡ (ok tt, s') → Registered s s'
  unfolding register_account obtain_account
  register-Registered s s' h = elim (outcome_cases obtain_account s) [
    | inr (e, t, p) ↦ cc (rw p at h)
    | inl (a, t, p) ↦
        let same : SameBook s t =
          subst (λ (x : Result Bytes × Client W). SameBook s x.1) p (obtain-SameBook.at s) in
        let last : s' ≡ record t { account = some a } = cc (rw p at h) in
        rw last (record { has = (a, refl); orders = same.1; challenges = same.2 })
  ]

  ensure-Registered :
      (account : Option Bytes) (s s' : Client W)
      → s.account ≡ account
      → ensure_account lib email account s ≡ (ok tt, s')
      → Registered s s'
  unfolding ensure_account
  ensure-Registered none s s' e h =
      register-Registered s s'
        (or_wrap-ok (register_account lib email) "failed to register account" h)
  ensure-Registered (some a) s s' e h =
      let same : s ≡ s' = cc h in
      subst (λ (t : Client W). Registered s t) same
        (record { has = (a, e); orders = refl; challenges = refl })

  with_order-Forgot :
      (domain : Bytes) (others : List Bytes) (s s' : Client W) (b : CertificateBundle)
      → request_with_order lib email domain others s ≡ (ok b, s')
      → (s'.account ≡ s.account) × Forgot domain s s'
  unfolding request_with_order
  with_order-Forgot domain others s s' b h = elim (Option-cases (get domain s.active_orders)) [
    | inl absent ↦ cc (rw absent at h)
    | inr (order, found) ↦ finalize-Forgot domain others order s s' b (rw found at h)
  ]

  -- a request for a domain without an order, when there is an account
  request_without_order :
      (domain : Bytes) (names : List Bytes) (s : Client W)
      → HasAccount s
      → get domain s.active_orders ≡ none
      → (e : Err) × (request_certificate lib email (domain ∷ names) s ≡ (err e, s))
  unfolding request_certificate ensure_account request_with_order
  request_without_order domain names s (a, has) absent = (
    message (
        codes "no active order found for domain "
        ++ domain
        ++ codes ", call GetDNSChallenge first"),
    rw (has, absent) refl,
  )

  -- Without a stored challenge, it is not completed, and nothing is asked of the ACME server.
  pub complete_without_challenge :
      (domain : Bytes) (s : Client W)
      → get domain s.active_challenges ≡ none
      → (e : Err) × (complete_dns_challenge lib email domain s ≡ (err e, s))
  unfolding complete_dns_challenge
  complete_without_challenge domain s absent =
      (message (codes "no active challenge found for domain " ++ domain), rw absent refl)

  -- After `RequestCertificate` has returned a certificate, the client has no order and no challenge
  -- for the first domain, and those of every other domain are what they were; without a new
  -- `GetDNSChallenge`, neither `RequestCertificate` nor `CompleteDNSChallenge` succeeds again for
  -- the domain, and they change nothing.
  pub request_certificate-once :
      (domain : Bytes) (others : List Bytes) (s s' : Client W) (b : CertificateBundle)
      → request_certificate lib email (domain ∷ others) s ≡ (ok b, s')
      → Forgot domain s s'
        × ((names : List Bytes)
            → (e : Err) × (request_certificate lib email (domain ∷ names) s' ≡ (err e, s')))
        × ((e : Err) × (complete_dns_challenge lib email domain s' ≡ (err e, s')))
  unfolding request_certificate
  request_certificate-once domain others s s' b h =
      elim (outcome_cases (ensure_account lib email s.account) s) [
        | inr (e, t, p) ↦ cc (rw p at h)
        | inl (u, t, p) ↦
            let r : Registered s t = ensure-Registered s.account s t refl p in
            let (kept, f) = with_order-Forgot domain others t s' b (rw p at h) in
            (
              record {
                no_order = f.no_order;
                no_challenge = f.no_challenge;
                other_orders = λ n ne. f.other_orders n ne ∙ ap (get n) r.orders;
                other_challenges = λ n ne. f.other_challenges n ne ∙ ap (get n) r.challenges;
              },
              λ names. request_without_order domain names s' (r.has.0, kept ∙ r.has.1) f.no_order,
              complete_without_challenge domain s' f.no_challenge,
            )
      ]
