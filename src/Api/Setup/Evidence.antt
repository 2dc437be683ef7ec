-- ===== src/Api/Setup/Evidence.antt =====
-- What the rows owe to the name servers: `VerifyDNS` of internal/api/handlers/domain_handler.go
-- over the DNS verifier and the domain manager.
use webrana_infinimail_backe.Api.Setup.Outcomes.{Outcome, Outcome-after}
use webrana_infinimail_backe.Text.Decimal.{parse_uint32}
use mathlib.Core.Option.{some-injective}
use webrana_infinimail_backe.Api.{
  respond, Response, success, calling, dns_body, Handler, internal_error, with_id, require, given,
  bad_request,
}
use webrana_infinimail_backe.Effect.{Err, Action, error_text}
use webrana_infinimail_backe.Api.Setup.Rows.{status-written}
use webrana_infinimail_backe.Effect.Rules.{Keeps, outcome_cases}
use webrana_infinimail_backe.Services.DnsVerifier.Verdict.{Sound, verify_dns-Sound}
use webrana_infinimail_backe.Services.DnsVerifier.Frames.{KeepsAsking, verify_dns-Keeps}
use webrana_infinimail_backe.Api.Setup.{
  can_verify_dns, store_verdict, generate_missing_challenge, verify_found, verify_dns_handler,
}
use webrana_infinimail_backe.Repository.Laws.{
  SameRows, RowLaws, PutRow, SameRows-PutRow, get_cases, update_cases, PutRow-SameRows,
  SameRows-preorder,
}
use webrana_infinimail_backe.Text.{Bytes, is_empty, codes}
use webrana_infinimail_backe.Models.{status_eq, Domain, pending_dns, dns_verified}
use webrana_infinimail_backe.Services.DomainManager.{
  DomainManager, generate_challenge_for_legacy_domain, generate_challenge_token, hex_encode,
  update_status,
}
use webrana_infinimail_backe.Api.Domains.{DomainHandler, find_domain}
use webrana_infinimail_backe.Services.DnsVerifier.{DnsVerifier, DnsVerificationResult, verify_dns}
use webrana_infinimail_backe.Prelude.{
  [], true, some, inl, inr, refl, ℕ, Option, ◌≡◌, ◌⊎◌, ◌∙◌, sym, Bool-cases, false, Bool, ◌&&◌,
  subst, if◌then◌else◌, ◌++◌, Option-cases,
}

all_true : (a b c r : Bool) → r ≡ (a && b && c) → r ≡ true → (a ≡ true) × (b ≡ true) × (c ≡ true)
all_true true true true r p q = (refl, refl, refl)
all_true true true false r p q = cc (p, q)
all_true true false c r p q = cc (p, q)
all_true false b c r p q = cc (p, q)

module _ {W : Type 0} (h : DomainHandler W) (manager : DomainManager W) (s : DnsVerifier W)
    (row : W → ℕ → Option Domain)
    (reads_laws : RowLaws (λ (d : Domain). d.id) row h.repo.get_by_id h.repo.update)
    (manager_laws : RowLaws (λ (d : Domain). d.id) row manager.repo.get_by_id manager.repo.update)
    (asking : KeepsAsking s (SameRows row)) (random : Keeps (SameRows row) manager.rand_read) where
  store-Outcome :
      (i : ℕ) (d : Domain) (r : DnsVerificationResult) (w : W)
      → row w i ≡ some d
      → can_verify_dns d ≡ true
      → Sound s d r
      → Outcome s row w (store_verdict h manager i r w).1
  unfolding store_verdict status_eq
  store-Outcome i d r w found allowed sound =
      let write : Handler W =
        calling (update_status manager i dns_verified [])
          (λ e. internal_error (codes "failed to update domain status"))
          (λ _. respond (success (dns_body r))) in
      let keep : Handler W = respond (success (dns_body r)) in
      elim (Bool-cases r.all_verified) [
        | inr off ↦
            subst (λ b. Outcome s row w ((if b then write else keep) w).1) (sym off)
              (inl (λ j. refl))
        | inl on ↦
            let (mx, a, txt) = all_true _ _ _ _ sound.conjunction on in
            subst (λ b. Outcome s row w ((if b then write else keep) w).1) (sym on)
              (elim (status-written manager row manager_laws i d dns_verified _ keep w (λ v j. refl)
                found) [
                  | inl same ↦ inl same
                  | inr put ↦ inr (
                      inl (record {
                        id = i;
                        before = d;
                        found = found;
                        allowed = allowed;
                        mx = sound.mx mx;
                        a = sound.a a;
                        txt = sound.txt txt;
                        written = put;
                      }))
                ])
      ]

  -- The row that a token is put into, and nothing else, changes.
  generate-rows :
      (i : ℕ) (d : Domain) (w : W)
      → row w i ≡ some d
      → is_empty d.dns_challenge ≡ true
      → SameRows row w (generate_challenge_for_legacy_domain manager i w).1
        ⊎ ((token : Bytes) × PutRow row i
              (record d { dns_challenge = token; status = pending_dns })
              w
              (generate_challenge_for_legacy_domain manager i w).1)
  unfolding generate_challenge_for_legacy_domain generate_challenge_token
  generate-rows i d w found empty = elim (get_cases manager_laws w i) [
    | inr (e, v, p, same) ↦ rw p (inl same)
    | inl (d', v, p, found', keyed, same) ↦
        let same_row : d ≡ d' = some-injective d d' (sym found ∙ found') in
        let empty' : is_empty d'.dns_challenge ≡ true = rw same_row at empty in
        rw (p, empty', same_row)
          (elim (outcome_cases manager.rand_read v) [
            | inr (e, u, q) ↦ rw q (inl (λ j. (rw q at (random.at v)) j ∙ same j))
            | inl (bytes, u, q) ↦
                let quiet : SameRows row w u = λ j. (rw q at (random.at v)) j ∙ same j in
                let r : Domain = record d' {
                  dns_challenge = hex_encode bytes;
                  status = pending_dns;
                } in
                rw q (elim (update_cases manager_laws u i r keyed) [
                  | inl (x, g, put) ↦
                      rw g (inr (hex_encode bytes, SameRows-PutRow row w u x i r quiet put))
                  | inr (e, x, g, kept) ↦ rw g (inl (λ j. kept j ∙ quiet j))
                ])
          ])
  ]

  after_quiet :
      (m : Action W (Unit {0})) (g : Err → Response) (k : Handler W) (w : W)
      → ((v : W) → SameRows row v (k v).1)
      → SameRows row (m w).1 (calling m g (λ _. k) w).1
  after_quiet m g k w quiet = elim (outcome_cases m w) [
    | inl (_, v, p) ↦ rw p (quiet v)
    | inr (e, v, p) ↦ rw p (λ j. refl)
  ]

  reading_same :
      (i : ℕ) (g : Err → Response) (f : Domain → Response) (w : W)
      → SameRows row w (calling (h.repo.get_by_id i) g (λ d. respond (f d)) w).1
  reading_same i g f w = elim (get_cases reads_laws w i) [
    | inl (d, v, p, found, keyed, same) ↦ rw p same
    | inr (e, v, p, same) ↦ rw p same
  ]

  generated-Outcome :
      (i : ℕ) (d : Domain) (g g' : Err → Response) (f : Domain → Response) (w : W)
      → row w i ≡ some d
      → can_verify_dns d ≡ true
      → is_empty d.dns_challenge ≡ true
      → Outcome s row w
          (calling
            (generate_challenge_for_legacy_domain manager i)
            g
            (λ _. calling (h.repo.get_by_id i) g' (λ d. respond (f d)))
            w).1
  generated-Outcome i d g g' f w found allowed empty =
      let m : Action W (Unit {0}) = generate_challenge_for_legacy_domain manager i in
      let k : Handler W = calling (h.repo.get_by_id i) g' (λ d. respond (f d)) in
      let quiet : SameRows row (m w).1 (calling m g (λ _. k) w).1 =
        after_quiet m g k w (reading_same i g' f) in
      elim (generate-rows i d w found empty) [
        | inl same ↦ inl (λ j. quiet j ∙ same j)
        | inr (token, put) ↦ inr (
            inr (record {
              id = i;
              before = d;
              token = token;
              found = found;
              allowed = allowed;
              without_token = empty;
              written =
                  PutRow-SameRows row w (m w).1 (calling m g (λ _. k) w).1 i
                    (record d { dns_challenge = token; status = pending_dns }) put quiet;
            }))
      ]

  token-Outcome :
      (i : ℕ) (d : Domain) (w : W)
      → row w i ≡ some d
      → can_verify_dns d ≡ true
      → is_empty d.dns_challenge ≡ true
      → Outcome s row w (generate_missing_challenge h manager i w).1
  unfolding generate_missing_challenge
  token-Outcome i d w found allowed empty = generated-Outcome i d _ _ _ w found allowed empty

  verified-Outcome :
      (i : ℕ) (d : Domain) (g : Err → Response) (w : W)
      → row w i ≡ some d
      → can_verify_dns d ≡ true
      → Outcome s row w (calling (verify_dns s d) g (store_verdict h manager i) w).1
  verified-Outcome i d g w found allowed =
      let kept : SameRows row w (verify_dns s d w).1 =
        (verify_dns-Keeps s (SameRows row) (SameRows-preorder row) asking d).at w in
      let (r, q, sound) = verify_dns-Sound s d w in
      elim (outcome_cases (verify_dns s d) w) [
        | inl (r', v, p) ↦
            let same_result : r ≡ r' = cc (q, p) in
            let same : SameRows row w v = rw p at kept in
            rw p (
              Outcome-after s row w v _ same (
                store-Outcome i d r' v (same i ∙ found) allowed
                  (subst (Sound s d) same_result sound)))
        | inr (e, v, p) ↦ rw p (inl (rw p at kept))
      ]

  found-Outcome :
      (i : ℕ) (d : Domain) (w : W)
      → row w i ≡ some d
      → can_verify_dns d ≡ true
      → Outcome s row w (verify_found h manager s i d w).1
  unfolding verify_found
  found-Outcome i d w found allowed =
      let g : Err → Response =
        λ e. internal_error (codes "DNS verification failed: " ++ error_text e) in
      let missing : Handler W = generate_missing_challenge h manager i in
      let check : Handler W = calling (verify_dns s d) g (store_verdict h manager i) in
      elim (Bool-cases (is_empty d.dns_challenge)) [
        | inl empty ↦
            subst (λ b. Outcome s row w ((if b then missing else check) w).1) (sym empty)
              (token-Outcome i d w found allowed empty)
        | inr filled ↦
            subst (λ b. Outcome s row w ((if b then missing else check) w).1) (sym filled)
              (verified-Outcome i d g w found allowed)
      ]

  check : DomainManager W → DnsVerifier W → ℕ → Handler W
  check m v i = find_domain h i λ d.
      require (can_verify_dns d)
        (bad_request (codes "domain must be in pending_dns or failed status to verify DNS"))
        (verify_found h m v i d)

  checked-Outcome : (i : ℕ) (w : W) → Outcome s row w (check manager s i w).1
  unfolding check find_domain
  checked-Outcome i w = elim (get_cases reads_laws w i) [
    | inr (e, v, p, same) ↦ rw p (inl same)
    | inl (d, v, p, found, keyed, same) ↦ rw p (
        Outcome-after s row w v _ same (elim (Bool-cases (can_verify_dns d)) [
          | inl allowed ↦ rw allowed (found-Outcome i d v (same i ∙ found) allowed)
          | inr refused ↦ rw refused (inl (λ j. refl))
        ]))
  ]

  -- If the two repositories read and write the same rows as gorm documents, and asking the
  -- resolver and drawing random bytes change no row, `VerifyDNS` leaves every row as it was, or it
  -- writes the row of one domain that may verify its DNS, and no other: its status was
  -- `pending_dns`, `failed` or empty, or it was active with a status other than `active`. Either
  -- the domain had no token, and it gets one and the status `pending_dns`, the other fields
  -- staying, also the message of a failed domain; or it gets the status `dns_verified` and no
  -- error message, the other fields staying, and the resolver has answered, each time in some
  -- state of the world, with the MX record of the server's host for the domain, the address of the
  -- server for its mail host, and the domain's own token.
  pub verify_dns_handler-Outcome :
      h.domain_manager ≡ some manager
      → h.dns_verifier ≡ some s
      → (param : Bytes) (w : W) → Outcome s row w (verify_dns_handler h param w).1
  unfolding verify_dns_handler with_id check
  verify_dns_handler-Outcome with_manager with_verifier param w =
      let text : Bytes = codes "domain manager or DNS verifier not configured" in
      subst
        (λ o.
          Outcome s row w
            (given o (internal_error text)
              (λ m. given h.dns_verifier (internal_error text) (λ v. with_id param (check m v)))
              w).1)
        (sym with_manager)
        (subst
          (λ o.
            Outcome s row w
              (given o (internal_error text) (λ v. with_id param (check manager v)) w).1)
          (sym with_verifier)
          (elim (Option-cases (parse_uint32 param)) [
            | inl e ↦ rw e (inl (λ j. refl))
            | inr (i, e) ↦ rw e (checked-Outcome i w)
          ]))
