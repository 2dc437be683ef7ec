-- ===== src/Services/DnsVerifier/Verdict.antt =====
-- What `VerifyDNS` of internal/services/dns_verifier.go tells.

use webrana_infinimail_backe.Services.DnsVerifier.Retry.{rounds-true}
use webrana_infinimail_backe.Effect.Rules.{bind_case, or_else-ok}
use webrana_infinimail_backe.Text.Trim.{trim_space}
use webrana_infinimail_backe.Models.{Domain}
use webrana_infinimail_backe.Text.{Bytes, codes, bytes_eq, bytes_eq_sound, is_empty}
use webrana_infinimail_backe.Services.DnsVerifier.{
  some_matches, judge, DnsVerifier, judged, verify_mx_record, verify_a_record, verify_txt_record,
  is_verified, verify_with_retry, verify_dns, DnsVerificationResult, normal_host, txt_domain,
  get_parent_domain, txt_value, get_mail_hostname, verdict,
}
use webrana_infinimail_backe.Effect.{ok, err, Action, Result, guard, or_else, wrap}
use webrana_infinimail_backe.Prelude.{
  suc, [], true, false, none, inl, inr, refl, ◌∷◌, List, ◌≡◌, Bool, Some, ap, ◌&&◌, Bool-cases,
  ◌++◌, not,
}

some_matches-Some :
    (normal : Bytes → Bytes) (expected : Bytes) (rs : List Bytes)
    → some_matches normal expected rs ≡ true
    → Some (λ r. normal r ≡ expected) rs
unfolding some_matches
some_matches-Some normal expected [] h = cc h
some_matches-Some normal expected (r ∷ rs) h = elim (Bool-cases (bytes_eq (normal r) expected)) [
  | inl e ↦ inl (bytes_eq_sound (normal r) expected e)
  | inr e ↦ inr (some_matches-Some normal expected rs (rw e at h))
]

judged-true :
    {W : Type 0} (w w' : W) (found : Bool) (a b : Bytes) (rs : List Bytes)
    → judged (judge found a b rs) w ≡ (ok true, w')
    → found ≡ true
unfolding judge judged
judged-true w w' found a b [] h = cc h
judged-true w w' true a b (r ∷ rs) h = refl
judged-true w w' false a b (r ∷ rs) h = cc h

module _ {W : Type 0} where
  -- A lookup that found a record which, once normalised, is the expected one.
  pub record Saw (lookup : Bytes → Action W (List Bytes)) (name : Bytes) (normal : Bytes → Bytes)
      (expected : Bytes) : Type 0 where
    pub before : W
    pub after : W
    pub records : List Bytes
    pub answered : lookup name before ≡ (ok records, after)
    pub matches : Some (λ r. normal r ≡ expected) records

module _ {W : Type 0} (s : DnsVerifier W) where
  verify_mx-Saw :
      (name host : Bytes) (w w' : W)
      → verify_mx_record s name host w ≡ (ok true, w')
      → Saw s.resolver.lookup_mx name normal_host (normal_host host)
  unfolding verify_mx_record
  verify_mx-Saw name host w w' h = bind_case (guard (not (is_empty name)) _) _ h (λ _ w0 g1 h.
      bind_case (guard (not (is_empty host)) _) _ h (λ _ w1 g2 h.
        bind_case
          (or_else (s.resolver.lookup_mx name) (wrap (codes "MX lookup failed for " ++ name))) _ h
          (λ rs w2 g3 h. record {
            before = w1;
            after = w2;
            records = rs;
            answered = or_else-ok (s.resolver.lookup_mx name) _ g3;
            matches =
                some_matches-Some normal_host (normal_host host) rs (judged-true _ _ _ _ _ rs h);
          })))

  verify_a-Saw :
      (name ip : Bytes) (w w' : W)
      → verify_a_record s name ip w ≡ (ok true, w')
      → Saw s.resolver.lookup_host name trim_space (trim_space ip)
  unfolding verify_a_record
  verify_a-Saw name ip w w' h = bind_case (guard (not (is_empty name)) _) _ h (λ _ w0 g1 h.
      bind_case (guard (not (is_empty ip)) _) _ h (λ _ w1 g2 h.
        bind_case
          (or_else (s.resolver.lookup_host name)
            (wrap (codes "A record lookup failed for " ++ name)))
          _ h
          (λ rs w2 g3 h. record {
            before = w1;
            after = w2;
            records = rs;
            answered = or_else-ok (s.resolver.lookup_host name) _ g3;
            matches = some_matches-Some trim_space (trim_space ip) rs (judged-true _ _ _ _ _ rs h);
          })))

  verify_txt-Saw :
      (name token : Bytes) (w w' : W)
      → verify_txt_record s name token w ≡ (ok true, w')
      → Saw s.resolver.lookup_txt (txt_domain name) trim_space (txt_value token)
  unfolding verify_txt_record
  verify_txt-Saw name token w w' h = bind_case (guard (not (is_empty name)) _) _ h (λ _ w0 g1 h.
      bind_case (guard (not (is_empty token)) _) _ h (λ _ w1 g2 h.
        bind_case
          (or_else (s.resolver.lookup_txt (txt_domain name))
            (wrap (codes "TXT lookup failed for " ++ (txt_domain name))))
          _ h
          (λ rs w2 g3 h. record {
            before = w1;
            after = w2;
            records = rs;
            answered = or_else-ok (s.resolver.lookup_txt (txt_domain name)) _ g3;
            matches =
                some_matches-Some trim_space (txt_value token) rs (judged-true _ _ _ _ _ rs h);
          })))

  -- What a result says: each flag is on only if a lookup of its records found the expected one,
  -- the fourth is on exactly if the three are, and then there are no errors.
  pub record Sound (domain : Domain) (r : DnsVerificationResult) : Type 0 where
    pub mx :
        r.mx_verified ≡ true
        → Saw s.resolver.lookup_mx
            (get_parent_domain domain.name)
            normal_host
            (normal_host s.smtp_hostname)
    pub a :
        r.a_verified ≡ true
        → Saw s.resolver.lookup_host
            (get_mail_hostname domain.name)
            trim_space
            (trim_space s.server_ip)
    pub txt :
        r.txt_verified ≡ true
        → Saw s.resolver.lookup_txt
            (txt_domain (get_parent_domain domain.name))
            trim_space
            (txt_value domain.dns_challenge)
    pub conjunction : r.all_verified ≡ (r.mx_verified && r.a_verified && r.txt_verified)
    pub no_errors : r.all_verified ≡ true → r.errors ≡ []

  with_first : (m : Result Bool × W) (r : Result Bool) → m.0 ≡ r → m ≡ (r, m.1)
  with_first (r', v) r h = ap (λ x. (x, v)) h

  retried :
      (verify : Action W Bool) (w : W)
      → (verify_with_retry s verify w).0 ≡ ok true
      → (v : W) × (v' : W) × (verify v ≡ (ok true, v'))
  unfolding verify_with_retry
  retried verify w h =
      rounds-true s verify (suc s.max_retries) none w (verify_with_retry s verify w).1
        (with_first (verify_with_retry s verify w) (ok true) h)

  is_verified-ok : (r : Result Bool) → is_verified r ≡ true → r ≡ ok true
  unfolding is_verified
  is_verified-ok (ok b) h = ap ok h
  is_verified-ok (err e) h = cc h

  quiet :
      (mx a txt : Result Bool)
      → (verdict mx a txt).all_verified ≡ true
      → (verdict mx a txt).errors ≡ []
  unfolding verdict
  quiet (ok b) (ok c) (ok d) h = refl
  quiet (ok true) (ok true) (err e) h = cc h
  quiet (ok true) (ok false) (err e) h = cc h
  quiet (ok false) (ok c) (err e) h = cc h
  quiet (ok true) (err e) t h = cc h
  quiet (ok false) (err e) t h = cc h
  quiet (err e) a t h = cc h

  verdict-Sound :
      (domain : Domain) (mx a txt : Result Bool)
      → (mx ≡ ok true
          → Saw s.resolver.lookup_mx
              (get_parent_domain domain.name)
              normal_host
              (normal_host s.smtp_hostname))
      → (a ≡ ok true
          → Saw s.resolver.lookup_host
              (get_mail_hostname domain.name)
              trim_space
              (trim_space s.server_ip))
      → (txt ≡ ok true
          → Saw s.resolver.lookup_txt
              (txt_domain (get_parent_domain domain.name))
              trim_space
              (txt_value domain.dns_challenge))
      → Sound domain (verdict mx a txt)
  unfolding verdict
  verdict-Sound domain mx a txt hm ha ht = record {
    mx = λ h. hm (is_verified-ok mx h);
    a = λ h. ha (is_verified-ok a h);
    txt = λ h. ht (is_verified-ok txt h);
    conjunction = refl;
    no_errors = quiet mx a txt;
  }

  -- `VerifyDNS` always returns a result, whatever the lookups give, and each flag in it is on only
  -- if a lookup of its records, for the name that is checked, found the expected host, address or
  -- token; the fourth flag is on exactly if the three are, and then the result shows no errors.
  pub verify_dns-Sound :
      (domain : Domain) (w : W)
      → (r : DnsVerificationResult) × ((verify_dns s domain w).0 ≡ ok r) × Sound domain r
  unfolding verify_dns
  verify_dns-Sound domain w =
      let parent : Bytes = get_parent_domain domain.name in
      let mail : Bytes = get_mail_hostname domain.name in
      let verify_mx : Action W Bool = verify_mx_record s parent s.smtp_hostname in
      let verify_a : Action W Bool = verify_a_record s mail s.server_ip in
      let verify_txt : Action W Bool = verify_txt_record s parent domain.dns_challenge in
      let m1 : Result Bool × W = verify_with_retry s verify_mx w in
      let m2 : Result Bool × W = verify_with_retry s verify_a m1.1 in
      let m3 : Result Bool × W = verify_with_retry s verify_txt m2.1 in
      (
        verdict m1.0 m2.0 m3.0,
        refl,
        verdict-Sound domain m1.0 m2.0 m3.0
            (λ h.
              let (v, v', p) = retried verify_mx w h in verify_mx-Saw parent s.smtp_hostname v v' p)
            (λ h. let (v, v', p) = retried verify_a m1.1 h in verify_a-Saw mail s.server_ip v v' p)
            (λ h.
              let (v, v', p) = retried verify_txt m2.1 h in
              verify_txt-Saw parent domain.dns_challenge v v' p),
      )
