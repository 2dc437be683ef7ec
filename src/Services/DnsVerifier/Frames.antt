-- ===== src/Services/DnsVerifier/Frames.antt =====
-- The checks of internal/services/dns_verifier.go change nothing but what the resolver changes.

use webrana_infinimail_backe.Models.{Domain}
use webrana_infinimail_backe.Effect.Rules.{
  IsPreorder, Keeps, Keeps-pure, Keeps-bind, Keeps-raise, Keeps-attempt, Keeps-guard, Keeps-or_else,
}
use webrana_infinimail_backe.Text.{Bytes, is_empty, codes}
use webrana_infinimail_backe.Services.DnsVerifier.{
  DnsVerifier, judged, verify_mx_record, verify_a_record, verify_txt_record, give_up, check_context,
  after_attempt, next_round, rounds, verify_dns, verify_with_retry, get_parent_domain,
  get_mail_hostname, txt_domain, verdict,
}
use webrana_infinimail_backe.Effect.{ok, err, Result, Action, Err, attempt, guard, or_else, wrap}
use webrana_infinimail_backe.Prelude.{
  zero, suc, true, false, none, some, Option, Bool, ℕ, ◌==◌, not, ◌++◌,
}

module _ {W : Type 0} (s : DnsVerifier W) (R : W → W → Type 0) where
  -- Asking and waiting keep a relation, such as "the rows are the same".
  pub record KeepsAsking : Type 0 where
    pub mx : (name : Bytes) → Keeps R (s.resolver.lookup_mx name)
    pub host : (name : Bytes) → Keeps R (s.resolver.lookup_host name)
    pub txt : (name : Bytes) → Keeps R (s.resolver.lookup_txt name)
    pub waiting : Keeps R s.wait

module _ {W : Type 0} (s : DnsVerifier W) (R : W → W → Type 0) (p : IsPreorder R)
    (k : KeepsAsking s R) where
  judged-Keeps : (r : Result Bool) → Keeps R (judged r)
  unfolding judged
  judged-Keeps r = record { at = p.reflexive }

  verify_mx-Keeps : (name host : Bytes) → Keeps R (verify_mx_record s name host)
  unfolding verify_mx_record
  verify_mx-Keeps name host =
      Keeps-bind p (guard (not (is_empty name)) _) _ (Keeps-guard p _ _) (λ _.
        Keeps-bind p (guard (not (is_empty host)) _) _ (Keeps-guard p _ _) (λ _.
          Keeps-bind p
            (or_else (s.resolver.lookup_mx name) (wrap (codes "MX lookup failed for " ++ name))) _
            (Keeps-or_else p (s.resolver.lookup_mx name) _ (k.mx name)) (λ rs. judged-Keeps _)))

  verify_a-Keeps : (name ip : Bytes) → Keeps R (verify_a_record s name ip)
  unfolding verify_a_record
  verify_a-Keeps name ip = Keeps-bind p (guard (not (is_empty name)) _) _ (Keeps-guard p _ _) (λ _.
      Keeps-bind p (guard (not (is_empty ip)) _) _ (Keeps-guard p _ _) (λ _.
        Keeps-bind p
          (or_else (s.resolver.lookup_host name)
            (wrap (codes "A record lookup failed for " ++ name)))
          _ (Keeps-or_else p (s.resolver.lookup_host name) _ (k.host name)) (λ rs. judged-Keeps _)))

  verify_txt-Keeps : (name token : Bytes) → Keeps R (verify_txt_record s name token)
  unfolding verify_txt_record
  verify_txt-Keeps name token =
      Keeps-bind p (guard (not (is_empty name)) _) _ (Keeps-guard p _ _) (λ _.
        Keeps-bind p (guard (not (is_empty token)) _) _ (Keeps-guard p _ _) (λ _.
          Keeps-bind p
            (or_else (s.resolver.lookup_txt (txt_domain name))
              (wrap (codes "TXT lookup failed for " ++ (txt_domain name))))
            _
            (Keeps-or_else p (s.resolver.lookup_txt (txt_domain name)) _ (k.txt (txt_domain name)))
            (λ rs. judged-Keeps _)))

  give_up-Keeps : (o : Option Err) → Keeps R (give_up o)
  unfolding give_up
  give_up-Keeps none = Keeps-pure p false
  give_up-Keeps (some e) = Keeps-raise p e

  check_context-Keeps : (o : Option Err) → Keeps R (check_context o)
  unfolding check_context
  check_context-Keeps none = Keeps-pure p tt
  check_context-Keeps (some e) = Keeps-raise p e

  after-Keeps :
      (last : Option Err) (next : Option Err → Action W Bool) (r : Result Bool)
      → ((e : Option Err) → Keeps R (next e))
      → Keeps R (after_attempt last next r)
  unfolding after_attempt
  after-Keeps last next (ok true) h = Keeps-pure p true
  after-Keeps last next (ok false) h = h last
  after-Keeps last next (err e) h = h (some e)

  next-Keeps :
      (b : Bool) (rest : Option Err → Action W Bool)
      → ((e : Option Err) → Keeps R (rest e))
      → (e : Option Err) → Keeps R (next_round s b rest e)
  unfolding next_round
  next-Keeps true rest h e = h e
  next-Keeps false rest h e = Keeps-bind p s.wait (λ _. rest e) k.waiting (λ _. h e)

  rounds-Keeps :
      (verify : Action W Bool) (n : ℕ) (last : Option Err)
      → Keeps R verify
      → Keeps R (rounds s verify n last)
  unfolding rounds
  rounds-Keeps verify zero last h = record { at = (give_up-Keeps last).at }
  rounds-Keeps verify (suc n) last h = record {
    at = λ w.
        (Keeps-bind p (check_context (s.cancelled w)) _ (check_context-Keeps (s.cancelled w)) (λ _.
            Keeps-bind p (attempt verify) _ (Keeps-attempt p verify h) (λ r.
              after-Keeps last _ r
                (next-Keeps (n == 0) (rounds s verify n) (λ e. rounds-Keeps verify n e h))))).at
          w;
  }

  retried-Keeps :
      (verify : Action W Bool) → Keeps R verify → Keeps R (attempt (verify_with_retry s verify))
  unfolding verify_with_retry
  retried-Keeps verify h =
      Keeps-attempt p (verify_with_retry s verify) (rounds-Keeps verify (suc s.max_retries) none h)

  pub verify_dns-Keeps : (d : Domain) → Keeps R (verify_dns s d)
  unfolding verify_dns
  verify_dns-Keeps d =
      let parent : Bytes = get_parent_domain d.name in
      let mail : Bytes = get_mail_hostname d.name in
      Keeps-bind p (attempt (verify_with_retry s (verify_mx_record s parent s.smtp_hostname))) _
        (retried-Keeps _ (verify_mx-Keeps parent s.smtp_hostname))
        (λ mx.
          Keeps-bind p (attempt (verify_with_retry s (verify_a_record s mail s.server_ip))) _
            (retried-Keeps _ (verify_a-Keeps mail s.server_ip))
            (λ a.
              Keeps-bind p
                (attempt (verify_with_retry s (verify_txt_record s parent d.dns_challenge))) _
                (retried-Keeps _ (verify_txt-Keeps parent d.dns_challenge))
                (λ txt. Keeps-pure p (verdict mx a txt))))
