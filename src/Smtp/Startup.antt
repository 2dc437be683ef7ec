-- ===== src/Smtp/Startup.antt =====
-- Which certificates and limits the SMTP server of cmd/server/main.go starts with.

use webrana_infinimail_backe.Smtp.Certificates.{get_certificate_with_fallback, or_other, looked_up}
use webrana_infinimail_backe.Effect.{Result}
use webrana_infinimail_backe.Prelude.{
  Option, ◌≡◌, zero, suc, none, some, inl, inr, refl, ◌<◌, ◌⊎◌, arith, ℕ, Option-cases,
}
use webrana_infinimail_backe.Text.{Bytes, codes}
use webrana_infinimail_backe.Smtp.Server.{
  Environment, named_pair, SmtpServer, start_smtp_server, configured, load_server_config_from_env,
  new_secure_server, shown, shown_by, tls_or_created, with_legacy, ℤ, pos, negsuc, positive_or,
}

module _ {W C : Type 0} (env : Environment W C) (addr : Bytes)
    (source : Option (Bytes → Result (Option C))) where
  abbrev pub first_pair : W → Option C × W
  first_pair =
      named_pair env (env.getenv (codes "SMTP_TLS_CERT")) (env.getenv (codes "SMTP_TLS_KEY"))

  positive_or_lem : (i : ℤ) (d : ℕ) → 0 < d → 0 < positive_or i d
  unfolding positive_or
  positive_or_lem (pos zero) d h = h
  positive_or_lem (pos (suc n)) d h = omega arith
  positive_or_lem (negsuc n) d h = h

  -- the server that is started
  abbrev pub started : W → SmtpServer C
  started w = (start_smtp_server env addr source w).0

  abbrev pub second_pair : W → Option C
  second_pair w = (first_pair (first_pair w).1).0

  shown-started :
      (w : W) (n : Bytes)
      → shown (started w) n
        ≡ shown_by
            (tls_or_created env (with_legacy env (first_pair w).0))
            (record { get_certificate = source; default_cert = second_pair w })
            n
  unfolding start_smtp_server configured load_server_config_from_env new_secure_server shown codes
  shown-started w n = refl

  -- Whatever the port is and wherever certificates come from: the pair of files that SMTP_TLS_CERT
  -- and SMTP_TLS_KEY name can be read, and the server shows its certificate for every server name,
  -- or it cannot, and the server shows what the source gives for the name, else the certificate of
  -- the pair if it can be read the second time.
  pub started-Shows :
      (w : W)
      → ((cert : C) × ((first_pair w).0 ≡ some cert)
          × ((n : Bytes) → shown (started w) n ≡ some cert))
        ⊎ (((first_pair w).0 ≡ none)
            × ((n : Bytes) → shown (started w) n ≡ or_other (looked_up source n) (second_pair w)))
  unfolding get_certificate_with_fallback
  started-Shows w = elim (Option-cases (first_pair w).0) [
    | inr (cert, p) ↦ inl (cert, p, λ n. rw (shown-started w n) (rw p refl))
    | inl p ↦ inr (p, λ n. rw (shown-started w n) (rw p refl))
  ]

  -- No limit of the server is zero, whatever the environment sets.
  pub started-limits :
      (w : W)
      → (0 < (started w).max_message_bytes)
        × (0 < (started w).max_recipients)
        × (0 < (started w).read_timeout)
        × (0 < (started w).write_timeout)
  unfolding start_smtp_server configured load_server_config_from_env new_secure_server
  started-limits w = (
    positive_or_lem _ 26214400 (omega arith),
    positive_or_lem _ 100 (omega arith),
    positive_or_lem _ 60000000000 (omega arith),
    positive_or_lem _ 60000000000 (omega arith),
  )
