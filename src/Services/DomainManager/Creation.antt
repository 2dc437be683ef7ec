-- ===== src/Services/DomainManager/Creation.antt =====
-- `CreateDomain` and the challenge token.
use webrana_infinimail_backe.Effect.Rules.{outcome_cases}
use webrana_infinimail_backe.Text.Case.{to_lower}
use webrana_infinimail_backe.Text.Trim.{trim_space}
use webrana_infinimail_backe.Models.{Domain, pending_dns}
use webrana_infinimail_backe.Effect.{ok, Action}
use webrana_infinimail_backe.Services.DomainManager.{
  hex_digit, hex_encode, DomainManager, create_domain, generate_challenge_token,
}
use webrana_infinimail_backe.Text.{Bytes, is_empty}
use webrana_infinimail_backe.Prelude.{
  [], refl, ◌∷◌, ℕ, if◌then◌else◌, ◌*◌, ◌<◌, All, ltb, ◌+◌, ◌≡◌, ◌/◌, ◌-◌, arith, ◌%◌, length,
  false, none, inl, inr, Bool-cases, subst,
}

-- an independent reading of a hexadecimal text
hex_value : ℕ → ℕ
hex_value c = if ltb c b'a' then c - b'0' else c - b'a' + 10

unfoldable pub hex_decode : Bytes → Bytes
unfolding hex_value
hex_decode [] = []
hex_decode (c ∷ []) = []
hex_decode (c ∷ d ∷ cs) = (hex_value c * 16 + hex_value d) ∷ hex_decode cs

hex_value-digit : (n : ℕ) → n < 16 → hex_value (hex_digit n) ≡ n
unfolding hex_value hex_digit
hex_value-digit n small = ground arith

join_digits :
    (b : ℕ) → b < 256 → hex_value (hex_digit (b / 16)) * 16 + hex_value (hex_digit (b % 16)) ≡ b
join_digits b small =
    let high : b / 16 < 16 = ground arith in
    let low : b % 16 < 16 = ground arith in
    rw (hex_value-digit (b / 16) high, hex_value-digit (b % 16) low) (ground arith)

-- A challenge token has two characters for each byte, and the bytes can be read back from it, so
-- that different random bytes give different tokens.
pub token_roundtrip :
    (bs : Bytes)
    → All (λ b. b < 256) bs
    → (hex_decode (hex_encode bs) ≡ bs) × (length (hex_encode bs) ≡ 2 * length bs)
unfolding hex_encode hex_decode
token_roundtrip [] small = (refl, refl)
token_roundtrip (b ∷ bs) (now, later) =
    let (back, long) = token_roundtrip bs later in (rw (join_digits b now, back), ground arith)

-- What the database promises of `Create`: the row that it stores and returns is the one given, but
-- for its identifier.
abbrev pub CreateLaw : {W : Type 0} → (Domain → Action W Domain) → Type 0
CreateLaw {W = W} create =
    (w w' : W) (d r : Domain) → create d w ≡ (ok r, w') → r ≡ record d { id = r.id }

abbrev pub new_domain : ℕ → Bytes → Bytes → Domain
new_domain i name token = record {
  id = i;
  name = name;
  is_active = false;
  status = pending_dns;
  dns_challenge = token;
  error_message = [];
  acme_challenge_token = [];
  acme_challenge_value = [];
  acme_challenge_expires_at = none;
  acme_dns_verified = false;
}

module _ {W : Type 0} (s : DomainManager W) (law : CreateLaw s.repo.create) where
  abbrev Created : Bytes → W → Domain → Type 0
  Created name₀ w d =
      (bytes : Bytes) × (v : W) × (s.rand_read w ≡ (ok bytes, v))
      × (is_empty (trim_space (to_lower name₀)) ≡ false)
      × (d ≡ new_domain d.id (trim_space (to_lower name₀)) (hex_encode bytes))

  -- When `CreateDomain` returns a domain, its name is the one given in lower case and trimmed, and is
  -- not empty, it waits for DNS and is not active, it has no challenge of the ACME server and no
  -- error, and its token is the hexadecimal text of the random bytes that were read.
  pub create_domain-Created :
      (w w' : W) (name₀ : Bytes) (d : Domain)
      → create_domain s name₀ w ≡ (ok d, w')
      → (bytes : Bytes) × (v : W) × (s.rand_read w ≡ (ok bytes, v))
        × (is_empty (trim_space (to_lower name₀)) ≡ false)
        × (d ≡ new_domain d.id (trim_space (to_lower name₀)) (hex_encode bytes))
  unfolding create_domain generate_challenge_token
  create_domain-Created w w' name₀ d h =
      elim (Bool-cases (is_empty (trim_space (to_lower name₀)))) [
        | inl empty ↦ cc (rw empty at h)
        | inr name ↦ elim (outcome_cases s.rand_read w) [
          | inr (e, v, p) ↦ cc (rw (name, p) at h)
          | inl (bytes, v, p) ↦
              elim (outcome_cases
                (s.repo.create (new_domain 0 (trim_space (to_lower name₀)) (hex_encode bytes))) v) [
                  | inr (e, u, q) ↦ cc (rw (name, p, q) at h)
                  | inl (r, u, q) ↦
                      let made = law v u _ r q in
                      let same : r ≡ d = cc (rw (name, p, q) at h) in
                      (
                        bytes,
                        v,
                        p,
                        name,
                        subst
                            (λ x.
                              x ≡ new_domain x.id (trim_space (to_lower name₀)) (hex_encode bytes))
                            same made,
                      )
                ]
        ]
      ]
