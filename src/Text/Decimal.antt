-- ===== src/Text/Decimal.antt =====
-- `%d` of a natural number.
use webrana_infinimail_backe.Text.Split.{Without}
use webrana_infinimail_backe.Text.{codes, Bytes, is_empty}
use webrana_infinimail_backe.Prelude.{
  false, ℕ, suc, ◌/◌, ◌+◌, ◌∷◌, ◌≡◌, ◌%◌, [], refl, if◌then◌else◌, ◌==◌, zero, inl, inr, ◌*◌, ◌≤◌,
  arith, ◌-◌, ap, Bool-cases, sym, ==→eq, ◌∙◌, true, none, some, Bool, Option, leb, not, ◌&&◌, ltb,
}

-- one digit for each unit of fuel, the last digit first
decimal_digits : ℕ → ℕ → Bytes → Bytes
decimal_digits zero n acc = acc
decimal_digits (suc f) n acc =
    let more = decimal_digits f (n / 10) ((b'0' + n % 10) ∷ acc) in if n == 0 then acc else more

unfoldable pub decimal : ℕ → Bytes
unfolding decimal_digits
decimal zero = b'0' ∷ []
decimal (suc n) = decimal_digits (suc n) (suc n) []

decimal-407 : decimal 407 ≡ codes "407"
unfolding decimal codes
decimal-407 = refl

-- an independent reading of a decimal text, after the number `n`
unfoldable pub decimal_value : Bytes → ℕ → ℕ
decimal_value [] n = n
decimal_value (c ∷ s) n = decimal_value s (n * 10 + (c - b'0'))

digits-value :
    (f n : ℕ) (acc : Bytes) → n ≤ f → decimal_value (decimal_digits f n acc) 0 ≡ decimal_value acc n
unfolding decimal_digits decimal_value
digits-value zero n acc h = ap (decimal_value acc) (ground arith)
digits-value (suc f) n acc h = elim (Bool-cases (n == 0)) [
  | inl e ↦ rw e (ap (decimal_value acc) (sym (==→eq n 0 e)))
  | inr e ↦ rw e (
      digits-value f (n / 10) ((b'0' + n % 10) ∷ acc) (ground arith)
      ∙ ap (decimal_value acc) (ground arith))
]

-- The decimal text of a number is read back as the number, so its fuel is enough.
decimal_value-decimal : (n : ℕ) → decimal_value (decimal n) 0 ≡ n
unfolding decimal decimal_value
decimal_value-decimal zero = refl
decimal_value-decimal (suc n) = digits-value (suc n) (suc n) [] (ground arith)

-- every byte is a decimal digit
unfoldable pub all_digits : Bytes → Bool
all_digits [] = true
all_digits (c ∷ s) = leb b'0' c && leb c b'9' && all_digits s

-- `strconv.ParseUint(s, 10, 32)`, of which only whether it fails is used
unfoldable pub parse_uint32 : Bytes → Option ℕ
unfolding all_digits decimal_value
parse_uint32 s =
    if not (is_empty s) && all_digits s && ltb (decimal_value s 0) 4294967296
    then some (decimal_value s 0)
    else none

digit-other : (d : ℕ) → ((b'0' + d) == 10) ≡ false
digit-other d = ground arith

digits-Without : (f n : ℕ) (acc : Bytes) → Without 10 acc → Without 10 (decimal_digits f n acc)
unfolding decimal_digits
digits-Without zero n acc h = h
digits-Without (suc f) n acc h = elim (Bool-cases (n == 0)) [
  | inl p ↦ rw p h
  | inr p ↦ rw p (digits-Without f (n / 10) ((b'0' + n % 10) ∷ acc) (digit-other (n % 10), h))
]

pub decimal-Without : (n : ℕ) → Without 10 (decimal n)
unfolding decimal
decimal-Without zero = (refl, tt)
decimal-Without (suc n) = digits-Without (suc n) (suc n) [] tt
