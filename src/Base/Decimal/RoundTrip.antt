-- ===== src/Base/Decimal/RoundTrip.antt =====
-- Numbers printed and read back.
use mathlib.Core.WellFounded.{Acc}
use mathlib.Core.Logic.{dif_pos, dif_neg}
use native.Mathlib.Bridge.{le_prop}
use native.Mathlib.Decide.{dec_lt}
use Prim.Native.Nat.{ℕ, zero, suc, ◌+◌, ◌*◌, ◌/◌, ◌%◌, ◌≤◌, ◌<◌}
use Prim.Native.Char.{Char, code}
use mathlib.Core.Path.{◌≡◌, refl, ap, ◌∙◌}
use mathlib.Core.Bool.{true}
use mathlib.Core.Option.{some}
use mathlib.Core.List.{[], ◌∷◌}
use native.Mathlib.Omega.{arith}
use zabbix_docker.Base.Tests.{nat_eq, char_eq, list_eq}
use zabbix_docker.Base.Texts.{Text}
use zabbix_docker.Base.Decimal.{
  pos, max_int, digit, is_digit, digits_value, unsigned_value, emit, itoa, atoi, lt_wf, tenth_lt,
}

digit-code : (d : ℕ) → d < 10 → code (digit d) ≡ 48 + d
digit-code zero h = refl
digit-code (suc zero) h = refl
digit-code (suc (suc zero)) h = refl
digit-code (suc (suc (suc zero))) h = refl
digit-code (suc (suc (suc (suc zero)))) h = refl
digit-code (suc (suc (suc (suc (suc zero))))) h = refl
digit-code (suc (suc (suc (suc (suc (suc zero)))))) h = refl
digit-code (suc (suc (suc (suc (suc (suc (suc zero))))))) h = refl
digit-code (suc (suc (suc (suc (suc (suc (suc (suc zero)))))))) h = refl
digit-code (suc (suc (suc (suc (suc (suc (suc (suc (suc zero))))))))) h = refl
digit-code (suc (suc (suc (suc (suc (suc (suc (suc (suc (suc n)))))))))) h = absurd (omega arith)

digit-is_digit : (d : ℕ) → d < 10 → is_digit (digit d) ≡ true
digit-is_digit d h = rw (digit-code d h) (ground arith)

-- The value of a digit in front: the value that it gives the rest.
digits_value-digit :
    (d : ℕ) (s : Text) (n : ℕ) → d < 10 → digits_value (digit d ∷ s) n ≡ digits_value s (n * 10 + d)
unfolding digits_value
digits_value-digit d s n h =
    rw (digit-is_digit d h)
      (rw (digit-code d h) (ap (λ k. digits_value s (n * 10 + k)) (omega arith)))

-- Reading what `emit` wrote in front of `out` is reading `out` from the number on.
digits_value-emit :
    (n : ℕ) (w : Acc ◌<◌ n) (out : Text) → digits_value (emit n w out) 0 ≡ digits_value out n
unfolding emit
digits_value-emit n (Acc.intro _ smaller) out = elim (dec_lt 9 n) [
  | yes h ↦ rw (dif_pos _ le_prop h) (
      digits_value-emit (n / 10) (smaller (n / 10) (tenth_lt h)) (digit (n % 10) ∷ out)
      ∙ digits_value-digit (n % 10) out (n / 10) (omega arith)
      ∙ ap (digits_value out) (omega arith))
  | no h ↦
      rw (dif_neg _ h)
        (digits_value-digit n out 0 (omega arith) ∙ ap (digits_value out) (omega arith))
]

emit-ne-nil :
    (n : ℕ) (w : Acc ◌<◌ n) (out : Text)
    → (c : Char) × (s : Text) × (emit n w out ≡ c ∷ s) × (is_digit c ≡ true)
unfolding emit
emit-ne-nil n (Acc.intro _ smaller) out = elim (dec_lt 9 n) [
  | yes h ↦
      rw (dif_pos _ le_prop h)
        (emit-ne-nil (n / 10) (smaller (n / 10) (tenth_lt h)) (digit (n % 10) ∷ out))
  | no h ↦ rw (dif_neg _ h) (digit n, out, refl, digit-is_digit n (omega arith))
]

-- `Itoa` writes a digit first.
pub itoa-cons : (n : ℕ) → (c : Char) × (s : Text) × (itoa n ≡ c ∷ s) × (is_digit c ≡ true)
unfolding itoa
itoa-cons n = emit-ne-nil n (lt_wf.apply n) []

pub digits_value-itoa : (n : ℕ) → digits_value (itoa n) 0 ≡ some n
unfolding itoa digits_value
digits_value-itoa n = digits_value-emit n (lt_wf.apply n) []

pub unsigned_value-itoa : (n : ℕ) → unsigned_value (itoa n) ≡ some n
unsigned_value-itoa n = let (c, s, e, d) = itoa-cons n in rw e (rw e at (digits_value-itoa n))

-- A run of digits without a sign.
atoi_digits :
    (c : Char) (s : Text) (n : ℕ)
    → is_digit c ≡ true
    → unsigned_value (c ∷ s) ≡ some n
    → n ≤ max_int
    → atoi (c ∷ s) ≡ some (pos n)
unfolding atoi
atoi_digits c s n d v h = ground arith

-- Every number in range reads back.
pub atoi-itoa : (n : ℕ) → n ≤ max_int → atoi (itoa n) ≡ some (pos n)
atoi-itoa n h =
    let (c, s, e, d) = itoa-cons n in rw e (atoi_digits c s n d (rw e at (unsigned_value-itoa n)) h)

pub itoa-injective : (m n : ℕ) → itoa m ≡ itoa n → m ≡ n
itoa-injective m n e =
    ground (arith, unsigned_value-itoa m, unsigned_value-itoa n, ap unsigned_value e)
