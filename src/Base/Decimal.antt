-- ===== src/Base/Decimal.antt =====
-- `strconv.Itoa`, `strconv.Atoi` and `strconv.ParseUint(_, 10, 16)`.
pub mod RoundTrip
use mathlib.Core.Logic.{dite}
use mathlib.Core.WellFounded.{Acc, WellFounded}
use native.Mathlib.Decide.{dec_lt}
use Prim.Native.Nat.{ℕ, zero, suc, ◌+◌, ◌-◌, ◌*◌, ◌/◌, ◌%◌, ◌^◌, ◌≤◌, ◌<◌}
use Prim.Native.Char.{Char, code}
use mathlib.Core.Path.{◌≡◌, refl, sym, ap, ◌∙◌}
use mathlib.Core.Logic.{◌≢◌, ◌↔◌, ◌⊎◌, inl, inr}
use mathlib.Core.Bool.{Bool, true, false, not, ◌&&◌, ◌||◌}
use mathlib.Core.Option.{Option, none, some}
use mathlib.Core.List.{List, [], ◌∷◌, ◌++◌}
use native.Mathlib.Omega.{arith}
use zabbix_docker.Base.Tests.{
  ltb, leb, ◌==◌, nat_eq, char_eq, list_eq, list_beq, list_eq_iff, if◌then◌else◌, Bool-cases,
  Option-cases,
}
use zabbix_docker.Base.Texts.{Text, is_code, chars}

abbrev pub digit : ℕ → Char
digit zero = "0"
digit (suc zero) = "1"
digit (suc (suc zero)) = "2"
digit (suc (suc (suc zero))) = "3"
digit (suc (suc (suc (suc zero)))) = "4"
digit (suc (suc (suc (suc (suc zero))))) = "5"
digit (suc (suc (suc (suc (suc (suc zero)))))) = "6"
digit (suc (suc (suc (suc (suc (suc (suc zero))))))) = "7"
digit (suc (suc (suc (suc (suc (suc (suc (suc zero)))))))) = "8"
digit _ = "9"

Acc-below : (k n : ℕ) → n < k → Acc ◌<◌ n
Acc-below zero n h = elim h [ ]
Acc-below (suc k) n h = Acc.intro n (λ m hm. Acc-below k m (omega arith))

lt_wf : WellFounded ◌<◌
unfolding Acc-below
lt_wf = record { apply = λ n. Acc-below (suc n) n (omega arith) }

abbrev tenth_lt : {n : ℕ} → 9 < n → n / 10 < n
tenth_lt h = omega arith

-- The digits of a number, in front of what is already there.
emit : (n : ℕ) → Acc ◌<◌ n → Text → Text
emit n (Acc.intro _ smaller) out =
    dite (dec_lt 9 n) (λ h. emit (n / 10) (smaller (n / 10) (tenth_lt h)) (digit (n % 10) ∷ out))
      (λ _. digit n ∷ out)

-- `strconv.Itoa` at a number that is not negative.
unfoldable pub itoa : ℕ → Text
unfolding emit lt_wf dec_lt
itoa n = emit n (lt_wf.apply n) []

abbrev pub is_digit : Char → Bool
is_digit c = leb b'0' (code c) && leb (code c) b'9'

-- The value of a run of digits; Go's overflow tests are the range tests below.
unfoldable pub digits_value : Text → ℕ → Option ℕ
digits_value [] n = some n
digits_value (c ∷ s) n =
    let rest = digits_value s (n * 10 + (code c - b'0')) in if is_digit c then rest else none

abbrev pub unsigned_value : Text → Option ℕ
unsigned_value [] = none
unsigned_value (c ∷ s) = digits_value (c ∷ s) 0

pub data ℤ : Type 0 where
  pos : ℕ → ℤ
  -- `negsuc n` is -(n + 1).
  negsuc : ℕ → ℤ

abbrev negated : ℕ → ℤ
negated zero = pos 0
negated (suc n) = negsuc n

abbrev pub max_int : ℕ
max_int = 2 ^ 63 - 1

-- `strconv.Atoi` on a 64-bit platform: an optional sign and digits, within the range of `int`.
unfoldable pub atoi : Text → Option ℤ
unfolding digits_value
atoi [] = none
atoi (c ∷ s) =
    if is_code b'-' c
    then elim (unsigned_value s) [
      | none ↦ none
      | some n ↦ if leb n (max_int + 1) then some (negated n) else none
    ]
    else elim (unsigned_value (if is_code b'+' c then s else c ∷ s)) [
      | none ↦ none
      | some n ↦ if leb n max_int then some (pos n) else none
    ]

-- `strconv.ParseUint(s, 10, 16)`
unfoldable pub parse_uint16 : Text → Option ℕ
unfolding digits_value
parse_uint16 s = elim (unsigned_value s) [
  | none ↦ none
  | some n ↦ if ltb n 65536 then some n else none
]
