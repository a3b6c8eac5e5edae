-- ===== src/Bootstrap/Indexed/Number.antt =====
-- Which texts are indices.
use zabbix_docker.Base.Decimal.{pos, itoa, atoi, max_int}
use zabbix_docker.Base.Decimal.RoundTrip.{atoi-itoa}
use zabbix_docker.Base.{
  ℕ, ◌≤◌, String, ◌≡◌, ◌↔◌, some, [], ◌∷◌, arith, nat_eq, char_eq, string_eq, list_eq, list_eq_iff,
  Text, chars,
}
use zabbix_docker.Bootstrap.Indexed.{parse_indexed_number}

atoi-le-max_int : (s : Text) (n : ℕ) → atoi s ≡ some (pos n) → n ≤ max_int
unfolding atoi
atoi-le-max_int [] n h = cc
atoi-le-max_int (c ∷ s) n h = ground arith

-- A text is read as an index exactly if it is the decimal form of a number up to 2 ^ 63 - 1: no sign, no
-- leading zero, no other character.
pub parse_indexed_number_iff :
    (value : String) (n : ℕ)
    → (parse_indexed_number value ≡ some n) ↔ ((chars value ≡ itoa n) × (n ≤ max_int))
unfolding parse_indexed_number
parse_indexed_number_iff value n = (
  λ h. ground (arith, atoi-le-max_int (chars value) n, list_eq_iff (itoa n) (chars value)),
  λ (e, h).
      rw (e, parse_indexed_number)
        (rw (atoi-itoa n h) (ground (arith, list_eq_iff (itoa n) (itoa n)))),
)
