-- ===== src/Base/Trimming.antt =====
-- Trimming a text twice.
use Prim.Native.Char.{Char}
use mathlib.Core.Path.{◌≡◌, refl, ap, ◌∙◌}
use mathlib.Core.Logic.{◌⊎◌, inl, inr}
use mathlib.Core.Bool.{Bool, false}
use mathlib.Core.List.{[], ◌∷◌}
use native.Mathlib.Omega.{arith}
use zabbix_docker.Base.Tests.{nat_eq, char_eq, list_eq, Bool-cases}
use zabbix_docker.Base.Texts.{Text}
use zabbix_docker.Base.Lists.{is_empty}
use zabbix_docker.Base.Texts.{is_space, trim_left, trim_right, trim, trim_space}

module _ (p : Char → Bool) where
  trim_left-cases :
      (s : Text)
      → (trim_left p s ≡ []) ⊎ ((c : Char) × (t : Text) × (p c ≡ false) × (trim_left p s ≡ c ∷ t))
  unfolding trim_left
  trim_left-cases [] = inl refl
  trim_left-cases (c ∷ s) = elim (Bool-cases (p c)) [
    | inl h ↦ rw h (trim_left-cases s)
    | inr h ↦ inr (c, s, h, rw h)
  ]

  trim_right-twice : (s : Text) → trim_right p (trim_right p s) ≡ trim_right p s
  unfolding trim_right is_empty
  trim_right-twice [] = refl
  trim_right-twice (c ∷ s) = ground (arith, trim_right-twice s)

  -- A character that stays shields what is before it.
  trim_left-trim_right :
      (c : Char) (t : Text)
      → p c ≡ false
      → trim_left p (trim_right p (c ∷ t)) ≡ trim_right p (c ∷ t)
  unfolding trim_left trim_right
  trim_left-trim_right c t h = rw h (rw (h, trim_left))

  pub trim-twice : (s : Text) → trim p (trim p s) ≡ trim p s
  unfolding trim trim_right trim_left
  trim-twice s = elim (trim_left-cases s) [
    | inl h ↦ rw (h, trim)
    | inr (c, t, h, e) ↦
        rw (e, trim) (ap (trim_right p) (trim_left-trim_right c t h) ∙ trim_right-twice (c ∷ t))
  ]

pub trim_space-twice : (s : Text) → trim_space (trim_space s) ≡ trim_space s
unfolding trim_space
trim_space-twice s = trim-twice is_space s
