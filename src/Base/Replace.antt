-- ===== src/Base/Replace.antt =====
-- `strings.ReplaceAll` of one character, quoting by doubling, and `net.JoinHostPort`.
pub mod Quoting
use Prim.Native.Nat.{ℕ, zero, suc}
use Prim.Native.Char.{Char}
use mathlib.Core.Path.{◌≡◌, refl, ap}
use mathlib.Core.Bool.{Bool, true, false}
use mathlib.Core.List.{List, [], ◌∷◌, ◌++◌}
use native.Mathlib.Omega.{arith}
use zabbix_docker.Base.Tests.{ltb, if◌then◌else◌}
use zabbix_docker.Base.Texts.{Text, chars, is_code, count_code}

-- `strings.ReplaceAll(s, c, value)`
unfoldable pub replace_all : ℕ → Text → Text → Text
replace_all n value [] = []
replace_all n value (c ∷ s) =
    let rest = replace_all n value s in if is_code n c then value ++ rest else c ∷ rest

-- `net.JoinHostPort`
unfoldable pub join_host_port : Text → Text → Text
join_host_port host port =
    if ltb 0 (count_code b':' host)
    then chars "[" ++ (host ++ (chars "]:" ++ port))
    else host ++ (chars ":" ++ port)
