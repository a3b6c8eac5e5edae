-- ===== src/Tests/StorageTests.antt =====
-- Runs of the configuration of storage providers.
use zabbix_docker.Base.{
  String, ◌≡◌, refl, some, [], ◌∷◌, ◌++◌, nat_eq, char_eq, string_eq, list_eq, contains, Result, ok,
  Text, chars,
}
use mathlib.Core.Option.{none-ne-some}
use zabbix_docker.Base.Dict.{lookup}
use zabbix_docker.Bootstrap.Os.{OsError}
use zabbix_docker.Storageprovider.Fields.{
  Value, text, array, object, item, no_items, member, no_members, contains_any,
}
use zabbix_docker.Storageprovider.Options.{quote_option}
use zabbix_docker.Storageprovider.Options.Quoted.{read_option, read_option-quote_option}
use zabbix_docker.Storageprovider.Families.{history}
use zabbix_docker.Storageprovider.Parameter.{parse_value_types, types_from}
use zabbix_docker.Storageprovider.Configuration.{Configuration, configs_to_prepare}
use zabbix_docker.Storageprovider.Configuration.Caching.{
  decode_all, IsCached, Serves, Refines, configs_to_prepare-Refines,
}

read_option-quote_option_example :
    read_option (quote_option (chars "a\\\",b=c") ++ chars ",d=1")
    ≡ some (chars "a\\\",b=c", chars ",d=1")
read_option-quote_option_example = read_option-quote_option (chars "a\\\",b=c") (chars ",d=1")

abbrev no_number : Unit {0} → Text
no_number n = []

abbrev same_path : String → String
same_path path = path

-- Every text is read as the object {"provider": "elasticsearch", "types": ["log"]}.
abbrev one_object : Text → Result OsError (Value (Unit {0}))
one_object raw = ok (
    object (
      member "provider" (text "elasticsearch")
        (member "types" (array (item (text "log") no_items)) no_members)))

abbrev indexed : Configuration (Unit {0})
indexed = record {
  env =
      ("ZBX_HISTORYPROVIDER_0", "{log}")
      ∷ ("ZBX_HISTORYPROVIDER_0_SCHEMA", "x")
      ∷ ("ZBX_HISTORYPROVIDER_1", "{}")
      ∷ [];
  param = history;
  names = "ZBX_HISTORYPROVIDER_0" ∷ "ZBX_HISTORYPROVIDER_1" ∷ [];
  decoded = [];
}

indexed-Serves : Serves one_object history indexed.env indexed
unfolding Serves IsCached lookup
indexed-Serves = (refl, refl, λ name config h. absurd (none-ne-some config h))

configs_to_prepare-Refines_example :
    Refines one_object history indexed.env
      (configs_to_prepare one_object no_number same_path same_path indexed)
      (decode_all one_object history indexed.env indexed.names)
configs_to_prepare-Refines_example =
    configs_to_prepare-Refines one_object history indexed.env no_number same_path same_path indexed
      indexed-Serves

value_types :
    parse_value_types {N = Unit {0}}
      (array (item (text "log") (item (text "text") (item (text "log") no_items))))
    ≡ ok ("log" ∷ "text" ∷ [])
unfolding parse_value_types types_from contains_any chars contains
value_types = refl
