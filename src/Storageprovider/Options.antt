-- ===== src/Storageprovider/Options.antt =====
-- `quoteOption` and `nativeOption` of templates/entrypoints/internal/storageprovider/json.go.
pub mod Quoted
use zabbix_docker.Base.{
  String, refl, true, false, [], ◌∷◌, ◌++◌, if◌then◌else◌, nat_eq, char_eq, string_eq, list_eq,
  Result, ok, err, Text, chars,
}
use zabbix_docker.Base.Replace.{replace_all}
use zabbix_docker.Storageprovider.Fields.{
  Value, boolean, number, text, StorageError, line_break, no_option_value, contains_any,
}

unfoldable pub quote_option : Text → Text
quote_option value =
    chars "\""
    ++ (replace_all b'"' (chars "\\\"") (replace_all b'\\' (chars "\\\\") value) ++ chars "\"")

-- `format_float` is `strconv.FormatFloat(…, 'f', -1, 64)`.
unfoldable pub native_option :
    {N : Type 0} → (N → Text) → String → Value N → Result StorageError Text
native_option format_float key (text value) =
    if contains_any (b'\r' ∷ b'\n' ∷ []) (chars value)
    then err (line_break key)
    else ok (chars key ++ (chars "=" ++ quote_option (chars value)))
native_option format_float key (number n) = ok (chars key ++ (chars "=" ++ format_float n))
native_option format_float key (boolean true) = ok (chars key ++ chars "=1")
native_option format_float key (boolean false) = ok (chars key ++ chars "=0")
native_option format_float key _ = err (no_option_value key)
