-- ===== src/Config/Rules.antt =====
-- templates/entrypoints/internal/config: parameters.go at the level of files, tool_access_rules.go and
-- item_key_rules.go.
use zabbix_docker.Base.{
  String, Bool, true, false, not, List, [], ◌∷◌, ◌++◌, map, if◌then◌else◌, ◌==◌, nat_eq, char_eq,
  string_eq, list_eq, Result, ok, err, is_empty, select, Text, chars, of_text, is_code, trim,
  trim_space, split_on,
}
use zabbix_docker.Base.Dict.{Dict, keys, lookup}
use zabbix_docker.Base.Exec.{Exec, pure, lift, ◌>>=◌, ◌>>◌, wrap_err}
use zabbix_docker.Base.Paths.{join_paths}
use zabbix_docker.Bootstrap.Environment.{Environment, or_empty}
use zabbix_docker.Bootstrap.Indexed.{IndexedVariable, collect_indexed}
use zabbix_docker.Config.Parameters.{
  ConfigError, missing_file, update_failed, indexed, template_unreadable, runtime_unwritable, Files,
  lines_of, content_of, rewrite_lines, replace_params_at_end, IndexedParam,
}

unfoldable pub collect_indexed_params :
    Environment → Dict String String → Bool → Result ConfigError (List IndexedParam)
collect_indexed_params env param_by_prefix strict =
    elim (collect_indexed env (keys param_by_prefix) strict) [
      | err e ↦ err (indexed e)
      | ok variables ↦ ok (
          map
            (λ (v : IndexedVariable). record {
              param = or_empty (lookup v.prefix param_by_prefix);
              variable = v.name;
            })
            variables)
    ]

unfoldable pub tool_access_rule_param_by_prefix : Dict String String
tool_access_rule_param_by_prefix =
    ("ZBX_ALLOWTOOL", "AllowTool")
    ∷ ("ZBX_DENYTOOL", "DenyTool")
    ∷ ("ZBX_ALLOWTOOL_REGEXP", "AllowToolRegexp")
    ∷ ("ZBX_DENYTOOL_REGEXP", "DenyToolRegexp")
    ∷ []

unfoldable pub item_key_rule_param_by_prefix : Dict String String
item_key_rule_param_by_prefix =
    ("ZBX_ALLOWKEY", "AllowKey")
    ∷ ("ZBX_DENYKEY", "DenyKey")
    ∷ ("ZBX_ALLOWKEY_REGEXP", "AllowKeyRegexp")
    ∷ ("ZBX_DENYKEY_REGEXP", "DenyKeyRegexp")
    ∷ []

abbrev pub values_of : Dict String String → List Text
values_of [] = []
values_of ((prefix, param) ∷ d) = chars param ∷ values_of d

module _ {W : Type 0} (files : Files W) where
  open files use {read_file, write_file, write_file_preserving_mode}

  -- The content as it was read, and its lines.
  unfoldable pub read_lines : String → Exec W ConfigError (Text × List Text)
  read_lines config_path = do
    original ← wrap_err (missing_file config_path) (read_file config_path)
    pure (original, lines_of original)

  -- The file is written only where its content changes.
  unfoldable pub write_lines : String → Text → List Text → Exec W ConfigError (Unit {0})
  write_lines config_path original lines =
      if original == content_of lines
      then pure tt
      else wrap_err (update_failed config_path)
          (write_file_preserving_mode config_path (content_of lines))

  unfoldable pub rewrite_parameter :
      String → Text → List Text → Bool → Exec W ConfigError (Unit {0})
  unfolding read_lines write_lines
  rewrite_parameter config_path param values preserve_existing = do
    (original, lines) ← read_lines config_path
    write_lines config_path original (rewrite_lines param values preserve_existing lines)

  unfoldable pub merge_parameter_values : String → Text → Text → Exec W ConfigError (Unit {0})
  unfolding rewrite_parameter
  merge_parameter_values config_path param raw_value =
      let value = trim (is_code b'"') (trim_space raw_value) in
      if is_empty value
      then rewrite_parameter config_path param [] false
      else rewrite_parameter config_path param
          (select (λ part. not (is_empty part)) (split_on b',' value)) true

  unfoldable pub set_parameter : String → Text → Text → Exec W ConfigError (Unit {0})
  unfolding rewrite_parameter
  set_parameter config_path param value = rewrite_parameter config_path param (value ∷ []) false

  unfoldable pub update_indexed_parameter :
      Environment → String → String → String → Exec W ConfigError (Unit {0})
  unfolding rewrite_parameter collect_indexed_params
  update_indexed_parameter env config_path param prefix = do
    params ← lift (collect_indexed_params env ((prefix, param) ∷ []) false)
    if is_empty params
        then pure tt
        else rewrite_parameter config_path (chars param)
            (map (λ (p : IndexedParam). chars "${" ++ (chars p.variable ++ chars "}")) params) false

  unfoldable pub replace_indexed_params_at_end :
      String → Dict String String → List IndexedParam → Exec W ConfigError (Unit {0})
  unfolding read_lines write_lines
  replace_indexed_params_at_end config_path param_by_prefix params = do
    (original, lines) ← read_lines config_path
    write_lines config_path original
        (replace_params_at_end (values_of param_by_prefix) params lines)

  unfoldable pub configure_tool_access_rules :
      Environment → String → String → Exec W ConfigError (Unit {0})
  unfolding collect_indexed_params replace_indexed_params_at_end tool_access_rule_param_by_prefix
  configure_tool_access_rules env template_path runtime_path = do
    rules ← lift (collect_indexed_params env tool_access_rule_param_by_prefix true)
    content ← wrap_err (template_unreadable template_path) (read_file template_path)
    wrap_err (runtime_unwritable runtime_path) (write_file runtime_path content)
    if is_empty rules
        then pure tt
        else replace_indexed_params_at_end runtime_path tool_access_rule_param_by_prefix rules

  unfoldable pub configure_item_key_rules :
      Environment → String → String → Exec W ConfigError (Unit {0})
  unfolding collect_indexed_params replace_indexed_params_at_end item_key_rule_param_by_prefix
  configure_item_key_rules env config_dir file_name = do
    rules ← lift (collect_indexed_params env item_key_rule_param_by_prefix true)
    replace_indexed_params_at_end (of_text (join_paths (chars config_dir ∷ chars file_name ∷ [])))
        item_key_rule_param_by_prefix rules
