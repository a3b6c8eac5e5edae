-- ===== src/Bootstrap/Environment/RoundTrip.antt =====
-- `List`, followed by `NewEnvironment`.
use text.Mathlib.TextEquality.{eq_iff}
use zabbix_docker.Base.{
  String, ◌<>◌, ◌≡◌, refl, ◌∙◌, inl, inr, some, List, [], ◌∷◌, map, arith, if◌then◌else◌,
  Bool-cases, Option-cases, ◌==◌, nat_eq, char_eq, string_eq, list_eq, contains, All, chars,
  of_text, of_text-chars, chars-of_text, is_some, cut, count_code, chars-append, cut-append,
  cut-count_code,
}
use zabbix_docker.Base.Dict.{keys, lookup, insert, lookup-insert, lookup-nil}
use zabbix_docker.Base.Sort.{sort, All-sort, contains-sort}
use zabbix_docker.Bootstrap.Environment.{
  Environment, get, string_less, add_item, add_items, new_environment, list,
}

-- The item that `List` writes for a name.
abbrev item : Environment → String → String
item env name = name <> "=" <> get env name

abbrev IsPlain : String → Type 0
IsPlain name = count_code b'=' (chars name) ≡ 0

cut-item :
    (env : Environment) (name : String)
    → IsPlain name
    → cut b'=' (chars (item env name)) ≡ some (chars name, chars (get env name))
unfolding chars
cut-item env name h =
    rw (chars-append name, chars-append "=")
      (cut-append b'=' "=" (chars name) (chars (get env name)) refl h)

add_item-item :
    (env start : Environment) (name : String)
    → IsPlain name
    → add_item start (item env name) ≡ insert name (get env name) start
unfolding add_item
add_item-item env start name h =
    rw (cut-item env name h, add_item) (rw (of_text-chars name, of_text-chars (get env name)))

-- Reading the items of some names sets just those names, to their values.
lookup-add_items :
    (env : Environment) (names : List String) (start : Environment) (name : String)
    → All IsPlain names
    → lookup name (add_items start (map (item env) names))
      ≡ (if contains names name then some (get env name) else lookup name start)
unfolding add_items contains
lookup-add_items env [] start name h = refl
lookup-add_items env (n ∷ names) start name (h, hs) =
    rw (add_item-item env start n h, add_items)
      (lookup-add_items env names _ name hs
        ∙ rw (lookup-insert name n (get env n) start) (ground (arith, eq_iff n name)))

contains-keys :
    (env : Environment) (name : String) → contains (keys env) name ≡ is_some (lookup name env)
unfolding contains keys lookup
contains-keys [] name = refl
contains-keys ((n, v) ∷ env) name = ground (arith, contains-keys env name)

new_environment-list_of_plain :
    (env : Environment) (name : String)
    → All IsPlain (keys env)
    → lookup name (new_environment (list env)) ≡ lookup name env
unfolding new_environment list
new_environment-list_of_plain env name h =
    lookup-add_items env (sort string_less (keys env)) [] name
      (All-sort string_less IsPlain (keys env) h)
    ∙ rw (contains-sort string_less (keys env) name, contains-keys env name)
        (rw lookup-nil (ground arith))

All-keys-insert :
    (P : String → Type 0) (name value : String) (env : Environment)
    → P name
    → All P (keys env)
    → All P (keys (insert name value env))
unfolding keys insert
All-keys-insert P name value [] h hs = (h, tt)
All-keys-insert P name value ((n, v) ∷ env) h (hn, hs) = elim (Bool-cases (n == name)) [
  | inl same ↦ rw same (h, hs)
  | inr differ ↦ rw differ (hn, All-keys-insert P name value env h hs)
]

add_item-IsPlain :
    (env : Environment) (item : String)
    → All IsPlain (keys env)
    → All IsPlain (keys (add_item env item))
unfolding add_item
add_item-IsPlain env item h = elim (Option-cases (cut b'=' (chars item))) [
  | inl e ↦ rw (e, add_item) h
  | inr ((a, b), e) ↦
      rw (e, add_item)
        (All-keys-insert IsPlain (of_text a) (of_text b) env
          (rw (chars-of_text a) (cut-count_code b'=' (chars item) a b e)) h)
]

add_items-IsPlain :
    (env : Environment) (values : List String)
    → All IsPlain (keys env)
    → All IsPlain (keys (add_items env values))
unfolding add_items
add_items-IsPlain env [] h = h
add_items-IsPlain env (item ∷ values) h =
    add_items-IsPlain (add_item env item) values (add_item-IsPlain env item h)

-- Writing an environment that was read from the process and reading it again gives every variable the
-- value that it had, whatever the items were and in whatever order the map is walked.
pub new_environment-list :
    (values : List String) (name : String)
    → lookup name (new_environment (list (new_environment values)))
      ≡ lookup name (new_environment values)
unfolding keys
new_environment-list values name =
    new_environment-list_of_plain (new_environment values) name
      (unfold new_environment in add_items-IsPlain [] values tt)
