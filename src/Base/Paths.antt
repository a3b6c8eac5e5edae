-- ===== src/Base/Paths.antt =====
-- `path/filepath` on Unix, lexically.
use mathlib.Core.List.{reverse}
use mathlib.Core.Bool.{Bool, true, false, not, ◌&&◌, ◌||◌}
use mathlib.Core.List.{List, [], ◌∷◌, ◌++◌}
use zabbix_docker.Base.Tests.{◌==◌, nat_eq, char_eq, list_eq, list_beq, if◌then◌else◌}
use zabbix_docker.Base.Texts.{Text}
use zabbix_docker.Base.Texts.{chars, split_on, join, has_prefix}
use zabbix_docker.Base.Lists.{is_empty}

abbrev pub dot_dot : Text
dot_dot = chars ".."

-- A `..` behind the components that are kept, last first. A rooted path has nothing above its root.
unfoldable pub clean_up : Bool → List Text → List Text
unfolding list_beq
clean_up true [] = []
clean_up false [] = dot_dot ∷ []
clean_up rooted (top ∷ below) = if top == dot_dot then dot_dot ∷ top ∷ below else below

unfoldable pub clean_parts : Bool → List Text → List Text → List Text
unfolding clean_up list_beq
clean_parts rooted kept [] = reverse kept
clean_parts rooted kept (part ∷ parts) =
    clean_parts rooted
      (if is_empty part || part == chars "."
        then kept
        else if part == dot_dot
        then clean_up rooted kept
        else part ∷ kept)
      parts

-- `filepath.IsAbs`
abbrev pub is_abs : Text → Bool
is_abs path = has_prefix path (chars "/")

abbrev print_path : Bool → List Text → Text
print_path true parts = chars "/" ++ join (chars "/") parts
print_path false [] = chars "."
print_path false parts = join (chars "/") parts

-- `filepath.Clean`
unfoldable pub clean : Text → Text
unfolding clean_parts
clean path = print_path (is_abs path) (clean_parts (is_abs path) [] (split_on b'/' path))

abbrev not_empty_parts : List Text → List Text
not_empty_parts [] = []
not_empty_parts (p ∷ ps) = if is_empty p then not_empty_parts ps else p ∷ not_empty_parts ps

-- `filepath.Join`
unfoldable pub join_paths : List Text → Text
unfolding clean
join_paths paths =
    let present = not_empty_parts paths in
    if is_empty present then [] else clean (join (chars "/") present)

-- `filepath.IsLocal`: a relative path that does not lead out of the directory that it starts in.
unfoldable pub is_local : Text → Bool
unfolding clean list_beq
is_local path =
    not (is_empty path)
    && not (is_abs path)
    && not (clean path == dot_dot)
    && not (has_prefix (clean path) (chars "../"))
