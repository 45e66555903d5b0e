-- ===== src/Security/Path.antt =====
-- backend/src/core/security/code_guard.py, `_is_path_allowed`, with the parts of `posixpath` it uses.
pub mod Inside
pub mod Relative
pub mod Granted
use wizard_w.Prelude.{
  ℕ, Bool, true, false, ◌&&◌, ◌||◌, not, List, [], ◌∷◌, ◌++◌, if◌then◌else◌, any, ◌==◌, nat_eq, map,
  take, drop,
}
use mathlib.Core.List.{reverse}
use wizard_w.Prelude.Text.{Text, codes, text_eq, starts_with, occurs}
use wizard_w.Prelude.Split.{split_on, join}

abbrev pub slash : ℕ
slash = b'/'

abbrev pub dot : Text
dot = b'.' ∷ []

abbrev pub dot_dot : Text
dot_dot = b'.' ∷ b'.' ∷ []

-- `ALLOWED_PATH_ROOTS`
abbrev pub allowed_path_roots : List Text
allowed_path_roots = codes "/workspace" ∷ codes "/tmp/wizard" ∷ []

-- `posixpath.isabs`
abbrev pub is_abs : Text → Bool
is_abs [] = false
is_abs (c ∷ s) = c == slash

-- `posixpath.join(base, path)`
unfoldable pub join_path : Text → Text → Text
join_path base path =
    if is_abs path
    then path
    else if base == [] || is_abs (take 1 (reverse base))
    then base ++ path
    else base ++ (slash ∷ path)

-- One component in the loop of `posixpath.normpath`; `comps` is the list kept so far, its last first.
unfoldable pub push_component : Bool → Text → List Text → List Text
push_component rooted comp [] =
    if comp == [] || comp == dot then [] else if comp == dot_dot && rooted then [] else comp ∷ []
push_component rooted comp (top ∷ comps) =
    if comp == [] || comp == dot
    then top ∷ comps
    else if not (comp == dot_dot) || top == dot_dot
    then comp ∷ top ∷ comps
    else comps

unfoldable pub push_all : Bool → List Text → List Text → List Text
push_all rooted [] comps = comps
push_all rooted (comp ∷ rest) comps = push_all rooted rest (push_component rooted comp comps)

-- The slashes that a normalised path begins with: exactly two stay two.
unfoldable pub initial_slashes : Text → Text
initial_slashes path =
    if not (starts_with (slash ∷ []) path)
    then []
    else if starts_with (slash ∷ slash ∷ []) path
        && not (starts_with (slash ∷ slash ∷ slash ∷ []) path)
    then slash ∷ slash ∷ []
    else slash ∷ []

-- `path or "."`
abbrev pub or_dot : Text → Text
or_dot [] = dot
or_dot (c ∷ s) = c ∷ s

-- The components that stay, in order.
unfoldable pub components : Text → List Text
unfolding push_all push_component
components path = reverse (push_all (is_abs path) (split_on slash path) [])

-- `posixpath.normpath`
unfoldable pub normpath : Text → Text
unfolding components initial_slashes
normpath path = or_dot (initial_slashes path ++ join (slash ∷ []) (components path))

-- `raw_path.replace("\\", "/")`
unfoldable pub fold_backslashes : Text → Text
fold_backslashes path = map (λ c. if c == b'\\' then slash else c) path

-- `roots[0] if roots else "/workspace"`
abbrev pub base_of : List Text → Text
base_of [] = codes "/workspace"
base_of (root ∷ roots) = root

-- `cleaned[1:3] == ":/"`
abbrev pub has_drive : Text → Bool
has_drive path = take 2 (drop 1 path) == b':' ∷ slash ∷ []

-- What is normalised: the path itself, or the path below the first root.
unfoldable pub target : List Text → Text → Text
unfolding fold_backslashes join_path
target roots raw_path =
    let cleaned = fold_backslashes raw_path in
    if is_abs cleaned || has_drive cleaned then cleaned else join_path (base_of roots) cleaned

-- `root.rstrip("/")`
unfoldable pub rstrip_slashes : Text → Text
rstrip_slashes [] = []
rstrip_slashes (c ∷ s) = elim (rstrip_slashes s) [
  | [] ↦ if c == slash then [] else c ∷ []
  | d ∷ t ↦ c ∷ d ∷ t
]

unfoldable pub is_below : Text → Text → Bool
unfolding rstrip_slashes
is_below path root =
    path == rstrip_slashes root || starts_with (rstrip_slashes root ++ (slash ∷ [])) path

unfoldable pub is_path_allowed : List Text → Text → Bool
unfolding target normpath is_below
is_path_allowed roots raw_path =
    if raw_path == []
    then false
    else if occurs (codes "://") raw_path || starts_with (b'\\' ∷ b'\\' ∷ []) raw_path
    then false
    else any (is_below (normpath (target roots raw_path))) roots

-- A path through its last slash.
unfoldable pub dir_part : Text → Text
dir_part [] = []
dir_part (c ∷ s) = elim (dir_part s) [ [] ↦ if c == slash then c ∷ [] else [] | d ∷ t ↦ c ∷ d ∷ t ]

-- `posixpath.dirname`: the slashes at the end go, unless there is nothing else.
unfoldable pub dirname : Text → Text
unfolding dir_part rstrip_slashes
dirname path =
    let head = dir_part path in if rstrip_slashes head == [] then head else rstrip_slashes head

-- The root that `_permit_paths` of orchestrator.py grants for a path the user allowed.
unfoldable pub granted_root : Text → Text
unfolding dirname fold_backslashes
granted_root path =
    let folder = dirname (fold_backslashes path) in if folder == [] then path else folder
