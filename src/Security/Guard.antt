-- ===== src/Security/Guard.antt =====
-- backend/src/core/security/code_guard.py, `CodeGuard`: the gate that generated code passes before it
-- runs. A sentence is a value with what it names; the tree of a program, or the error of Python's
-- parser, is given.
pub mod Words
pub mod Accepts
pub mod Rescan
use wizard_w.Prelude.{
  ℕ, Bool, true, false, ◌&&◌, ◌||◌, not, List, [], ◌∷◌, ◌++◌, Option, none, some, if◌then◌else◌,
  filter, contains, length, ◌==◌, nat_eq, map,
}
use mathlib.Core.List.{reverse}
use wizard_w.Prelude.Text.{Text, codes, text_eq, starts_with, strip}
use wizard_w.Prelude.Split.{split_on, first_part}
use wizard_w.Security.Path.{allowed_path_roots, is_path_allowed}
use wizard_w.Security.Tree.{
  Node, Nodes, imports, import_from, attribute, name, call, keyword, text, constant, other, nil,
  cons, walk,
}
use wizard_w.Security.Guard.Words.{
  banned_modules, banned_calls, banned_names, reflection_calls, banned_attributes,
  path_arg_functions, path_arg_methods, path_keywords,
}

-- One sentence about a node.
pub data Violation : Type 0 where
  banned_import : Text → Violation
  banned_from : Text → Violation
  banned_attribute : Text → Violation
  banned_name : Text → Violation
  banned_call : Text → Violation
  computed_reflection : Text → Violation
  reflection : Text → Text → Violation
  outside : Text → Violation

pub data GuardReason : Type 0 where
  empty_program : GuardReason
  malformed : Text → Option ℕ → GuardReason
  violated : Violation → GuardReason
  safe : GuardReason

pub record GuardVerdict : Type 0 where
  pub ok : Bool
  pub reason : GuardReason
  pub syntax_error : Bool
  pub violations : List Violation
  pub paths : List Text

-- What `ast.parse` returns or raises.
pub data Parsed : Type 0 where
  program : Node → Parsed
  syntax : Text → Option ℕ → Parsed

abbrev pub is_nil {ℓ} : {A : Type ℓ} → List A → Bool
is_nil [] = true
is_nil (x ∷ xs) = false

unfoldable pub only_paths : GuardVerdict → Bool
only_paths v =
    not v.ok && not v.syntax_error && not (is_nil v.paths) && length v.violations == length v.paths

-- `alias.name.split(".")[0]`
unfoldable pub top_module : Text → Text
top_module path = first_part (split_on b'.' path)

-- `node.module or ""`
abbrev pub module_text : Option Text → Text
module_text none = []
module_text (some path) = path

unfoldable pub import_violations : List Text → List Violation
unfolding top_module
import_violations names =
    map banned_import (filter (λ path. contains (top_module path) banned_modules) names)

-- The name that a call goes by.
unfoldable pub called_name : Node → Text
called_name (name id) = id
called_name (attribute value attr) = attr
called_name _ = []

unfoldable pub name_violations : Text → List Violation
name_violations id = if contains id banned_calls then banned_call id ∷ [] else []

-- `value.startswith("__") and value.endswith("__")`
abbrev pub is_dunder : Text → Bool
is_dunder value = starts_with (codes "__") value && starts_with (codes "__") (reverse value)

-- The attribute that a reflection helper is given, if it is given one.
unfoldable pub attribute_violations : Text → Node → List Violation
attribute_violations id (text value) =
    if contains value banned_attributes || contains value banned_calls || is_dunder value
    then reflection id value ∷ []
    else []
attribute_violations id _ = computed_reflection id ∷ []

unfoldable pub reflection_violations : Text → Nodes → List Violation
unfolding attribute_violations
reflection_violations id (cons first (cons second rest)) =
    if contains id reflection_calls then attribute_violations id second else []
reflection_violations id _ = []

unfoldable pub checkable : Node → Bool
checkable (name id) = contains id path_arg_functions
checkable (attribute value attr) =
    contains attr path_arg_functions || contains attr path_arg_methods
checkable _ = false

-- The loop over the keyword arguments in `_first_string_arg`.
unfoldable pub keyword_path : Nodes → Option Text
keyword_path nil = none
keyword_path (cons (keyword (some arg) (text value)) rest) =
    if contains arg path_keywords then some value else keyword_path rest
keyword_path (cons (keyword (some arg) constant) rest) =
    if contains arg path_keywords then none else keyword_path rest
keyword_path (cons _ rest) = keyword_path rest

-- `_first_string_arg`
unfoldable pub first_string_arg : Nodes → Nodes → Option Text
unfolding keyword_path
first_string_arg nil keywords = keyword_path keywords
first_string_arg (cons (text value) rest) keywords = some value
first_string_arg (cons _ rest) keywords = none

-- What the check of the path argument adds.
unfoldable pub path_findings : List Text → Option Text → List Violation × List Text
path_findings roots none = ([], [])
path_findings roots (some path) =
    if is_path_allowed roots path then ([], []) else (outside path ∷ [], path ∷ [])

-- The findings of a call that do not depend on its path.
unfoldable pub call_violations : Node → Nodes → List Violation
unfolding called_name name_violations reflection_violations
call_violations func args =
    let id = called_name func in name_violations id ++ reflection_violations id args

-- The path that a call is checked for.
unfoldable pub call_literal : Node → Nodes → Nodes → Option Text
unfolding checkable first_string_arg
call_literal func args keywords = if checkable func then first_string_arg args keywords else none

-- `_inspect_call`
unfoldable pub inspect_call : List Text → Node → Nodes → Nodes → List Violation × List Text
unfolding call_violations call_literal path_findings
inspect_call roots func args keywords =
    let (more, paths) = path_findings roots (call_literal func args keywords) in
    (call_violations func args ++ more, paths)

-- `_inspect_node`
unfoldable pub inspect_node : List Text → Node → List Violation × List Text
unfolding import_violations top_module inspect_call
inspect_node roots (imports names) = (import_violations names, [])
inspect_node roots (import_from path level) =
    if contains (top_module (module_text path)) banned_modules
    then (banned_from (module_text path) ∷ [], [])
    else ([], [])
inspect_node roots (attribute value attr) =
    if contains attr banned_attributes then (banned_attribute attr ∷ [], []) else ([], [])
inspect_node roots (name id) =
    if contains id banned_names then (banned_name id ∷ [], []) else ([], [])
inspect_node roots (call func args keywords) = inspect_call roots func args keywords
inspect_node roots _ = ([], [])

-- The loop of `scan` over the nodes.
unfoldable pub inspect_all : List Text → List Node → List Violation × List Text
unfolding inspect_node
inspect_all roots [] = ([], [])
inspect_all roots (node ∷ nodes) =
    let (found, offending) = inspect_node roots node in
    let (violations, paths) = inspect_all roots nodes in (found ++ violations, offending ++ paths)

-- `tuple(dict.fromkeys(items))`
unfoldable pub unique : List Text → List Text
unique [] = []
unique (x ∷ xs) = x ∷ filter (λ y. not (y == x)) (unique xs)

unfoldable pub guard_roots : List Text → List Text
unfolding unique
guard_roots extra_roots = unique (extra_roots ++ allowed_path_roots)

unfoldable pub verdict_of : List Violation × List Text → GuardVerdict
verdict_of ([], paths) = record {
  ok = true;
  reason = safe;
  syntax_error = false;
  violations = [];
  paths = [];
}
verdict_of (v ∷ violations, paths) = record {
  ok = false;
  reason = violated v;
  syntax_error = false;
  violations = v ∷ violations;
  paths = paths;
}

abbrev pub refused : GuardReason → Bool → GuardVerdict
refused reason syntax_error = record {
  ok = false;
  reason = reason;
  syntax_error = syntax_error;
  violations = [];
  paths = [];
}

unfoldable pub scan_parsed : List Text → Parsed → GuardVerdict
unfolding inspect_all guard_roots verdict_of walk
scan_parsed extra_roots (syntax message line) = refused (malformed message line) true
scan_parsed extra_roots (program tree) =
    verdict_of (inspect_all (guard_roots extra_roots) (walk tree))

-- `CodeGuard.scan`
unfoldable pub scan : (Text → Parsed) → List Text → Text → GuardVerdict
unfolding scan_parsed strip
scan parse extra_roots code =
    if is_nil (strip code)
    then refused empty_program false
    else scan_parsed extra_roots (parse code)

-- `imported_modules`, as a list: the modules that a runtime may have to install.
unfoldable pub node_modules : Node → List Text
unfolding top_module
node_modules (imports names) = map top_module names
node_modules (import_from (some path) level) =
    if level == 0 && not (is_nil path) then top_module path ∷ [] else []
node_modules _ = []

unfoldable pub modules_of : List Node → List Text
unfolding node_modules
modules_of [] = []
modules_of (node ∷ nodes) = node_modules node ++ modules_of nodes

unfoldable pub imported_modules : (Text → Parsed) → Text → List Text
unfolding modules_of walk
imported_modules parse code = elim (parse code) [
  | syntax message line ↦ []
  | program tree ↦ filter (λ module_name. not (is_nil module_name)) (modules_of (walk tree))
]
