-- ===== src/Security/Guard/Accepts.antt =====
-- What a program that the guard accepts holds.
use wizard_w.Prelude.{
  ◌≡◌, ◌↔◌, refl, Bool, true, false, ◌&&◌, not, List, [], ◌∷◌, ◌++◌, none, some, arith, filter, all,
  contains, map, Bool-cases, inl, inr, ◌∙◌, sym, ap,
}
use wizard_w.Prelude.Text.{Text, text_eq, strip}
use wizard_w.Security.Tree.{
  Node, imports, import_from, attribute, name, call, keyword, text, constant, other, walk,
  everywhere,
}
use wizard_w.Security.Tree.Walk.{walk-all, all-append}
use wizard_w.Security.Guard.{
  Violation, Parsed, program, syntax, is_nil, inspect_node, inspect_all, verdict_of, guard_roots,
  scan, scan_parsed, top_module, import_violations, node_modules, modules_of, imported_modules,
}
use wizard_w.Security.Guard.Words.{banned_modules}

-- A node of which the guard has nothing to say.
abbrev pub harmless : List Text → Node → Bool
harmless roots node = is_nil (inspect_node roots node).0

is_nil-append {ℓ} : {A : Type ℓ} (xs ys : List A) → is_nil (xs ++ ys) ≡ (is_nil xs && is_nil ys)
is_nil-append [] ys = refl
is_nil-append (x ∷ xs) ys = refl

inspect_all-nil :
    (roots : List Text) (nodes : List Node)
    → is_nil (inspect_all roots nodes).0 ≡ all (harmless roots) nodes
unfolding inspect_all
inspect_all-nil roots [] = refl
inspect_all-nil roots (n ∷ nodes) = ground (
  arith,
  inspect_all-nil roots nodes,
  is_nil-append (inspect_node roots n).0 (inspect_all roots nodes).0,
)

verdict_of-ok : (r : List Violation × List Text) → (verdict_of r).ok ≡ is_nil r.0
unfolding verdict_of
verdict_of-ok ([], paths) = refl
verdict_of-ok (v ∷ vs, paths) = refl

pub scan_program-ok :
    (extra_roots : List Text) (tree : Node)
    → (scan_parsed extra_roots (program tree)).ok
      ≡ everywhere (harmless (guard_roots extra_roots)) tree
unfolding scan_parsed
scan_program-ok extra_roots tree =
    let roots = guard_roots extra_roots in
    verdict_of-ok (inspect_all roots (walk tree))
    ∙ inspect_all-nil roots (walk tree)
    ∙ walk-all (harmless roots) tree

parsed-ok :
    (extra_roots : List Text) (p : Parsed)
    → (scan_parsed extra_roots p).ok ≡ true
    → (tree : Node) × (p ≡ program tree)
      × (everywhere (harmless (guard_roots extra_roots)) tree ≡ true)
parsed-ok extra_roots (syntax message line) h = absurd (unfold scan_parsed in ground arith)
parsed-ok extra_roots (program tree) h = (tree, refl, sym (scan_program-ok extra_roots tree) ∙ h)

scan-ok :
    (parse : Text → Parsed) (extra_roots : List Text) (code : Text)
    → (scan parse extra_roots code).ok ≡ true
    → (is_nil (strip code) ≡ false) × ((scan_parsed extra_roots (parse code)).ok ≡ true)
unfolding scan
scan-ok parse extra_roots code h = ground arith

-- A program is accepted exactly where it is not blank, Python's parser reads it, and no node of its
-- tree, at any depth, has a finding.
pub scan-ok_iff :
    (parse : Text → Parsed) (extra_roots : List Text) (code : Text)
    → ((scan parse extra_roots code).ok ≡ true) ↔ (
        (is_nil (strip code) ≡ false)
        × (tree : Node) × (parse code ≡ program tree)
        × (everywhere (harmless (guard_roots extra_roots)) tree ≡ true))
unfolding scan
scan-ok_iff parse extra_roots code = (
  λ h.
      let (present, accepted) = scan-ok parse extra_roots code h in
      let (tree, parsed, clean) = parsed-ok extra_roots (parse code) accepted in
      (present, tree, parsed, clean),
  λ (present, tree, parsed, clean). rw (present, parsed) (scan_program-ok extra_roots tree ∙ clean),
)

abbrev is_permitted : Text → Bool
is_permitted m = not (contains m banned_modules)

imports-permitted :
    (names : List Text)
    → is_nil (import_violations names) ≡ true
    → all is_permitted (map top_module names) ≡ true
unfolding import_violations
imports-permitted [] h = refl
imports-permitted (path ∷ names) h = elim (Bool-cases (contains (top_module path) banned_modules)) [
  | inl bad ↦ absurd (ground arith)
  | inr good ↦ ground (arith, imports-permitted names)
]

harmless-permitted :
    (roots : List Text) (node : Node)
    → harmless roots node ≡ true
    → all is_permitted (node_modules node) ≡ true
unfolding inspect_node node_modules
harmless-permitted roots (imports names) h = imports-permitted names h
harmless-permitted roots (import_from none level) h = refl
harmless-permitted roots (import_from (some path) level) h = ground arith
harmless-permitted roots (attribute value attr) h = refl
harmless-permitted roots (name id) h = refl
harmless-permitted roots (call func args keywords) h = refl
harmless-permitted roots (keyword arg value) h = refl
harmless-permitted roots (text value) h = refl
harmless-permitted roots constant h = refl
harmless-permitted roots (other ns) h = refl

modules_of-permitted :
    (roots : List Text) (nodes : List Node)
    → all (harmless roots) nodes ≡ true
    → all is_permitted (modules_of nodes) ≡ true
unfolding modules_of
modules_of-permitted roots [] h = refl
modules_of-permitted roots (n ∷ nodes) h = ground (
  arith,
  harmless-permitted roots n,
  modules_of-permitted roots nodes,
  all-append is_permitted (node_modules n) (modules_of nodes),
)

permitted-member :
    (q : Text → Bool) (ms : List Text) (m : Text)
    → all is_permitted ms ≡ true
    → contains m (filter q ms) ≡ true
    → contains m banned_modules ≡ false
permitted-member q [] m h k = absurd (ground arith)
permitted-member q (x ∷ ms) m h k = ground (
  arith,
  permitted-member q ms m,
  text_eq.decides x m,
  λ (e : x ≡ m). ap (λ t. contains t banned_modules) e,
)

-- No module that `imported_modules` reports for an accepted program, those that the gate on installs
-- is asked about before the run, is a banned one.
pub accepted_imports-permitted :
    (parse : Text → Parsed) (extra_roots : List Text) (code : Text) (m : Text)
    → (scan parse extra_roots code).ok ≡ true
    → contains m (imported_modules parse code) ≡ true
    → contains m banned_modules ≡ false
unfolding imported_modules
accepted_imports-permitted parse extra_roots code m h k =
    let (present, tree, parsed, clean) = (scan-ok_iff parse extra_roots code).0 h in
    permitted-member (λ module_name. not (is_nil module_name)) (modules_of (walk tree)) m
      (modules_of-permitted (guard_roots extra_roots) (walk tree)
        (walk-all (harmless (guard_roots extra_roots)) tree ∙ clean))
      (ground arith)
