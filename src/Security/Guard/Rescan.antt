-- ===== src/Security/Guard/Rescan.antt =====
-- Asking about the paths of a refused program, and scanning it again with more roots.
use wizard_w.Prelude.{
  ◌≡◌, ◌≤◌, refl, Bool, true, false, not, List, [], ◌∷◌, ◌++◌, Option, none, some, arith,
  if◌then◌else◌, filter, all, any, contains, ◌==◌, map, Bool-cases, inl, inr, sym, ap, length,
  length-append, contains-append, nat_eq,
}
use mathlib.Core.List.{map-append}
use wizard_w.Prelude.Text.{Text, text_eq, strip}
use wizard_w.Security.Path.{
  is_path_allowed, is_below, normpath, target, base_of, allowed_path_roots,
}
use wizard_w.Security.Path.Inside.{any-witness}
use wizard_w.Security.Tree.Walk.{all-append}
use wizard_w.Security.Tree.{
  Node, imports, import_from, attribute, name, call, keyword, text, constant, other, walk,
}
use wizard_w.Security.Guard.{
  Violation, Parsed, program, syntax, is_nil, inspect_node, inspect_all, inspect_call, verdict_of,
  guard_roots, unique, scan, scan_parsed, only_paths, outside, path_findings, call_violations,
  call_literal, import_violations, top_module, module_text, banned_from, banned_attribute,
  banned_name,
}
use wizard_w.Security.Guard.Words.{banned_modules, banned_attributes, banned_names}

abbrev Findings : Type 0
Findings = List Violation × List Text

-- Each path of the findings has its sentence; where there are no other sentences, these are all.
abbrev Fits : Findings → Type 0
Fits r = (length r.1 ≤ length r.0) × (length r.0 ≡ length r.1 → r.0 ≡ map outside r.1)

empty_of_length {ℓ} : {A : Type ℓ} (xs : List A) → length xs ≡ 0 → xs ≡ []
empty_of_length [] h = refl
empty_of_length (x ∷ xs) h = absurd (omega arith)

pathless-Fits : (vs : List Violation) → Fits (vs, [])
pathless-Fits vs = (omega arith, empty_of_length vs)

append-Fits : (r q : Findings) → Fits r → Fits q → Fits (r.0 ++ q.0, r.1 ++ q.1)
append-Fits (vs, ps) (ws, qs) f g = (
  omega (arith, length-append vs ws, length-append ps qs),
  λ e.
      let lengths : (length vs ≡ length ps) × (length ws ≡ length qs) =
        omega (arith, length-append vs ws, length-append ps qs) in
      rw (f.1 lengths.0, g.1 lengths.1) (sym (map-append outside ps qs)),
)

path_findings-Fits :
    (roots : List Text) (literal : Option Text) → Fits (path_findings roots literal)
unfolding path_findings
path_findings-Fits roots none = (omega arith, λ e. refl)
path_findings-Fits roots (some p) = elim (Bool-cases (is_path_allowed roots p)) [
  | inl good ↦ rw good (omega arith, λ e. refl)
  | inr bad ↦ rw bad (omega arith, λ e. refl)
]

choice-Fits : (b : Bool) (v : Violation) → Fits (if b then (v ∷ [], []) else ([], []))
choice-Fits true v = pathless-Fits (v ∷ [])
choice-Fits false v = pathless-Fits []

inspect_node-Fits : (roots : List Text) (node : Node) → Fits (inspect_node roots node)
unfolding inspect_node inspect_call
inspect_node-Fits roots (call func args keywords) =
    append-Fits (call_violations func args, [])
      (path_findings roots (call_literal func args keywords))
      (pathless-Fits (call_violations func args))
      (path_findings-Fits roots (call_literal func args keywords))
inspect_node-Fits roots (imports names) = pathless-Fits (import_violations names)
inspect_node-Fits roots (import_from path level) =
    choice-Fits (contains (top_module (module_text path)) banned_modules)
      (banned_from (module_text path))
inspect_node-Fits roots (attribute value attr) =
    choice-Fits (contains attr banned_attributes) (banned_attribute attr)
inspect_node-Fits roots (name id) = choice-Fits (contains id banned_names) (banned_name id)
inspect_node-Fits roots (keyword arg value) = pathless-Fits []
inspect_node-Fits roots (text value) = pathless-Fits []
inspect_node-Fits roots constant = pathless-Fits []
inspect_node-Fits roots (other ns) = pathless-Fits []

inspect_all-Fits : (roots : List Text) (nodes : List Node) → Fits (inspect_all roots nodes)
unfolding inspect_all
inspect_all-Fits roots [] = pathless-Fits []
inspect_all-Fits roots (n ∷ nodes) =
    append-Fits (inspect_node roots n) (inspect_all roots nodes) (inspect_node-Fits roots n)
      (inspect_all-Fits roots nodes)

any_of_member :
    (q : Text → Bool) (x : Text) (xs : List Text)
    → contains x xs ≡ true
    → q x ≡ true
    → any q xs ≡ true
any_of_member q x [] m h = absurd (ground arith)
any_of_member q x (y ∷ xs) m h =
    ground (arith, any_of_member q x xs, text_eq.decides y x, λ (e : y ≡ x). ap q e)

-- More roots behind the same first one allow at least as much.
is_path_allowed_mono :
    (roots wider : List Text) (path : Text)
    → base_of roots ≡ base_of wider
    → ((root : Text) → contains root roots ≡ true → contains root wider ≡ true)
    → is_path_allowed roots path ≡ true
    → is_path_allowed wider path ≡ true
unfolding is_path_allowed
is_path_allowed_mono roots wider path same more h =
    let to : Text = target wider path in
    let moved : target roots path ≡ to = unfold target in rw same in
    let below : any (is_below (normpath to)) roots ≡ true = rw (← moved) (ground arith) in
    let (root, member, holds) = any-witness (is_below (normpath to)) roots below in
    ground (arith, any_of_member (is_below (normpath to)) root wider (more root member) holds)

module _ (roots wider : List Text)
    (mono : (p : Text) → is_path_allowed roots p ≡ true → is_path_allowed wider p ≡ true) where
  -- Nothing is left of findings that were only paths, once the paths are allowed.
  path_findings-wider :
      (literal : Option Text) (vs : List Violation)
      → length (vs ++ (path_findings roots literal).0) ≡ length (path_findings roots literal).1
      → all (is_path_allowed wider) (path_findings roots literal).1 ≡ true
      → vs ++ (path_findings wider literal).0 ≡ []
  unfolding path_findings
  path_findings-wider none vs h k = empty_of_length (vs ++ []) h
  path_findings-wider (some p) vs h k = elim (Bool-cases (is_path_allowed roots p)) [
    | inl good ↦ rw (mono p good) (empty_of_length (vs ++ []) (rw good at h))
    | inr bad ↦ ground (arith, length-append vs (outside p ∷ []), empty_of_length vs)
  ]

  inspect_node-wider :
      (n : Node)
      → length (inspect_node roots n).0 ≡ length (inspect_node roots n).1
      → all (is_path_allowed wider) (inspect_node roots n).1 ≡ true
      → (inspect_node wider n).0 ≡ []
  unfolding inspect_node inspect_call
  inspect_node-wider (call func args keywords) h k =
      path_findings-wider (call_literal func args keywords) (call_violations func args) h k
  inspect_node-wider (imports names) h k = empty_of_length (import_violations names) h
  inspect_node-wider (import_from path level) h k = ground arith
  inspect_node-wider (attribute value attr) h k = ground arith
  inspect_node-wider (name id) h k = ground arith
  inspect_node-wider (keyword arg value) h k = refl
  inspect_node-wider (text value) h k = refl
  inspect_node-wider constant h k = refl
  inspect_node-wider (other ns) h k = refl

  inspect_all-wider :
      (nodes : List Node)
      → length (inspect_all roots nodes).0 ≡ length (inspect_all roots nodes).1
      → all (is_path_allowed wider) (inspect_all roots nodes).1 ≡ true
      → (inspect_all wider nodes).0 ≡ []
  unfolding inspect_all
  inspect_all-wider [] h k = refl
  inspect_all-wider (n ∷ nodes) h k =
      let (vs, ps) = inspect_node roots n in
      let (ws, qs) = inspect_all roots nodes in
      let lengths : (length vs ≡ length ps) × (length ws ≡ length qs) = omega (
        arith,
        length-append vs ws,
        length-append ps qs,
        (inspect_node-Fits roots n).0,
        (inspect_all-Fits roots nodes).0,
      ) in
      ground (
        arith,
        all-append (is_path_allowed wider) ps qs,
        inspect_node-wider n lengths.0,
        inspect_all-wider nodes lengths.1,
      )

contains-filter :
    (q : Text → Bool) (x : Text) (xs : List Text)
    → q x ≡ true
    → contains x (filter q xs) ≡ contains x xs
contains-filter q x [] h = refl
contains-filter q x (y ∷ xs) h =
    ground (arith, contains-filter q x xs, text_eq.decides y x, λ (e : y ≡ x). ap q e)

pub contains-unique : (x : Text) (xs : List Text) → contains x (unique xs) ≡ contains x xs
unfolding unique
contains-unique x [] = refl
contains-unique x (y ∷ xs) = elim (Bool-cases (y == x)) [
  | inl same ↦ ground arith
  | inr differs ↦ ground (
    arith,
    contains-unique x xs,
    text_eq.decides y x,
    text_eq.decides x y,
    contains-filter (λ z. not (z == y)) x (unique xs),
  )
]

more_roots :
    (base : Text) (granted new : List Text) (root : Text)
    → contains root (guard_roots (base ∷ granted)) ≡ true
    → contains root (guard_roots (base ∷ (granted ++ new))) ≡ true
unfolding guard_roots
more_roots base granted new root h = ground (
  arith,
  contains-unique root (base ∷ (granted ++ allowed_path_roots)),
  contains-unique root (base ∷ ((granted ++ new) ++ allowed_path_roots)),
  contains-append root granted allowed_path_roots,
  contains-append root (granted ++ new) allowed_path_roots,
  contains-append root granted new,
)

verdict_of-only :
    (r : Findings)
    → only_paths (verdict_of r) ≡ true
    → (verdict_of r ≡ record {
      ok = false;
      reason = (verdict_of r).reason;
      syntax_error = false;
      violations = r.0;
      paths = r.1;
    })
      × (length r.0 ≡ length r.1)
unfolding only_paths verdict_of
verdict_of-only ([], ps) h = absurd (ground arith)
verdict_of-only (v ∷ vs, ps) h =
    (refl, ground (arith, nat_eq.decides (length (v ∷ vs)) (length ps)))

parsed-only :
    (extra_roots : List Text) (p : Parsed)
    → only_paths (scan_parsed extra_roots p) ≡ true
    → (tree : Node) × (p ≡ program tree)
parsed-only extra_roots (syntax message line) h =
    absurd (unfold scan_parsed only_paths in ground arith)
parsed-only extra_roots (program tree) h = (tree, refl)

-- A scan whose only findings are paths is that of a program that was read.
scan-only :
    (parse : Text → Parsed) (extra_roots : List Text) (code : Text)
    → only_paths (scan parse extra_roots code) ≡ true
    → (is_nil (strip code) ≡ false) × (tree : Node) × (parse code ≡ program tree)
unfolding scan
scan-only parse extra_roots code h = elim (Bool-cases (is_nil (strip code))) [
  | inl blank ↦ absurd (unfold only_paths in ground arith)
  | inr present ↦
      let (tree, e) = parsed-only extra_roots (parse code) (rw present at h) in (present, tree, e)
]

scan_program :
    (parse : Text → Parsed) (extra_roots : List Text) (code : Text) (tree : Node)
    → is_nil (strip code) ≡ false
    → parse code ≡ program tree
    → scan parse extra_roots code ≡ verdict_of (inspect_all (guard_roots extra_roots) (walk tree))
unfolding scan scan_parsed
scan_program parse extra_roots code tree present e = rw (present, e) refl

-- A scan whose only findings are paths lists exactly these, each with its sentence, so that consent to
-- the paths waves nothing else through.
pub only_paths-outside :
    (parse : Text → Parsed) (extra_roots : List Text) (code : Text)
    → only_paths (scan parse extra_roots code) ≡ true
    → (scan parse extra_roots code).violations ≡ map outside (scan parse extra_roots code).paths
only_paths-outside parse extra_roots code h =
    let (present, tree, e) = scan-only parse extra_roots code h in
    let found = inspect_all (guard_roots extra_roots) (walk tree) in
    let same = scan_program parse extra_roots code tree present e in
    let (verdict, lengths) = verdict_of-only found (rw same at h) in
    rw same (rw verdict ((inspect_all-Fits (guard_roots extra_roots) (walk tree)).1 lengths))

verdict_of-empty : (r : Findings) → r.0 ≡ [] → (verdict_of r).ok ≡ true
unfolding verdict_of
verdict_of-empty ([], ps) h = refl
verdict_of-empty (v ∷ vs, ps) h = absurd (ground arith)

-- Once every path that a scan listed lies in roots that were granted behind the working directory, a
-- program whose only findings were paths is accepted.
pub granted_paths-accepted :
    (parse : Text → Parsed) (base : Text) (granted new : List Text) (code : Text)
    → only_paths (scan parse (base ∷ granted) code) ≡ true
    → all
        (is_path_allowed (guard_roots (base ∷ (granted ++ new))))
        (scan parse (base ∷ granted) code).paths
      ≡ true
    → (scan parse (base ∷ (granted ++ new)) code).ok ≡ true
granted_paths-accepted parse base granted new code h k =
    let (present, tree, e) = scan-only parse (base ∷ granted) code h in
    let roots = guard_roots (base ∷ granted) in
    let wider = guard_roots (base ∷ (granted ++ new)) in
    let same = scan_program parse (base ∷ granted) code tree present e in
    let (verdict, lengths) = verdict_of-only (inspect_all roots (walk tree)) (rw same at h) in
    let nothing =
      inspect_all-wider roots wider
        (λ p.
          is_path_allowed_mono roots wider p (unfold guard_roots unique in refl)
            (more_roots base granted new))
        (walk tree) lengths (rw (same, verdict) at k) in
    rw (scan_program parse (base ∷ (granted ++ new)) code tree present e)
      (verdict_of-empty (inspect_all wider (walk tree)) nothing)
