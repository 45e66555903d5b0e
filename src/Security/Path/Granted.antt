-- ===== src/Security/Path/Granted.antt =====
-- What consent for an absolute path opens.
use wizard_w.Prelude.{
  ◌≡◌, ◌≢◌, refl, ap, ◌∙◌, Bool, true, false, ◌&&◌, ◌||◌, not, List, [], ◌∷◌, ◌++◌, arith,
  if◌then◌else◌, any, contains, ◌==◌, nat_eq, Bool-cases, inl, inr,
}
use wizard_w.Prelude.Text.{Text, codes, text_eq, list_beq, starts_with, occurs}
use wizard_w.Security.Path.{
  slash, is_abs, normpath, target, rstrip_slashes, is_below, is_path_allowed, dir_part, dirname,
  granted_root, fold_backslashes,
}

-- A path from the root as `posixpath.normpath` leaves it, without backslashes, and no URL.
abbrev pub is_plain : Text → Bool
is_plain path =
    is_abs path
    && fold_backslashes path == path
    && normpath path == path
    && not (occurs (codes "://") path)

rstrip-rstrip : (s : Text) → rstrip_slashes (rstrip_slashes s) ≡ rstrip_slashes s
unfolding rstrip_slashes
rstrip-rstrip [] = refl
rstrip-rstrip (c ∷ s) = stripped (rstrip_slashes s) (rstrip-rstrip s)
  where
    stripped :
        (t : Text)
        → rstrip_slashes t ≡ t
        → let r : Text = elim t as (λ x. Text) [
          | [] ↦ if c == slash then [] else c ∷ []
          | d ∷ u ↦ c ∷ d ∷ u
        ] in
          rstrip_slashes r ≡ r
    stripped [] e = elim (Bool-cases (c == slash)) [
      | inl there ↦ rw there refl
      | inr other ↦ rw (other, other) refl
    ]
    stripped (d ∷ u) e =
        ap
          (λ (v : Text). elim v as (λ x. Text) [
            | [] ↦ if c == slash then [] else c ∷ []
            | k ∷ w ↦ c ∷ k ∷ w
          ])
          e

abbrev Leads : Text → Text → Type 0
Leads head path = starts_with (rstrip_slashes head ++ (slash ∷ [])) path ≡ true

dir_part-Leads : (path : Text) → dir_part path ≢ [] → Leads (dir_part path) path
unfolding dir_part
dir_part-Leads [] n = absurd (n refl)
dir_part-Leads (c ∷ s) n = by_rest (dir_part s) n (dir_part-Leads s)
  where
    by_strip :
        (t : Text)
        → starts_with (t ++ (slash ∷ [])) s ≡ true
        → starts_with
            ((elim t as (λ x. Text) [ [] ↦ if c == slash then [] else c ∷ [] | k ∷ w ↦ c ∷ k ∷ w ])
              ++ (slash ∷ []))
            (c ∷ s)
          ≡ true
    by_strip [] h = unfold starts_with in (ground (arith, h, nat_eq.decides c c))
    by_strip (k ∷ w) h = unfold starts_with in (ground (arith, h, nat_eq.decides c c))

    by_rest :
        (d : Text)
        → (elim d as (λ x. Text) [ [] ↦ if c == slash then c ∷ [] else [] | k ∷ t ↦ c ∷ k ∷ t ])
          ≢ []
        → (d ≢ [] → Leads d s)
        → Leads
            (elim d as (λ x. Text) [ [] ↦ if c == slash then c ∷ [] else [] | k ∷ t ↦ c ∷ k ∷ t ])
            (c ∷ s)
    by_rest [] k h = elim (Bool-cases (c == slash)) [
      | inl there ↦ rw there (unfold rstrip_slashes starts_with in (ground (arith, there)))
      | inr other ↦ absurd ((rw other at k) refl)
    ]
    by_rest (k ∷ t) m h = unfold rstrip_slashes in (by_strip (rstrip_slashes (k ∷ t)) (h (λ e. cc)))

dirname-below : (path : Text) → dir_part path ≢ [] → is_below path (dirname path) ≡ true
unfolding is_below dirname
dirname-below path n = elim (Bool-cases (rstrip_slashes (dir_part path) == [])) [
  | inl all_slashes ↦ rw all_slashes (ground (arith, dir_part-Leads path n))
  | inr kept ↦ rw (kept, rstrip-rstrip (dir_part path)) (ground (arith, dir_part-Leads path n))
]

dir_part-is_abs : (path : Text) → is_abs path ≡ true → dir_part path ≢ []
unfolding dir_part
dir_part-is_abs [] h = absurd (ground (arith, h))
dir_part-is_abs (c ∷ s) h = first (dir_part s)
  where
    first :
        (d : Text)
        → (elim d as (λ x. Text) [ [] ↦ if c == slash then c ∷ [] else [] | k ∷ t ↦ c ∷ k ∷ t ])
          ≢ []
    first [] e = absurd (ground (arith, h, e))
    first (k ∷ t) e = absurd (ground (arith, e))

dirname-present : (path : Text) → dir_part path ≢ [] → (dirname path == []) ≡ false
unfolding dirname
dirname-present path n = elim (Bool-cases (rstrip_slashes (dir_part path) == [])) [
  | inl all_slashes ↦ rw all_slashes (ground (arith, n, text_eq.decides (dir_part path) []))
  | inr kept ↦ rw (kept, kept) refl
]

-- The root that is granted for such a path opens the path.
granted_root-below : (path : Text) → is_plain path ≡ true → is_below path (granted_root path) ≡ true
unfolding granted_root
granted_root-below path h =
    let same : fold_backslashes path ≡ path =
      (text_eq.decides (fold_backslashes path) path).0 (ground (arith, h)) in
    let head = dir_part-is_abs path (ground (arith, h)) in
    rw (same, dirname-present path head) (dirname-below path head)

any-contains :
    (q : Text → Bool) (x : Text) (xs : List Text)
    → q x ≡ true
    → contains x xs ≡ true
    → any q xs ≡ true
any-contains q x [] h k = absurd (ground (arith, k))
any-contains q x (y ∷ xs) h k = elim (Bool-cases (y == x)) [
  | inl same ↦ rw (ap q ((text_eq.decides y x).0 same) ∙ h) refl
  | inr other ↦ ground (arith, k, any-contains q x xs h)
]

target-plain :
    (roots : List Text) (path : Text)
    → fold_backslashes path ≡ path
    → is_abs path ≡ true
    → target roots path ≡ path
unfolding target
target-plain roots path same rooted = rw (same, rooted) refl

past_tests :
    (a b q : Bool)
    → a ≡ false
    → b ≡ false
    → q ≡ true
    → (if a then false else if b then false else q) ≡ true
past_tests a b q h k l = rw (h, k) l

rooted-ne-backslash :
    (path : Text) → is_abs path ≡ true → starts_with (b'\\' ∷ b'\\' ∷ []) path ≡ false
unfolding starts_with
rooted-ne-backslash [] h = absurd (ground (arith, h))
rooted-ne-backslash (c ∷ s) h = ground (arith, h, nat_eq.decides c slash, nat_eq.decides b'\\' c)

rooted-ne-empty : (path : Text) → is_abs path ≡ true → (path == []) ≡ false
rooted-ne-empty [] h = absurd (ground (arith, h))
rooted-ne-empty (c ∷ s) h = unfold list_beq in refl

pub granted_root-opens :
    (roots : List Text) (path : Text)
    → is_plain path ≡ true
    → contains (granted_root path) roots ≡ true
    → is_path_allowed roots path ≡ true
unfolding is_path_allowed
granted_root-opens roots path h k =
    let same : fold_backslashes path ≡ path =
      (text_eq.decides (fold_backslashes path) path).0 (ground (arith, h)) in
    let normal : normpath path ≡ path =
      (text_eq.decides (normpath path) path).0 (ground (arith, h)) in
    let rooted : is_abs path ≡ true = ground (arith, h) in
    let below : any (is_below path) roots ≡ true =
      any-contains (is_below path) (granted_root path) roots (granted_root-below path h) k in
    let there : normpath (target roots path) ≡ path =
      ap normpath (target-plain roots path same rooted) ∙ normal in
    past_tests (path == []) (occurs (codes "://") path || starts_with (b'\\' ∷ b'\\' ∷ []) path)
      (any (is_below (normpath (target roots path))) roots) (rooted-ne-empty path rooted)
      (ground (arith, h, rooted-ne-backslash path rooted)) (rw there below)
