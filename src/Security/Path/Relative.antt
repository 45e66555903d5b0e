-- ===== src/Security/Path/Relative.antt =====
-- What consent for a path outside the roots opens.
use wizard_w.Prelude.{
  ℕ, ◌≡◌, ◌≢◌, refl, Bool, true, false, ◌&&◌, ◌||◌, not, List, [], ◌∷◌, ◌++◌, arith, ◌==◌, nat_eq,
  Bool-cases, any-append, inl, inr,
}
use wizard_w.Prelude.Text.{Text, text_eq, list_beq, starts_with}
use wizard_w.Prelude.Split.{join}
use wizard_w.Security.Path.{
  slash, is_abs, components, initial_slashes, normpath, target, rstrip_slashes, is_below,
  is_path_allowed, dir_part, dirname, granted_root, fold_backslashes,
}

rstrip-first :
    (c : ℕ) (s : Text) → (c == slash) ≡ false → rstrip_slashes (c ∷ s) ≡ c ∷ rstrip_slashes s
unfolding rstrip_slashes
rstrip-first c s h = ground arith

initial_slashes-first :
    (path : Text) → is_abs path ≡ true → (rest : Text) × (initial_slashes path ≡ slash ∷ rest)
unfolding initial_slashes starts_with
initial_slashes-first [] h = absurd (ground arith)
initial_slashes-first (c ∷ s) h =
    let two : Bool =
      starts_with (slash ∷ slash ∷ []) (c ∷ s)
      && not (starts_with (slash ∷ slash ∷ slash ∷ []) (c ∷ s)) in
    elim (Bool-cases two) [
      | inl yes_two ↦ (slash ∷ [], ground arith)
      | inr no_two ↦ ([], ground arith)
    ]

normpath-is_abs :
    (path : Text) → is_abs path ≡ true → (rest : Text) × (normpath path ≡ slash ∷ rest)
unfolding normpath
normpath-is_abs path h =
    let (rest, e) = initial_slashes-first path h in
    (rest ++ join (slash ∷ []) (components path), rw e refl)

-- A root that begins with no slash allows nothing below an absolute path.
relative-below :
    (path root : Text)
    → is_abs path ≡ true
    → is_abs root ≡ false
    → root ≢ []
    → is_below (normpath path) root ≡ false
unfolding is_below
relative-below path [] a r n = absurd (n refl)
relative-below path (c ∷ root) a r n =
    let (rest, e) = normpath-is_abs path a in
    rw (e, rstrip-first c root r) (relative_mismatch rest (rstrip_slashes root) c r)
  where
    relative_mismatch :
        (rest t : Text) (c : ℕ)
        → (c == slash) ≡ false
        → ((slash ∷ rest) == (c ∷ t) || starts_with ((c ∷ t) ++ (slash ∷ [])) (slash ∷ rest))
          ≡ false
    relative_mismatch rest t c h =
        unfold list_beq starts_with in
        (ground (arith, nat_eq.decides c slash, nat_eq.decides slash c))

dir_part-relative : (s : Text) → is_abs s ≡ false → is_abs (dir_part s) ≡ false
unfolding dir_part
dir_part-relative [] h = refl
dir_part-relative (c ∷ s) h = ground arith

rstrip-relative : (s : Text) → is_abs s ≡ false → is_abs (rstrip_slashes s) ≡ false
unfolding rstrip_slashes
rstrip-relative [] h = refl
rstrip-relative (c ∷ s) h = ground arith

dirname-relative : (s : Text) → is_abs s ≡ false → is_abs (dirname s) ≡ false
unfolding dirname
dirname-relative s h =
    let inner = dir_part-relative s h in ground (arith, inner, rstrip-relative (dir_part s) inner)

folded-relative : (s : Text) → is_abs (fold_backslashes s) ≡ false → is_abs s ≡ false
unfolding fold_backslashes
folded-relative [] h = refl
folded-relative (c ∷ s) h = ground arith

granted_root-relative :
    (path : Text)
    → path ≢ []
    → is_abs (fold_backslashes path) ≡ false
    → (is_abs (granted_root path) ≡ false) × (granted_root path ≢ [])
unfolding granted_root
granted_root-relative path n h =
    let folder = dirname (fold_backslashes path) in
    (
      ground (arith, folded-relative path h, dirname-relative (fold_backslashes path) h),
      λ e. ground (arith, text_eq.decides folder []),
    )

-- Consent for a relative path that was blocked widens nothing for it: where the working directory, the
-- first root, is absolute, the path stays blocked, wherever the root that was granted stands after it.
pub granted_relative-blocked :
    (base : Text) (before after : List Text) (path : Text)
    → path ≢ []
    → is_abs (fold_backslashes path) ≡ false
    → is_abs (target (base ∷ []) path) ≡ true
    → is_path_allowed (base ∷ (before ++ after)) path ≡ false
    → is_path_allowed (base ∷ (before ++ (granted_root path ∷ after))) path ≡ false
unfolding is_path_allowed target
granted_relative-blocked base before after path n r a h =
    let (relative, present) = granted_root-relative path n r in
    ground (
      arith,
      relative-below (target (base ∷ []) path) (granted_root path) a relative present,
      any-append (is_below (normpath (target (base ∷ []) path))) before after,
      any-append (is_below (normpath (target (base ∷ []) path))) before (granted_root path ∷ after),
    )
