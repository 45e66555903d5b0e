-- ===== src/Skills/Source.antt =====
-- backend/src/core/skills/source.py: reading the address of a skill. Errors are values with what their
-- sentences name; `usable` is the check of a netloc by Python's library (see Prelude.Url).
pub mod Safe
pub mod Climbs
use wizard_w.Prelude.{
  ℕ, suc, ◌+◌, Bool, true, false, ◌&&◌, ◌||◌, not, List, [], ◌∷◌, ◌++◌, Option, none, some,
  if◌then◌else◌, filter, any, all, contains, length, leb, drop, ◌==◌, nat_eq,
}
use mathlib.Core.List.{reverse}
use wizard_w.Prelude.Text.{Text, codes, text_eq, starts_with, occurs, strip, lower}
use wizard_w.Prelude.Split.{split_on, join, first_part}
use wizard_w.Prelude.Url.{break, is_alphanumeric, urlparse}

pub data SourceError : Type 0 where
  empty_address unusable_url : SourceError
  no_host : Text → SourceError
  no_gist : SourceError
  foreign_host : Text → SourceError
  no_repository : Text → SourceError
  odd_marker : Text → SourceError
  no_ref : Text → SourceError
  bad_segment : Text → Text → SourceError
  bad_ref : Text → SourceError
  climbing_path : Text → SourceError

pub data Outcome {ℓ} (A : Type ℓ) : Type ℓ where
  ok : A → Outcome A
  err : SourceError → Outcome A

infixl 5 ◌>>=◌
abbrev pub ◌>>=◌ {ℓ κ} : {A : Type ℓ} {B : Type κ} → Outcome A → (A → Outcome B) → Outcome B
ok a >>= f = f a
err e >>= f = err e

-- `SkillSource`, its kind as a constructor with the fields that the kind has.
pub data SkillSource : Type 0 where
  -- owner, repo, ref, path and url
  repository : Text → Text → Text → Text → Text → SkillSource
  -- gist_id and url
  gist : Text → Text → SkillSource

abbrev pub slash : ℕ
slash = b'/'

-- One line feed at the end, which `$` of a regular expression lets pass.
unfoldable pub without_line_feed : Text → Text
without_line_feed [] = []
without_line_feed (c ∷ []) = if c == 10 then [] else c ∷ []
without_line_feed (c ∷ d ∷ s) = c ∷ without_line_feed (d ∷ s)

abbrev pub is_segment_char : ℕ → Bool
is_segment_char c = is_alphanumeric c || c == b'.' || c == b'_' || c == b'-'

abbrev pub is_ref_char : ℕ → Bool
is_ref_char c = is_segment_char c || c == slash

-- `^[A-Za-z0-9][...]{0,most}$` up to the line feed
unfoldable pub fits : (ℕ → Bool) → ℕ → Text → Bool
fits allowed most [] = false
fits allowed most (c ∷ s) = is_alphanumeric c && all allowed s && leb (length s) most

-- `SEGMENT_PATTERN.match`
unfoldable pub is_segment : Text → Bool
is_segment value = fits is_segment_char 99 (without_line_feed value)

-- `REF_PATTERN.match`
unfoldable pub is_ref : Text → Bool
is_ref value = fits is_ref_char 199 (without_line_feed value)

-- `_check_segment`
unfoldable pub check_segment : Text → Text → Outcome Text
check_segment value what = if is_segment value then ok value else err (bad_segment value what)

abbrev pub is_nil {ℓ} : {A : Type ℓ} → List A → Bool
is_nil [] = true
is_nil (x ∷ xs) = false

-- `[part for part in s.split("/") if part]`
abbrev pub filled_parts : Text → List Text
filled_parts s = filter (λ part. not (is_nil part)) (split_on slash s)

abbrev pub is_dots : Text → Bool
is_dots part = part == b'.' ∷ [] || part == b'.' ∷ b'.' ∷ []

unfoldable pub check_parts : List Text → Outcome (List Text)
check_parts [] = ok []
check_parts (part ∷ parts) = check_segment part (codes "path segment") >>= λ first.
    check_parts parts >>= λ rest. ok (first ∷ rest)

-- `_check_path`; the slashes around the path give empty parts.
unfoldable pub check_path : Text → Outcome Text
check_path value =
    let parts = filled_parts value in
    if any is_dots parts
    then err (climbing_path value)
    else (check_parts parts >>= λ checked. ok (join (slash ∷ []) checked))

unfoldable pub remove_suffix : Text → Text → Text
remove_suffix suffix value =
    if starts_with (reverse suffix) (reverse value)
    then reverse (drop (length suffix) (reverse value))
    else value

abbrev pub git_suffix : Text
git_suffix = codes ".git"

-- The canonical address of a repository.
unfoldable pub address : Text → Text → Text → Text → Text → Text
address host owner repo ref path =
    let base = codes "https://" ++ (host ++ (slash ∷ owner ++ (slash ∷ repo))) in
    if not (is_nil ref)
    then base ++ (codes "/tree/" ++ (ref ++ (if is_nil path then [] else slash ∷ path)))
    else if not (is_nil path)
    then base ++ (codes "/tree/HEAD/" ++ path)
    else base

-- `_repo_source`
unfoldable pub repo_source : Text → Text → Text → Text → Text → Outcome SkillSource
repo_source owner repo ref path host =
    let cleaned_ref = strip ref in
    if not (is_nil cleaned_ref) && not (is_ref cleaned_ref)
    then err (bad_ref ref)
    else (check_segment owner (codes "repository owner") >>= λ clean_owner.
        check_segment (remove_suffix git_suffix repo) (codes "repository name") >>= λ clean_repo.
        check_path path >>= λ clean_path. ok (
          repository clean_owner clean_repo cleaned_ref clean_path
            (address host clean_owner clean_repo cleaned_ref clean_path)))

unfoldable pub last_part : List Text → Text
last_part [] = []
last_part (p ∷ []) = p
last_part (p ∷ q ∷ ps) = last_part (q ∷ ps)

-- `_clean_host`
unfoldable pub clean_host : Text → Text
clean_host netloc =
    let host = lower (strip (first_part (split_on b':' (last_part (split_on b'@' netloc))))) in
    if starts_with (codes "www.") host then drop 4 host else host

-- `rest[:-1]` where the last part is a Markdown file.
unfoldable pub drop_file : List Text → List Text
drop_file [] = []
drop_file (p ∷ []) =
    if starts_with (reverse (codes ".md")) (reverse (lower p))
      || starts_with (reverse (codes ".markdown")) (reverse (lower p))
    then []
    else p ∷ []
drop_file (p ∷ q ∷ ps) = p ∷ drop_file (q ∷ ps)

-- The ref and the path behind `tree` or `blob`.
unfoldable pub place_of : Text → List Text → Outcome (Text × Text)
place_of url [] = ok ([], [])
place_of url (marker ∷ []) =
    if marker == codes "tree" || marker == codes "blob"
    then err (no_ref url)
    else err (odd_marker url)
place_of url (marker ∷ ref ∷ rest) =
    if marker == codes "tree"
    then ok (ref, join (slash ∷ []) rest)
    else if marker == codes "blob"
    then ok (ref, join (slash ∷ []) (drop_file rest))
    else err (odd_marker url)

unfoldable pub repository_at : Text → Text → List Text → Outcome SkillSource
repository_at url host (owner_part ∷ repo_part ∷ rest) =
    check_segment owner_part (codes "repository owner") >>= λ owner.
    check_segment (remove_suffix git_suffix repo_part) (codes "repository name") >>= λ repo.
    place_of url rest >>= λ (ref, path). repo_source owner repo ref path host
repository_at url host _ = err (no_repository url)

unfoldable pub gist_at : List Text → Outcome SkillSource
gist_at [] = err no_gist
gist_at (p ∷ ps) = check_segment (last_part (p ∷ ps)) (codes "gist id") >>= λ gist_id.
    ok (gist gist_id (codes "https://gist.github.com/" ++ gist_id))

-- The part of `parse_source` after the shorthand.
unfoldable pub parse_url : (Text → Bool) → List Text → Text → Text → Outcome SkillSource
parse_url usable extra_hosts url raw = elim (urlparse usable raw) [
  | none ↦ err unusable_url
  | some (netloc, path) ↦
      let host = clean_host netloc in
      let segments = filled_parts path in
      if is_nil host
      then err (no_host url)
      else if host == codes "gist.github.com"
      then gist_at segments
      else if not (host == codes "github.com" || contains host extra_hosts)
      then err (foreign_host host)
      else repository_at url host segments
]

-- `owner/repo` and `owner/repo@ref`, where the address is one of them.
unfoldable pub shorthand : Text → Option (Text × Text × Text)
shorthand raw =
    let (before, behind) = break (λ c. c == b'@') raw in
    elim (filled_parts before) [
      | owner ∷ repo ∷ [] ↦
          if contains b'.' owner then none else some (owner, repo, strip (drop 1 behind))
      | _ ↦ none
    ]

-- `parse_source`
unfoldable pub parse_source : (Text → Bool) → List Text → Text → Outcome SkillSource
parse_source usable extra_hosts url =
    let raw = strip url in
    if is_nil raw
    then err empty_address
    else if occurs (codes "://") raw || starts_with (codes "//") raw
    then parse_url usable extra_hosts url raw
    else elim (shorthand raw) [
      | some (owner, repo, ref) ↦ repo_source owner repo ref [] (codes "github.com")
      | none ↦ parse_url usable extra_hosts url (codes "https://" ++ raw)
    ]
