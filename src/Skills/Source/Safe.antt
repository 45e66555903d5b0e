-- ===== src/Skills/Source/Safe.antt =====
-- What an address that was read can name.
use wizard_w.Prelude.{
  ℕ, ◌≡◌, ◌≢◌, ◌⊎◌, inl, inr, refl, sym, ◌∙◌, Bool, true, false, ◌&&◌, ◌||◌, not, List, [], ◌∷◌,
  ◌++◌, Option, none, some, arith, if◌then◌else◌, any, all, contains, ◌==◌, nat_eq,
}
use mathlib.Core.Path.{subst}
use wizard_w.Prelude.Text.{Text, codes, text_eq, list_beq, starts_with, occurs, strip}
use wizard_w.Prelude.Split.{split_on, join, split_on-join}
use wizard_w.Prelude.Url.{urlparse, is_alphanumeric}
use wizard_w.Skills.Source.{
  Outcome, ok, err, ◌>>=◌, SkillSource, repository, gist, slash, without_line_feed, is_segment_char,
  fits, is_segment, is_ref, check_segment, bad_segment, climbing_path, bad_ref, unusable_url,
  no_host, foreign_host, is_nil, is_dots, filled_parts, check_parts, check_path, repo_source,
  last_part, clean_host, place_of, repository_at, gist_at, parse_url, shorthand, parse_source,
  remove_suffix, git_suffix,
}

-- What holds of a result, where there is one.
abbrev Ensures {ℓ} : {A : Type ℓ} → (A → Type 0) → Outcome A → Type 0
Ensures P (ok a) = P a
Ensures P (err e) = Unit

bind-Ensures {ℓ κ} :
    {A : Type ℓ} {B : Type κ} (P : A → Type 0) (Q : B → Type 0) (m : Outcome A) (f : A → Outcome B)
    → Ensures P m
    → ((a : A) → P a → Ensures Q (f a))
    → Ensures Q (m >>= f)
bind-Ensures P Q (ok a) f p k = k a p
bind-Ensures P Q (err e) f p k = tt

choice-Ensures {ℓ} :
    {A : Type ℓ} (P : A → Type 0) (b : Bool) (m n : Outcome A)
    → (b ≡ true → Ensures P m)
    → (b ≡ false → Ensures P n)
    → Ensures P (if b then m else n)
choice-Ensures P true m n h k = h refl
choice-Ensures P false m n h k = k refl

Ensures-ok {ℓ} :
    {A : Type ℓ} (P : A → Type 0) (m : Outcome A) (a : A) → Ensures P m → m ≡ ok a → P a
Ensures-ok P m a h e = subst (Ensures P) e h

-- A piece of a URL path that is one segment of it, and stays where it is.
abbrev pub IsPlain : Text → Type 0
IsPlain s = (s ≢ []) × (contains slash s ≡ false) × (is_dots s ≡ false)

abbrev pub ArePlain : List Text → Type 0
ArePlain [] = Unit
ArePlain (s ∷ ss) = IsPlain s × ArePlain ss

-- The kinds of source, with what reaches a request.
abbrev pub IsSafe : SkillSource → Type 0
IsSafe (repository owner repo ref path url) =
    IsPlain owner
    × IsPlain repo
    × ((ref ≡ []) ⊎ (is_ref ref ≡ true))
    × ((path ≡ []) ⊎ ArePlain (split_on slash path))
IsSafe (gist gist_id url) = IsPlain gist_id

contains-without_line_feed : (s : Text) → contains slash (without_line_feed s) ≡ contains slash s
unfolding without_line_feed
contains-without_line_feed [] = refl
contains-without_line_feed (c ∷ []) = ground (arith, nat_eq.decides c 10, nat_eq.decides c slash)
contains-without_line_feed (c ∷ d ∷ s) = ground (arith, contains-without_line_feed (d ∷ s))

segment_chars-slash : (s : Text) → all is_segment_char s ≡ true → contains slash s ≡ false
segment_chars-slash [] h = refl
segment_chars-slash (c ∷ s) h = ground (arith, segment_chars-slash s)

fits-slash : (n : ℕ) (s : Text) → fits is_segment_char n s ≡ true → contains slash s ≡ false
unfolding fits
fits-slash n [] h = refl
fits-slash n (c ∷ s) h = ground (arith, segment_chars-slash s)

-- A segment begins with a letter or a digit.
is_segment-first : (c : ℕ) (s : Text) → is_segment (c ∷ s) ≡ true → is_alphanumeric c ≡ true
unfolding is_segment fits without_line_feed
is_segment-first c [] h = ground arith
is_segment-first c (d ∷ s) h = ground arith

is_segment-dots : (s : Text) → is_segment s ≡ true → is_dots s ≡ false
unfolding list_beq
is_segment-dots [] h = refl
is_segment-dots (c ∷ s) h = ground (arith, is_segment-first c s h)

is_segment-ne-nil : (s : Text) → is_segment s ≡ true → s ≢ []
unfolding is_segment fits without_line_feed
is_segment-ne-nil [] h e = ground arith
is_segment-ne-nil (c ∷ s) h e = cc

is_segment-IsPlain : (s : Text) → is_segment s ≡ true → IsPlain s
is_segment-IsPlain s h = (
  is_segment-ne-nil s h,
  sym (contains-without_line_feed s) ∙ fits-slash 99 (without_line_feed s) (unfold is_segment in h),
  is_segment-dots s h,
)

check_segment-Ensures : (value what : Text) → Ensures IsPlain (check_segment value what)
unfolding check_segment
check_segment-Ensures value what =
    choice-Ensures IsPlain (is_segment value) (ok value) (err (bad_segment value what))
      (is_segment-IsPlain value) (λ bad. tt)

check_parts-Ensures : (parts : List Text) → Ensures ArePlain (check_parts parts)
unfolding check_parts
check_parts-Ensures [] = tt
check_parts-Ensures (p ∷ parts) =
    bind-Ensures IsPlain ArePlain (check_segment p (codes "path segment")) _
      (check_segment-Ensures p (codes "path segment"))
      (λ first plain.
        bind-Ensures ArePlain ArePlain (check_parts parts) _ (check_parts-Ensures parts)
          (λ rest plain_rest. (plain, plain_rest)))

ArePlain-free : (ps : List Text) → ArePlain ps → all (λ q. not (contains slash q)) ps ≡ true
ArePlain-free [] h = refl
ArePlain-free (p ∷ ps) h = ground (arith, ArePlain-free ps h.1)

-- A path of a source: none, or plain segments.
abbrev pub IsPath : Text → Type 0
IsPath path = (path ≡ []) ⊎ ArePlain (split_on slash path)

join-IsPath : (ps : List Text) → ArePlain ps → IsPath (join (slash ∷ []) ps)
join-IsPath [] h = inl (unfold join in refl)
join-IsPath (p ∷ ps) h = inr (rw (split_on-join slash p ps (ArePlain-free (p ∷ ps) h)) h)

check_path-Ensures : (value : Text) → Ensures IsPath (check_path value)
unfolding check_path
check_path-Ensures value =
    let parts = filled_parts value in
    choice-Ensures IsPath (any is_dots parts) (err (climbing_path value)) _ (λ climbs. tt)
      (λ stays.
        bind-Ensures ArePlain IsPath (check_parts parts) _ (check_parts-Ensures parts) join-IsPath)

usable_ref :
    (ref : Text) → (not (is_nil ref) && not (is_ref ref)) ≡ false → (ref ≡ []) ⊎ (is_ref ref ≡ true)
usable_ref [] h = inl refl
usable_ref (c ∷ ref) h = inr (ground arith)

repo_source-Ensures :
    (owner repo ref path host : Text) → Ensures IsSafe (repo_source owner repo ref path host)
unfolding repo_source
repo_source-Ensures owner repo ref path host =
    choice-Ensures IsSafe (not (is_nil (strip ref)) && not (is_ref (strip ref))) (err (bad_ref ref))
      _ (λ bad. tt)
      (λ good.
        bind-Ensures IsPlain IsSafe (check_segment owner (codes "repository owner")) _
          (check_segment-Ensures owner (codes "repository owner"))
          (λ o plain_owner.
            bind-Ensures IsPlain IsSafe
              (check_segment (remove_suffix git_suffix repo) (codes "repository name")) _
              (check_segment-Ensures (remove_suffix git_suffix repo) (codes "repository name"))
              (λ r plain_repo.
                bind-Ensures IsPath IsSafe (check_path path) _ (check_path-Ensures path)
                  (λ p plain_path.
                    (plain_owner, plain_repo, usable_ref (strip ref) good, plain_path)))))

gist_at-Ensures : (segments : List Text) → Ensures IsSafe (gist_at segments)
unfolding gist_at
gist_at-Ensures [] = tt
gist_at-Ensures (p ∷ ps) =
    bind-Ensures IsPlain IsSafe (check_segment (last_part (p ∷ ps)) (codes "gist id")) _
      (check_segment-Ensures (last_part (p ∷ ps)) (codes "gist id")) (λ g plain. plain)

repository_at-Ensures :
    (url host : Text) (segments : List Text) → Ensures IsSafe (repository_at url host segments)
unfolding repository_at
repository_at-Ensures url host [] = tt
repository_at-Ensures url host (p ∷ []) = tt
repository_at-Ensures url host (p ∷ q ∷ rest) =
    bind-Ensures IsPlain IsSafe (check_segment p (codes "repository owner")) _
      (check_segment-Ensures p (codes "repository owner"))
      (λ owner plain_owner.
        bind-Ensures IsPlain IsSafe
          (check_segment (remove_suffix git_suffix q) (codes "repository name")) _
          (check_segment-Ensures (remove_suffix git_suffix q) (codes "repository name"))
          (λ repo plain_repo. by_place owner repo (place_of url rest)))
  where
    by_place :
        (owner repo : Text) (m : Outcome (Text × Text))
        → Ensures IsSafe (m >>= λ (ref, path). repo_source owner repo ref path host)
    by_place owner repo (ok (ref, path)) = repo_source-Ensures owner repo ref path host
    by_place owner repo (err e) = tt

parse_url-Ensures :
    (usable : Text → Bool) (extra_hosts : List Text) (url raw : Text)
    → Ensures IsSafe (parse_url usable extra_hosts url raw)
unfolding parse_url
parse_url-Ensures usable extra_hosts url raw = by_parts (urlparse usable raw)
  where
    by_parts :
        (parsed : Option (Text × Text))
        → Ensures IsSafe (elim parsed as (λ x. Outcome SkillSource) [
          | none ↦ err unusable_url
          | some (netloc, path) ↦
              let host = clean_host netloc in
              let segments = filled_parts path in
              if is_nil host
              then err (no_host url)
              else if host == codes "gist.github.com"
              then gist_at segments
              else if not (host == codes "github.com" || contains host extra_hosts)
              then err (foreign_host host)
              else repository_at url host segments
        ])
    by_parts none = tt
    by_parts (some (netloc, path)) =
        let host = clean_host netloc in
        choice-Ensures IsSafe (is_nil host) _ _ (λ h. tt)
          (λ h.
            choice-Ensures IsSafe (host == codes "gist.github.com") _ _
              (λ g. gist_at-Ensures (filled_parts path))
              (λ g.
                choice-Ensures IsSafe
                  (not (host == codes "github.com" || contains host extra_hosts)) _ _ (λ f. tt)
                  (λ f. repository_at-Ensures url host (filled_parts path))))

parse_source-Ensures :
    (usable : Text → Bool) (extra_hosts : List Text) (url : Text)
    → Ensures IsSafe (parse_source usable extra_hosts url)
unfolding parse_source
parse_source-Ensures usable extra_hosts url =
    let raw = strip url in
    choice-Ensures IsSafe (is_nil raw) _ _ (λ h. tt)
      (λ h.
        choice-Ensures IsSafe (occurs (codes "://") raw || starts_with (codes "//") raw) _ _
          (λ u. parse_url-Ensures usable extra_hosts url raw) (λ u. by_shorthand (shorthand raw)))
  where
    by_shorthand :
        (o : Option (Text × Text × Text))
        → Ensures IsSafe (elim o as (λ x. Outcome SkillSource) [
          | some (owner, repo, ref) ↦ repo_source owner repo ref [] (codes "github.com")
          | none ↦ parse_url usable extra_hosts url (codes "https://" ++ strip url)
        ])
    by_shorthand none = parse_url-Ensures usable extra_hosts url (codes "https://" ++ strip url)
    by_shorthand (some (owner, repo, ref)) =
        repo_source-Ensures owner repo ref [] (codes "github.com")

-- A source that was read from an address holds, of what reaches a request: an owner, a repository name
-- and a gist id that are single segments other than `.` and `..`; no path, or one of such segments;
-- and no ref, or one that the pattern of refs matches.
pub parse_source-IsSafe :
    (usable : Text → Bool) (extra_hosts : List Text) (url : Text) (s : SkillSource)
    → parse_source usable extra_hosts url ≡ ok s
    → IsSafe s
parse_source-IsSafe usable extra_hosts url s =
    Ensures-ok IsSafe (parse_source usable extra_hosts url) s
      (parse_source-Ensures usable extra_hosts url)
