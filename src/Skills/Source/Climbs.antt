-- ===== src/Skills/Source/Climbs.antt =====
-- What the pattern of refs lets through.
use wizard_w.Prelude.{
  ◌≡◌, ◌≤◌, refl, Bool, true, false, ◌&&◌, List, [], ◌∷◌, ◌++◌, arith, all, contains,
  contains-append, length, length-append, nat_eq,
}
use wizard_w.Prelude.Text.{Text, codes, text_eq, list_beq, strip}
use wizard_w.Prelude.Split.{split_on, join, split_on-append}
use wizard_w.Skills.Source.{
  ok, repository, slash, without_line_feed, is_ref_char, fits, is_ref, is_segment, check_segment,
  check_path, check_parts, remove_suffix, git_suffix, repo_source, address,
}

abbrev pub parent : Text
parent = codes ".."

without_line_feed-free : (s : Text) → contains 10 s ≡ false → without_line_feed s ≡ s
unfolding without_line_feed
without_line_feed-free [] h = refl
without_line_feed-free (c ∷ []) h = ground arith
without_line_feed-free (c ∷ d ∷ s) h = ground (arith, without_line_feed-free (d ∷ s))

all-append {ℓ} :
    {A : Type ℓ} (q : A → Bool) (xs ys : List A) → all q (xs ++ ys) ≡ (all q xs && all q ys)
all-append q [] ys = refl
all-append q (x ∷ xs) ys = ground (arith, all-append q xs ys)

fits-climbing :
    (ref : Text)
    → fits is_ref_char 199 ref ≡ true
    → length ref ≤ 197
    → fits is_ref_char 199 (ref ++ (slash ∷ parent)) ≡ true
unfolding fits
fits-climbing [] h n = absurd (ground arith)
fits-climbing (c ∷ ref) h n =
    ground (arith, all-append is_ref_char ref (slash ∷ parent), length-append ref (slash ∷ parent))

climbing-is_ref :
    (ref : Text)
    → contains 10 ref ≡ false
    → is_ref ref ≡ true
    → length ref ≤ 197
    → is_ref (ref ++ (slash ∷ parent)) ≡ true
unfolding is_ref
climbing-is_ref ref f h n =
    let free : contains 10 (ref ++ (slash ∷ parent)) ≡ false =
      ground (arith, contains-append 10 ref (slash ∷ parent)) in
    rw (without_line_feed-free (ref ++ (slash ∷ parent)) free)
      (fits-climbing ref (rw (without_line_feed-free ref f) at h) n)

check_segment-accepts :
    (value what : Text) → is_segment value ≡ true → check_segment value what ≡ ok value
unfolding check_segment
check_segment-accepts value what h = rw h refl

no_path : check_path [] ≡ ok []
unfolding check_path split_on check_parts join
no_path = refl

parent-component : contains parent (split_on slash parent) ≡ true
unfolding split_on list_beq
parent-component = refl

-- A ref may climb: wherever a ref of up to 197 characters (without a line feed) is accepted, a source
-- is accepted with the same ref and `/..` behind it, where that text has no white space to strip, for
-- an owner and a repository that are accepted; the ref that the source keeps has a component `..`.
pub climbing_ref-accepted :
    (owner repo ref host : Text)
    → is_segment owner ≡ true
    → is_segment (remove_suffix git_suffix repo) ≡ true
    → is_ref ref ≡ true
    → contains 10 ref ≡ false
    → length ref ≤ 197
    → strip (ref ++ (slash ∷ parent)) ≡ ref ++ (slash ∷ parent)
    → (repo_source owner repo (ref ++ (slash ∷ parent)) [] host
        ≡ ok (
            repository owner
              (remove_suffix git_suffix repo)
              (ref ++ (slash ∷ parent))
              []
              (address host owner (remove_suffix git_suffix repo) (ref ++ (slash ∷ parent)) [])))
      × (contains parent (split_on slash (ref ++ (slash ∷ parent))) ≡ true)
climbing_ref-accepted owner repo ref host o r h f n e = (
  unfold repo_source in
      rw
        (
          e,
          climbing-is_ref ref f h n,
          check_segment-accepts owner (codes "repository owner") o,
          check_segment-accepts (remove_suffix git_suffix repo) (codes "repository name") r,
          no_path,
        )
        (ground arith),
  ground (
    arith,
    parent-component,
    split_on-append slash ref parent,
    contains-append parent (split_on slash ref) (split_on slash parent),
  ),
)
