-- ===== src/Tests/Offered.antt =====
-- Analyses that recur, and addresses of skills.
use wizard_w.Prelude.{
  ℕ, ◌≡◌, ◌<◌, ◌++◌, refl, true, false, List, [], ◌∷◌, none, some, arith, contains, nat_eq,
}
use wizard_w.Prelude.Text.{
  Text, codes, text_eq, list_beq, normalised, strip, lstrip, lower, starts_with, occurs,
}
use wizard_w.Prelude.Split.{split_on, join}
use wizard_w.Skills.Candidates.{Table, recurring, empty_table, settle_skill_candidate}
use wizard_w.Skills.Promotion.{
  PromotionSettings, Ranking, Turn, Call, recording, offers, after, perform,
}
use wizard_w.Skills.Source.{
  ok, SkillSource, repository, slash, parse_source, repo_source, is_segment, is_ref, remove_suffix,
  git_suffix, address, parse_url, clean_host, last_part, repository_at, place_of, gist_at,
  check_segment, check_path, check_parts, shorthand, fits, without_line_feed,
}
use wizard_w.Prelude.Dict.{lookup, insert}
use wizard_w.Skills.Index.{
  InstallRecord, getting, forgetting, reloading, new_index, answers, first_installed, found, done,
}
use wizard_w.Skills.Index.Spec.{step, spec_answers}
use wizard_w.Skills.Index.Stored.{IsStored}
use wizard_w.Skills.Index.Refines.{answers-refine}
use wizard_w.Prelude.Url.{
  urlparse, urlsplit, split_scheme, scheme_of, split_netloc, lstrip_controls, without_params,
  uses_params, break,
}
use wizard_w.Skills.Source.Safe.{IsSafe, parse_source-IsSafe}
use wizard_w.Skills.Source.Climbs.{parent, climbing_ref-accepted}

abbrev twice : PromotionSettings
twice = record { enabled = true; threshold = 2; min_similarity = 90 }

abbrev first_matches : Ranking
first_matches query texts = some (100, 0)

abbrev turn_at : ℕ → Turn
turn_at now = record {
  kind = recurring;
  instruction = codes "revenue by region";
  columns = [];
  plan = codes "group";
  code_text = codes "...";
  now = now;
  reads = true;
  writes = true;
}

abbrev history : List Call
history = recording (turn_at 1) ∷ recording (turn_at 2) ∷ recording (turn_at 3) ∷ []

offered_once : offers twice first_matches history empty_table ≡ 1 ∷ []
unfolding offers perform list_beq strip lstrip
offered_once = refl

abbrev first_turn : List Call
first_turn = recording (turn_at 1) ∷ []

abbrev dismissed : Table
dismissed =
    (settle_skill_candidate true 1 none (after twice first_matches first_turn empty_table)).1

abbrev skills_url : Text
skills_url = codes "https://github.com/acme/skills/tree/main/data/eda"

abbrev skills_source : SkillSource
skills_source =
    repository (codes "acme") (codes "skills") (codes "main") (codes "data/eda") skills_url

skills_parsed : parse_source (λ netloc. true) [] skills_url ≡ ok skills_source
unfolding parse_source repo_source parse_url urlparse urlsplit split_scheme scheme_of split_netloc
    lstrip_controls without_params uses_params break clean_host last_part repository_at place_of
    gist_at check_segment check_path check_parts address shorthand is_segment is_ref fits
    without_line_feed remove_suffix starts_with occurs strip lstrip lower list_beq split_on join
skills_parsed = refl

parse_source-IsSafe_example : IsSafe skills_source
parse_source-IsSafe_example =
    parse_source-IsSafe (λ netloc. true) [] skills_url skills_source skills_parsed

abbrev acme : Text
acme = codes "acme"

abbrev main_ref : Text
main_ref = codes "main"

acme-is_segment : is_segment acme ≡ true
unfolding is_segment fits without_line_feed
acme-is_segment = refl

acme_is_name : is_segment (remove_suffix git_suffix acme) ≡ true
unfolding is_segment fits without_line_feed remove_suffix starts_with
acme_is_name = refl

main_is_ref : is_ref main_ref ≡ true
unfolding is_ref fits without_line_feed
main_is_ref = refl

main_unstripped : strip (main_ref ++ (slash ∷ parent)) ≡ main_ref ++ (slash ∷ parent)
unfolding strip lstrip
main_unstripped = refl

climbing_ref-accepted_example :
    (repo_source acme acme (main_ref ++ (slash ∷ parent)) [] (codes "github.com")
      ≡ ok (
          repository acme (remove_suffix git_suffix acme) (main_ref ++ (slash ∷ parent)) [] (
            address
              (codes "github.com")
              acme
              (remove_suffix git_suffix acme)
              (main_ref ++ (slash ∷ parent))
              [])))
    × (contains parent (split_on slash (main_ref ++ (slash ∷ parent))) ≡ true)
climbing_ref-accepted_example =
    climbing_ref-accepted acme acme main_ref (codes "github.com") acme-is_segment acme_is_name
      main_is_ref refl (omega arith) main_unstripped

abbrev eda_record : ℕ → InstallRecord
eda_record now = record {
  name = codes "eda";
  source = skills_source;
  sha = codes "4f2a";
  installed_at = now;
  updated_at = now;
}

eda_record-IsStored : (now : ℕ) → 0 < now → IsStored (eda_record now)
unfolding strip lstrip lower
eda_record-IsStored now h = record {
  keyed = unfold normalised in refl;
  named = refl;
  trimmed = refl;
  pinned = refl;
  installed = h;
  updated = h;
}

abbrev installs : List wizard_w.Skills.Index.Call
installs =
    wizard_w.Skills.Index.recording 1 true (eda_record 1)
    ∷ reloading
    ∷ wizard_w.Skills.Index.recording 5 true (eda_record 5)
    ∷ forgetting 6 false (codes "EDA")
    ∷ getting 7 (codes " Eda")
    ∷ []

answers-refine_example : answers installs new_index ≡ spec_answers installs []
answers-refine_example = answers-refine installs (
  eda_record-IsStored 1 (omega arith),
  (tt, (eda_record-IsStored 5 (omega arith), (tt, (tt, tt)))),
)

installs_answered :
    spec_answers installs []
    ≡ done true
      ∷ done true
      ∷ done true
      ∷ done false
      ∷ found (some (record (eda_record 5) { installed_at = 1 }))
      ∷ []
unfolding spec_answers step first_installed normalised strip lstrip lower list_beq lookup insert
installs_answered = refl
