-- ===== src/Skills/Index/Stored.antt =====
-- Records on their way through the file.
use wizard_w.Prelude.{
  ℕ, ◌≡◌, ◌<◌, refl, sym, ◌∙◌, ap, false, [], ◌∷◌, ◌++◌, none, some, arith, nat_eq, append_assoc,
  append-nil,
}
use wizard_w.Prelude.Dict.{lookup, insert, UniqueKeys, lookup-append}
use wizard_w.Prelude.Text.{Text, text_eq, list_beq, strip, normalised}
use wizard_w.Skills.Source.{SkillSource, repository, gist, is_nil}
use wizard_w.Skills.Index.{
  InstallRecord, to_row, source_to_row, source_from_row, from_row, Records, with_row, read_rows,
  rows_of, read_file,
}

-- A record that the file gives back as it is: its name is a key, it has a commit, and its times are set.
pub record IsStored (r : InstallRecord) : Type 0 where
  pub keyed : normalised (some r.name) ≡ r.name
  pub named : is_nil r.name ≡ false
  pub trimmed : strip r.sha ≡ r.sha
  pub pinned : is_nil r.sha ≡ false
  pub installed : 0 < r.installed_at
  pub updated : 0 < r.updated_at

abbrev pub AreStored : Records → Type 0
AreStored [] = Unit
AreStored ((k, r) ∷ d) = ((k ≡ r.name) × IsStored r) × AreStored d

source_from_row-to_row : (source : SkillSource) → source_from_row (source_to_row source) ≡ source
unfolding source_from_row source_to_row list_beq
source_from_row-to_row (repository owner repo ref path url) = refl
source_from_row-to_row (gist gist_id url) = refl

from_row-to_row : (now : ℕ) (r : InstallRecord) → IsStored r → from_row now (to_row r) ≡ some r
unfolding from_row to_row
from_row-to_row now r s =
    rw (s.keyed, s.trimmed, s.named, s.pinned, source_from_row-to_row r.source)
      (ground (arith, s.installed, s.updated))

insert-absent :
    (k : Text) (r : InstallRecord) (d : Records)
    → lookup k d ≡ none
    → insert k r d ≡ d ++ ((k, r) ∷ [])
unfolding lookup insert
insert-absent k r [] h = refl
insert-absent k r ((j, q) ∷ d) h = ground (arith, insert-absent k r d)

middle-absent :
    (k : Text) (r : InstallRecord) (d e : Records)
    → UniqueKeys (d ++ ((k, r) ∷ e))
    → lookup k d ≡ none
unfolding lookup
middle-absent k r [] e u = refl
middle-absent k r ((j, q) ∷ d) e u = ground (
  arith,
  middle-absent k r d e u.1,
  lookup-append j d ((k, r) ∷ e),
  text_eq.decides j k,
  text_eq.decides k j,
)

read_rows-rows_of :
    (now : ℕ) (read d : Records)
    → UniqueKeys (read ++ d)
    → AreStored d
    → read_rows now read (rows_of d) ≡ read ++ d
unfolding read_rows rows_of
read_rows-rows_of now read [] u s = sym (append-nil read)
read_rows-rows_of now read ((k, r) ∷ d) u s =
    ap (λ o. read_rows now (with_row o read) (rows_of d)) (from_row-to_row now r s.0.1)
    ∙ (ap (λ j. read_rows now (insert j r read) (rows_of d)) (sym s.0.0)
        ∙ (ap (λ e. read_rows now e (rows_of d))
              (insert-absent k r read (middle-absent k r read d u))
            ∙ (read_rows-rows_of now (read ++ ((k, r) ∷ [])) d
                  (rw (append_assoc read ((k, r) ∷ []) d) u) s.1
                ∙ append_assoc read ((k, r) ∷ []) d)))

-- What was written is read back, at any time.
pub read_file-rows_of :
    (now : ℕ) (d : Records) → UniqueKeys d → AreStored d → read_file now (some (rows_of d)) ≡ d
unfolding read_file
read_file-rows_of now d u s = read_rows-rows_of now [] d u s
