-- ===== src/Skills/Index.antt =====
-- backend/src/core/skills/index.py, `InstallIndex`, with the records of source.py that it keeps: what
-- is installed, in a file and in a cache of it. A write that fails leaves the file as it was. `now` is
-- the clock.
pub mod Spec
pub mod Stored
pub mod Refines
use wizard_w.Prelude.{
  ℕ, Bool, true, false, not, List, [], ◌∷◌, Option, none, some, if◌then◌else◌, map, ◌==◌, nat_eq,
  ◌||◌,
}
use wizard_w.Prelude.Dict.{Dict, lookup, insert, erase, values}
use wizard_w.Prelude.Text.{Text, codes, text_eq, strip, normalised}
use wizard_w.Skills.Source.{SkillSource, repository, gist, is_nil}

pub record InstallRecord : Type 0 where
  pub name : Text
  pub source : SkillSource
  pub sha : Text
  pub installed_at : ℕ
  pub updated_at : ℕ

-- What `SkillSource.to_dict` stores, without the slug, which is only shown.
pub record StoredSource : Type 0 where
  pub kind : Option Text
  pub owner : Option Text
  pub repo : Option Text
  pub ref : Option Text
  pub path : Option Text
  pub gist_id : Option Text
  pub url : Option Text

-- A row of the file: an object of JSON, of which every field may be missing.
pub record StoredRow : Type 0 where
  pub name : Option Text
  pub source : Option StoredSource
  pub sha : Option Text
  pub installed_at : Option ℕ
  pub updated_at : Option ℕ

abbrev pub text_or_empty : Option Text → Text
text_or_empty none = []
text_or_empty (some t) = t

unfoldable pub source_to_row : SkillSource → StoredSource
source_to_row (repository owner repo ref path url) = record {
  kind = some (codes "repo");
  owner = some owner;
  repo = some repo;
  ref = some ref;
  path = some path;
  gist_id = some [];
  url = some url;
}
source_to_row (gist gist_id url) = record {
  kind = some (codes "gist");
  owner = some [];
  repo = some [];
  ref = some [];
  path = some [];
  gist_id = some gist_id;
  url = some url;
}

-- `SkillSource.from_dict`. Every kind but "gist" is read as a repository is.
unfoldable pub source_from_row : StoredSource → SkillSource
source_from_row row =
    if text_or_empty row.kind == codes "gist"
    then gist (text_or_empty row.gist_id) (text_or_empty row.url)
    else repository (text_or_empty row.owner) (text_or_empty row.repo) (text_or_empty row.ref)
        (text_or_empty row.path) (text_or_empty row.url)

-- `InstallRecord.to_dict`, without the field that is derived from the commit
unfoldable pub to_row : InstallRecord → StoredRow
to_row r = record {
  name = some r.name;
  source = some (source_to_row r.source);
  sha = some r.sha;
  installed_at = some r.installed_at;
  updated_at = some r.updated_at;
}

-- `float(value or now)`
abbrev pub time_or : ℕ → Option ℕ → ℕ
time_or now none = now
time_or now (some t) = if t == 0 then now else t

-- `InstallRecord.from_dict`; `none` is the ValueError.
unfoldable pub from_row : ℕ → StoredRow → Option InstallRecord
from_row now row = elim row.source [
  | none ↦ none
  | some source ↦
      let name = normalised row.name in
      let sha = strip (text_or_empty row.sha) in
      if is_nil name || is_nil sha
      then none
      else some (record {
        name = name;
        source = source_from_row source;
        sha = sha;
        installed_at = time_or now row.installed_at;
        updated_at = time_or now row.updated_at;
      })
]

abbrev pub Records : Type 0
Records = Dict Text InstallRecord

abbrev pub with_row : Option InstallRecord → Records → Records
with_row none records = records
with_row (some r) records = insert r.name r records

-- The loop of `_read` over the rows.
unfoldable pub read_rows : ℕ → Records → List StoredRow → Records
read_rows now records [] = records
read_rows now records (row ∷ rows) = read_rows now (with_row (from_row now row) records) rows

-- The rows in the file, if it is there and readable, and the cache.
pub record InstallIndex : Type 0 where
  pub file : Option (List StoredRow)
  pub cache : Option Records

abbrev pub new_index : InstallIndex
new_index = record { file = none; cache = none }

-- `_read`
unfoldable pub read_file : ℕ → Option (List StoredRow) → Records
read_file now none = []
read_file now (some rows) = read_rows now [] rows

-- `_load`
unfoldable pub load : ℕ → InstallIndex → Records × InstallIndex
load now i = elim i.cache [
  | some records ↦ (records, i)
  | none ↦ (let records = read_file now i.file in (records, record i { cache = some records }))
]

unfoldable pub get : ℕ → Text → InstallIndex → Option InstallRecord × InstallIndex
get now name i = let (records, i') = load now i in (lookup (normalised (some name)) records, i')

-- An update keeps the time of the first install.
unfoldable pub first_installed : Option InstallRecord → InstallRecord → InstallRecord
first_installed none entry = entry
first_installed (some previous) entry = record entry { installed_at = previous.installed_at }

-- The rows that `_write` stores.
unfoldable pub rows_of : Records → List StoredRow
rows_of records = map to_row (values records)

unfoldable pub record_install : ℕ → Bool → InstallRecord → InstallIndex → Bool × InstallIndex
record_install now writes entry i =
    let read = read_file now i.file in
    let records = insert entry.name (first_installed (lookup entry.name read) entry) read in
    if writes
    then (true, record { file = some (rows_of records); cache = some records })
    else (false, i)

abbrev pub is_none {ℓ} : {A : Type ℓ} → Option A → Bool
is_none none = true
is_none (some a) = false

unfoldable pub forget_install : ℕ → Bool → Text → InstallIndex → Bool × InstallIndex
forget_install now writes name i =
    let key = normalised (some name) in
    let read = read_file now i.file in
    let records = erase key read in
    if is_none (lookup key read)
    then (false, record i { cache = some records })
    else if writes
    then (true, record { file = some (rows_of records); cache = some records })
    else (false, i)

unfoldable pub reload : InstallIndex → InstallIndex
reload i = record i { cache = none }

-- The cache is emptied even if the write fails.
unfoldable pub clear : Bool → InstallIndex → InstallIndex
clear writes i =
    if writes
    then record { file = some (rows_of []); cache = some [] }
    else record i { cache = some [] }

-- A call with the time at which it is made, and whether its write succeeds.
pub data Call : Type 0 where
  getting : ℕ → Text → Call
  recording : ℕ → Bool → InstallRecord → Call
  forgetting : ℕ → Bool → Text → Call
  reloading : Call
  clearing : Bool → Call

-- What a call returns.
pub data Answer : Type 0 where
  found : Option InstallRecord → Answer
  done : Bool → Answer

unfoldable pub perform : Call → InstallIndex → Answer × InstallIndex
perform (getting now name) i = let (r, i') = get now name i in (found r, i')
perform (recording now writes entry) i =
    let (b, i') = record_install now writes entry i in (done b, i')
perform (forgetting now writes name) i =
    let (b, i') = forget_install now writes name i in (done b, i')
perform reloading i = (done true, reload i)
perform (clearing writes) i = (done true, clear writes i)

unfoldable pub answers : List Call → InstallIndex → List Answer
answers [] i = []
answers (call ∷ calls) i = let (a, i') = perform call i in a ∷ answers calls i'
