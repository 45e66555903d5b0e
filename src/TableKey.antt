-- ===== src/TableKey.antt =====
-- backend/src/core/session.py, `DatasetHandle.table_key`: the name under which a dataset is addressed.
pub mod Safe
use wizard_w.Prelude.{
  ℕ, String, Bool, true, false, ◌&&◌, ◌||◌, not, List, [], ◌∷◌, Option, none, some, if◌then◌else◌,
  leb, filter, ◌==◌, nat_eq,
}
use wizard_w.Prelude.Text.{Text, codes, text_eq, normalised}

-- The parts of a path between its slashes.
unfoldable pub parts : Text → List Text
parts [] = [] ∷ []
parts (c ∷ s) = elim (parts s) [
  | [] ↦ (c ∷ []) ∷ []
  | p ∷ ps ↦ if c == b'/' then [] ∷ p ∷ ps else (c ∷ p) ∷ ps
]

unfoldable pub last_part : List Text → Text
last_part [] = []
last_part (p ∷ []) = p
last_part (p ∷ q ∷ ps) = last_part (q ∷ ps)

-- `Path(...).name`: the last part that is neither empty nor a dot.
unfoldable pub path_name : Text → Text
unfolding parts last_part
path_name path = last_part (filter (λ p. not (p == []) && not (p == b'.' ∷ [])) (parts path))

-- A text around its last dot.
unfoldable pub last_dot : Text → Option (Text × Text)
last_dot [] = none
last_dot (c ∷ s) = elim (last_dot s) [
  | some (before, after) ↦ some (c ∷ before, after)
  | none ↦ if c == b'.' then some ([], s) else none
]

-- `Path(...).stem`: a dot at the start or the end of a name begins no suffix.
unfoldable pub stem : Text → Text
unfolding path_name last_dot
stem path =
    let name = path_name path in
    elim (last_dot name) [
      | none ↦ name
      | some (before, after) ↦ if before == [] || after == [] then name else before
    ]

abbrev pub is_word : ℕ → Bool
is_word c = (leb b'a' c && leb c b'z') || (leb b'0' c && leb c b'9')

-- `re.sub(r"[^a-z0-9]+", "_", s)`; the Boolean says whether a run is being replaced.
unfoldable pub squeeze : Bool → Text → Text
squeeze in_run [] = []
squeeze in_run (c ∷ s) =
    if is_word c
    then c ∷ squeeze false s
    else if in_run
    then squeeze true s
    else b'_' ∷ squeeze true s

unfoldable pub lstrip_underscores : Text → Text
lstrip_underscores [] = []
lstrip_underscores (c ∷ s) = if c == b'_' then lstrip_underscores s else c ∷ s

unfoldable pub rstrip_underscores : Text → Text
rstrip_underscores [] = []
rstrip_underscores (c ∷ s) = elim (rstrip_underscores s) [
  | [] ↦ if c == b'_' then [] else c ∷ []
  | d ∷ t ↦ c ∷ d ∷ t
]

unfoldable pub or_table : Text → Text
or_table [] = codes "table"
or_table (c ∷ s) = c ∷ s

unfoldable pub table_key : String → Text
unfolding stem squeeze lstrip_underscores rstrip_underscores or_table
table_key name = or_table (
    rstrip_underscores (lstrip_underscores (squeeze false (normalised (some (stem (codes name)))))))
