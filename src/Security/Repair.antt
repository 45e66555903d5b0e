-- ===== src/Security/Repair.antt =====
-- backend/src/core/security/code_guard.py: `strip_markdown_fences`, `missing_alias_imports` and `repair`.
pub mod Healed
use wizard_w.Prelude.{Bool, true, false, ◌&&◌, not, List, [], ◌∷◌, ◌++◌, if◌then◌else◌, filter, map}
use wizard_w.Prelude.Text.{Text, codes, text_eq, starts_with, strip, occurs}
use wizard_w.Prelude.Split.{join, splitlines}
use wizard_w.Security.Guard.{Parsed, program, syntax}

abbrev pub fence : Text
fence = codes "```"

abbrev pub line_feed : Text
line_feed = 10 ∷ []

abbrev pub tail : List Text → List Text
tail [] = []
tail (line ∷ lines) = lines

-- `lines[:-1]` where the last line, stripped, begins with a fence.
unfoldable pub drop_closing : List Text → List Text
drop_closing [] = []
drop_closing (line ∷ []) = if starts_with fence (strip line) then [] else line ∷ []
drop_closing (line ∷ next ∷ lines) = line ∷ drop_closing (next ∷ lines)

unfoldable pub strip_markdown_fences : Text → Text
unfolding drop_closing strip
strip_markdown_fences code =
    let cleaned = strip code in
    if starts_with fence cleaned
    then strip (join line_feed (drop_closing (tail (splitlines cleaned))))
    else strip cleaned

pub record Alias : Type 0 where
  pub short : Text
  pub statement : Text

abbrev import_of : Text → Text → Alias
import_of short statement = record { short = short; statement = statement }

-- `COMMON_IMPORTS`
abbrev pub common_imports : List Alias
common_imports =
    import_of (codes "pd") (codes "import pandas as pd")
    ∷ import_of (codes "np") (codes "import numpy as np")
    ∷ import_of (codes "plt") (codes "import matplotlib.pyplot as plt")
    ∷ import_of (codes "sns") (codes "import seaborn as sns")
    ∷ import_of (codes "px") (codes "import plotly.express as px")
    ∷ import_of (codes "go") (codes "import plotly.graph_objects as go")
    ∷ []

abbrev pub use_of : Alias → Text
use_of a = a.short ++ codes "."

abbrev pub plain_import : Alias → Text
plain_import a = codes "import " ++ a.short

abbrev pub renaming : Alias → Text
renaming a = codes "as " ++ a.short

unfoldable pub is_missing : Text → Alias → Bool
is_missing code a =
    occurs (use_of a) code && not (occurs (plain_import a) code) && not (occurs (renaming a) code)

unfoldable pub missing_alias_imports : Text → List Text
unfolding is_missing
missing_alias_imports code = map (λ a. a.statement) (filter (is_missing code) common_imports)

-- The missing imports in front of the code.
unfoldable pub healed : List Text → Text → Text
healed [] code = code
healed (statement ∷ missing) code = join line_feed (statement ∷ missing) ++ (line_feed ++ code)

abbrev pub parses : Parsed → Bool
parses (program tree) = true
parses (syntax message line) = false

unfoldable pub repair : (Text → Parsed) → Text → Bool × Text
repair parse code =
    let cleaned = strip_markdown_fences code in
    let candidate = healed (missing_alias_imports cleaned) cleaned in
    if parses (parse candidate) then (true, candidate) else (false, cleaned)
