-- ===== src/Skills/Index/Spec.antt =====
-- What the index of installed skills promises: one dictionary, with no file, no cache and no clock.
use wizard_w.Prelude.{true, false, List, [], ◌∷◌, some, if◌then◌else◌}
use wizard_w.Prelude.Dict.{lookup, insert, erase}
use wizard_w.Prelude.Text.{text_eq, normalised}
use wizard_w.Skills.Index.{
  Records, first_installed, is_none, Call, getting, recording, forgetting, reloading, clearing,
  Answer, found, done,
}

unfoldable pub step : Call → Records → Answer × Records
step (getting now name) d = (found (lookup (normalised (some name)) d), d)
step (recording now writes entry) d =
    if writes
    then (done true, insert entry.name (first_installed (lookup entry.name d) entry) d)
    else (done false, d)
step (forgetting now writes name) d =
    let key = normalised (some name) in
    if is_none (lookup key d)
    then (done false, d)
    else if writes
    then (done true, erase key d)
    else (done false, d)
step reloading d = (done true, d)
step (clearing writes) d = (done true, [])

unfoldable pub spec_answers : List Call → Records → List Answer
spec_answers [] d = []
spec_answers (call ∷ calls) d = let (a, d') = step call d in a ∷ spec_answers calls d'
