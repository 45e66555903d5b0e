-- ===== src/Skills/Index/Refines.antt =====
-- The index with its file and its cache answers as the dictionary does.
use wizard_w.Prelude.{
  ℕ, ◌≡◌, ◌⊎◌, refl, sym, ◌∙◌, ap, Bool, true, false, List, [], ◌∷◌, Option, none, some, arith,
  if◌then◌else◌, ◌==◌, Bool-cases, inl, inr,
}
use mathlib.Core.Path.{subst}
use wizard_w.Prelude.Dict.{
  lookup, insert, erase, UniqueKeys, insert-UniqueKeys, erase-UniqueKeys, erase_absent,
}
use wizard_w.Prelude.Text.{Text, text_eq, normalised}
use wizard_w.Skills.Index.{
  InstallRecord, Records, first_installed, is_none, InstallIndex, new_index, read_file, load, get,
  record_install, forget_install, reload, clear, rows_of, Call, getting, recording, forgetting,
  reloading, clearing, Answer, found, done, perform, answers,
}
use wizard_w.Skills.Index.Spec.{step, spec_answers}
use wizard_w.Skills.Index.Stored.{IsStored, AreStored, read_file-rows_of}

-- The dictionary that a state of the index stands for.
record Agrees (d : Records) (i : InstallIndex) : Type 0 where
  on_file : (now : ℕ) → read_file now i.file ≡ d
  cached : (i.cache ≡ none) ⊎ (i.cache ≡ some d)
  unique : UniqueKeys d
  stored : AreStored d

-- A recorded entry is one that the file can hold, and the write of a `clear` succeeds.
abbrev pub IsValidCall : Call → Type 0
IsValidCall (recording now writes entry) = IsStored entry
IsValidCall (clearing writes) = writes ≡ true
IsValidCall _ = Unit

abbrev pub AreValidCalls : List Call → Type 0
AreValidCalls [] = Unit
AreValidCalls (call ∷ calls) = IsValidCall call × AreValidCalls calls

insert-AreStored :
    (k : Text) (r : InstallRecord) (d : Records)
    → k ≡ r.name
    → IsStored r
    → AreStored d
    → AreStored (insert k r d)
unfolding insert
insert-AreStored k r [] e s h = ((e, s), tt)
insert-AreStored k r ((j, q) ∷ d) e s h = elim (Bool-cases (j == k)) [
  | inl same ↦ rw same (((text_eq.decides j k).0 same ∙ e, s), h.1)
  | inr other ↦ rw other (h.0, insert-AreStored k r d e s h.1)
]

erase-AreStored : (k : Text) (d : Records) → AreStored d → AreStored (erase k d)
unfolding erase
erase-AreStored k [] h = tt
erase-AreStored k ((j, q) ∷ d) h = elim (Bool-cases (j == k)) [
  | inl same ↦ rw same h.1
  | inr other ↦ rw other (h.0, erase-AreStored k d h.1)
]

abbrev record_or : InstallRecord → Option InstallRecord → InstallRecord
record_or q none = q
record_or q (some r) = r

absent_of : (o : Option InstallRecord) → is_none o ≡ true → o ≡ none
absent_of none h = refl
absent_of (some r) h = absurd (ground arith)

lookup-IsStored :
    (k : Text) (d : Records) (r : InstallRecord) → AreStored d → lookup k d ≡ some r → IsStored r
unfolding lookup
lookup-IsStored k [] r h e = absurd (ground arith)
lookup-IsStored k ((j, q) ∷ d) r h e = elim (Bool-cases (j == k)) [
  | inl same ↦ subst IsStored (ap (record_or q) (rw same at e)) h.0.1
  | inr other ↦ lookup-IsStored k d r h.1 (rw other at e)
]

first_installed-IsStored :
    (previous : Option InstallRecord) (r : InstallRecord)
    → IsStored r
    → ((q : InstallRecord) → previous ≡ some q → IsStored q)
    → IsStored (first_installed previous r) × ((first_installed previous r).name ≡ r.name)
unfolding first_installed
first_installed-IsStored none r s old = (s, refl)
first_installed-IsStored (some q) r s old = (
  record {
    keyed = s.keyed;
    named = s.named;
    trimmed = s.trimmed;
    pinned = s.pinned;
    installed = (old q refl).installed;
    updated = s.updated;
  },
  refl,
)

written-Agrees :
    (d : Records)
    → UniqueKeys d
    → AreStored d
    → Agrees d (record { file = some (rows_of d); cache = some d })
written-Agrees d u s = record {
  on_file = λ now. read_file-rows_of now d u s;
  cached = inr refl;
  unique = u;
  stored = s;
}

-- An answer and the state after it, beside those of the dictionary.
abbrev Refines : Answer × Records → Answer × InstallIndex → Type 0
Refines q p = (p.0 ≡ q.0) × Agrees q.1 p.1

module _ (d : Records) (i : InstallIndex) (a : Agrees d i) where
  cached-Agrees :
      (c : Option Records) → (c ≡ none) ⊎ (c ≡ some d) → Agrees d (record i { cache = c })
  cached-Agrees c h = record {
    on_file = a.on_file;
    cached = h;
    unique = a.unique;
    stored = a.stored;
  }

  load-Agrees : (now : ℕ) → ((load now i).0 ≡ d) × Agrees d (load now i).1
  unfolding load
  load-Agrees now = elim a.cached [
    | inl empty ↦ rw (empty, a.on_file now) (refl, cached-Agrees (some d) (inr refl))
    | inr full ↦ rw full (refl, cached-Agrees (some d) (inr refl))
  ]

  record-Agrees :
      (now : ℕ) (writes : Bool) (entry : InstallRecord)
      → IsStored entry
      → Refines (step (recording now writes entry) d) (perform (recording now writes entry) i)
  unfolding step perform record_install
  record-Agrees now false entry s = (refl, a)
  record-Agrees now true entry s = rw (a.on_file now) (
    refl,
    written-Agrees (insert entry.name (first_installed (lookup entry.name d) entry) d)
        (insert-UniqueKeys entry.name (first_installed (lookup entry.name d) entry) d a.unique)
        (let kept =
            first_installed-IsStored (lookup entry.name d) entry s
              (λ q. lookup-IsStored entry.name d q a.stored) in
          insert-AreStored entry.name (first_installed (lookup entry.name d) entry) d (sym kept.1)
            kept.0 a.stored),
  )

  forget-Agrees :
      (now : ℕ) (writes : Bool) (name : Text)
      → Refines (step (forgetting now writes name) d) (perform (forgetting now writes name) i)
  unfolding step perform forget_install
  forget-Agrees now writes name =
      rw (a.on_file now) (elim (Bool-cases (is_none (lookup (normalised (some name)) d))) [
        | inl absent ↦ rw absent (
          refl,
          cached-Agrees (some (erase (normalised (some name)) d)) (
              inr (
                ap some (
                  erase_absent (normalised (some name)) d
                    (absent_of (lookup (normalised (some name)) d) absent)))),
        )
        | inr present ↦ rw present (erased writes)
      ])
    where
      erased :
          (b : Bool)
          → let p =
              if◌then◌else◌ {A = Bool × InstallIndex} b
                (
                  true,
                  record {
                    file = some (rows_of (erase (normalised (some name)) d));
                    cache = some (erase (normalised (some name)) d);
                  },
                )
                (false, i) in
            Refines
              (if◌then◌else◌ {A = Answer × Records} b
                (done true, erase (normalised (some name)) d)
                (done false, d))
              (done p.0, p.1)
      erased false = (refl, a)
      erased true = (
        refl,
        written-Agrees (erase (normalised (some name)) d)
            (erase-UniqueKeys (normalised (some name)) d a.unique)
            (erase-AreStored (normalised (some name)) d a.stored),
      )

  perform-Agrees : (call : Call) → IsValidCall call → Refines (step call d) (perform call i)
  unfolding step perform get reload clear
  perform-Agrees (getting now name) v =
      (ap (λ e. found (lookup (normalised (some name)) e)) (load-Agrees now).0, (load-Agrees now).1)
  perform-Agrees (recording now writes entry) v = record-Agrees now writes entry v
  perform-Agrees (forgetting now writes name) v = forget-Agrees now writes name
  perform-Agrees reloading v = (refl, cached-Agrees none (inl refl))
  perform-Agrees (clearing writes) v = rw v (refl, written-Agrees [] tt tt)

answers-Agrees :
    (calls : List Call) (d : Records) (i : InstallIndex)
    → Agrees d i
    → AreValidCalls calls
    → answers calls i ≡ spec_answers calls d
unfolding answers spec_answers
answers-Agrees [] d i a v = refl
answers-Agrees (call ∷ calls) d i a v =
    let next = perform-Agrees d i a call v.0 in
    rw (next.0, answers-Agrees calls (step call d).1 (perform call i).1 next.1 v.1) refl

new-Agrees : Agrees [] new_index
new-Agrees = record {
  on_file = λ now. unfold read_file in refl;
  cached = inl refl;
  unique = tt;
  stored = tt;
}

-- Whatever calls are made, at whatever times and with whichever writes failing but that of a
-- `clear`, the index with its file and its cache, from an empty one, answers each of them as one
-- dictionary does that is changed by the writes that succeed, where an update keeps the time of the
-- first install. The recorded entries have a name that is a key, a commit without spaces around it,
-- and times that are not 0.
pub answers-refine :
    (calls : List Call) → AreValidCalls calls → answers calls new_index ≡ spec_answers calls []
answers-refine calls v = answers-Agrees calls [] new_index new-Agrees v
