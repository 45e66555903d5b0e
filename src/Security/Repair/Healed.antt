-- ===== src/Security/Repair/Healed.antt =====
-- What `missing_alias_imports` finds in code after a repair.
use wizard_w.Prelude.{
  ℕ, ◌≡◌, ◌≢◌, refl, Bool, true, false, ◌&&◌, ◌||◌, not, List, [], ◌∷◌, ◌++◌, arith, filter, map,
  ap, all, any, contains, nat_eq, append_assoc, Bool-cases, inl, inr, ◌∙◌,
}
use mathlib.Core.Path.{subst, sym}
use wizard_w.Prelude.Text.{Text, text_eq, starts_with, occurs}
use wizard_w.Prelude.Split.{join, split_on, split_on-append, split_on-join}
use wizard_w.Security.Guard.{Parsed}
use wizard_w.Security.Repair.{
  Alias, common_imports, use_of, plain_import, renaming, is_missing, missing_alias_imports, healed,
  repair, line_feed, parses, strip_markdown_fences,
}

starts_with-line :
    (p a b : Text) → contains 10 p ≡ false → starts_with p (a ++ (10 ∷ b)) ≡ starts_with p a
unfolding starts_with
starts_with-line [] a b h = refl
starts_with-line (c ∷ p) [] b h = ground (arith, nat_eq.decides c 10, nat_eq.decides 10 c)
starts_with-line (c ∷ p) (d ∷ a) b h = ground (arith, starts_with-line p a b)

-- A text without a line feed occurs in one line or another.
occurs-line :
    (c : ℕ) (p a b : Text)
    → contains 10 (c ∷ p) ≡ false
    → occurs (c ∷ p) (a ++ (10 ∷ b)) ≡ (occurs (c ∷ p) a || occurs (c ∷ p) b)
unfolding occurs
occurs-line c p [] b h = ground (arith, starts_with-line (c ∷ p) [] b h)
occurs-line c p (d ∷ a) b h =
    ground (arith, starts_with-line (c ∷ p) (d ∷ a) b h, occurs-line c p a b h)

occurs-healed :
    (c : ℕ) (p : Text) (missing : List Text) (code : Text)
    → contains 10 (c ∷ p) ≡ false
    → occurs (c ∷ p) (healed missing code) ≡ (any (occurs (c ∷ p)) missing || occurs (c ∷ p) code)
unfolding healed join
occurs-healed c p [] code h = refl
occurs-healed c p (x ∷ []) code h = ground (arith, occurs-line c p x code h)
occurs-healed c p (x ∷ y ∷ missing) code h =
    rw (append_assoc x (10 ∷ join line_feed (y ∷ missing)) (10 ∷ code)) (
      ground (
        arith,
        occurs-line c p x (healed (y ∷ missing) code) h,
        occurs-healed c p (y ∷ missing) code h,
      ))

-- The statements of the aliases that are missing, any alias's use among them.
no_use_added :
    (b : Alias) (q : Alias → Bool) (table : List Alias)
    → all (λ (a : Alias). not (occurs (use_of b) a.statement)) table ≡ true
    → any (occurs (use_of b)) (map (λ a. a.statement) (filter q table)) ≡ false
no_use_added b q [] h = refl
no_use_added b q (a ∷ table) h = ground (arith, no_use_added b q table)

renaming_added :
    (b : Alias) (q : Alias → Bool) (before after : List Alias)
    → q b ≡ true
    → occurs (renaming b) b.statement ≡ true
    → any (occurs (renaming b)) (map (λ a. a.statement) (filter q (before ++ (b ∷ after)))) ≡ true
renaming_added b q [] after h k = rw h (rw k refl)
renaming_added b q (a ∷ before) after h k = ground (arith, renaming_added b q before after h k)

occurs_in_healed :
    (p : Text) (missing : List Text) (code : Text)
    → p ≢ []
    → contains 10 p ≡ false
    → occurs p (healed missing code) ≡ (any (occurs p) missing || occurs p code)
occurs_in_healed [] missing code n h = absurd (n refl)
occurs_in_healed (c ∷ p) missing code n h = occurs-healed c p missing code h

-- What the table has of one of its aliases.
record IsListed (b : Alias) (before after : List Alias) : Type 0 where
  at : common_imports ≡ before ++ (b ∷ after)
  used : use_of b ≢ []
  use_line : contains 10 (use_of b) ≡ false
  import_line : contains 10 (plain_import b) ≡ false
  renaming_line : contains 10 (renaming b) ≡ false
  renames : occurs (renaming b) b.statement ≡ true
  apart : all (λ (a : Alias). not (occurs (use_of b) a.statement)) common_imports ≡ true

-- The test of an alias after imports were put in front, from the test before.
test_after :
    (used imported renamed added_use added_import added_renaming : Bool)
    → added_use ≡ false
    → (used && not imported && not renamed) ≡ false
    → ((added_use || used) && not (added_import || imported) && not (added_renaming || renamed))
      ≡ false
test_after used imported renamed added_use added_import added_renaming h k = ground arith

never_missing :
    (b : Alias) (before after : List Alias) (code : Text)
    → IsListed b before after
    → is_missing (healed (missing_alias_imports code) code) b ≡ false
never_missing b before after code k =
    let missing = missing_alias_imports code in
    let use_there = occurs_in_healed (use_of b) missing code k.used k.use_line in
    let import_there = occurs_in_healed (plain_import b) missing code (λ h. cc) k.import_line in
    let renaming_there = occurs_in_healed (renaming b) missing code (λ h. cc) k.renaming_line in
    elim (Bool-cases (is_missing code b)) [
      | inl absent ↦
          let added : any (occurs (renaming b)) missing ≡ true =
            unfold missing_alias_imports in
            subst
              (λ (t : List Alias).
                any (occurs (renaming b)) (map (λ a. a.statement) (filter (is_missing code) t))
                ≡ true)
              (sym k.at) (renaming_added b (is_missing code) before after absent k.renames) in
          unfold is_missing in
          rw (renaming_there, added)
            (test_renamed (occurs (use_of b) (healed missing code))
              (not (occurs (plain_import b) (healed missing code))))
      | inr present ↦
          let none_added : any (occurs (use_of b)) missing ≡ false =
            unfold missing_alias_imports in
            no_use_added b (is_missing code) common_imports k.apart in
          unfold is_missing in
          rw (use_there, import_there, renaming_there)
            (test_after (occurs (use_of b) code) (occurs (plain_import b) code)
              (occurs (renaming b) code) (any (occurs (use_of b)) missing)
              (any (occurs (plain_import b)) missing) (any (occurs (renaming b)) missing) none_added
              (unfold is_missing in present))
    ]
  where
    test_renamed : (u w : Bool) → (u && w && false) ≡ false
    test_renamed u w = ground arith

-- An alias's texts have no line feed, its import renames to it, and no import uses it.
abbrev fits_table : Alias → Bool
fits_table b =
    not (contains 10 (use_of b))
    && not (contains 10 (plain_import b))
    && not (contains 10 (renaming b))
    && occurs (renaming b) b.statement
    && all (λ (a : Alias). not (occurs (use_of b) a.statement)) common_imports

table_fits : all fits_table common_imports ≡ true
unfolding occurs starts_with
table_fits = refl

used-ne-nil : (s : Text) → s ++ (b'.' ∷ []) ≢ []
used-ne-nil [] h = cc
used-ne-nil (c ∷ s) h = cc

IsListed-at :
    (before after : List Alias) (b : Alias)
    → common_imports ≡ before ++ (b ∷ after)
    → fits_table b ≡ true
    → IsListed b before after
IsListed-at before after b e h = record {
  at = e;
  used = used-ne-nil b.short;
  use_line = ground arith;
  import_line = ground arith;
  renaming_line = ground arith;
  renames = ground arith;
  apart = ground arith;
}

none_missing :
    (before after : List Alias) (code : Text)
    → common_imports ≡ before ++ after
    → all fits_table after ≡ true
    → filter (is_missing (healed (missing_alias_imports code) code)) after ≡ []
none_missing before [] code e h = refl
none_missing before (b ∷ after) code e h =
    rw (never_missing b before after code (IsListed-at before after b e (ground arith))) (
      none_missing (before ++ (b ∷ [])) after code (e ∙ sym (append_assoc before (b ∷ []) after))
        (ground arith))

healed_complete :
    (code : Text) → missing_alias_imports (healed (missing_alias_imports code) code) ≡ []
healed_complete code =
    let all_there = none_missing [] common_imports code refl table_fits in
    unfold missing_alias_imports in rw all_there refl

kept_in_one_line :
    (q : Alias → Bool) (table : List Alias)
    → all (λ (a : Alias). not (contains 10 a.statement)) table ≡ true
    → all (λ line. not (contains 10 line)) (map (λ (a : Alias). a.statement) (filter q table))
      ≡ true
kept_in_one_line q [] h = refl
kept_in_one_line q (a ∷ table) h = elim (Bool-cases (q a)) [
  | inl kept ↦ rw kept (ground (arith, h, kept_in_one_line q table))
  | inr dropped ↦ rw dropped (kept_in_one_line q table (ground (arith, h)))
]

-- Statements without line feeds that are put in front of code are its first lines.
healed-lines :
    (missing : List Text) (code : Text)
    → all (λ line. not (contains 10 line)) missing ≡ true
    → split_on 10 (healed missing code) ≡ missing ++ split_on 10 code
unfolding healed
healed-lines [] code h = refl
healed-lines (statement ∷ missing) code h =
    split_on-append 10 (join line_feed (statement ∷ missing)) code
    ∙ ap (λ (lines : List Text). lines ++ split_on 10 code) (split_on-join 10 statement missing h)

-- Code that a repair hands back as readable is the code without its fence, behind the imports that
-- `missing_alias_imports` finds missing in it, each in a line of its own. In the result that test by
-- text finds nothing any more, for every common alias (`pd`, `np`, `plt`, `sns`, `px`, `go`); it counts
-- any text such as `as pd` as an import, one in a comment as well.
pub repair-imports_aliases :
    (parse : Text → Parsed) (code : Text)
    → (repair parse code).0 ≡ true
    → let cleaned = strip_markdown_fences code in
      (split_on 10 (repair parse code).1 ≡ missing_alias_imports cleaned ++ split_on 10 cleaned)
      × (missing_alias_imports (repair parse code).1 ≡ [])
repair-imports_aliases parse code h =
    let cleaned = strip_markdown_fences code in
    let candidate = healed (missing_alias_imports cleaned) cleaned in
    let in_lines : all (λ line. not (contains 10 line)) (missing_alias_imports cleaned) ≡ true =
      unfold missing_alias_imports in kept_in_one_line (is_missing cleaned) common_imports refl in
    elim (Bool-cases (parses (parse candidate))) [
      | inl good ↦
          unfold repair in
          rw good
            (healed-lines (missing_alias_imports cleaned) cleaned in_lines, healed_complete cleaned)
      | inr bad ↦ absurd (unfold repair in ground arith)
    ]
