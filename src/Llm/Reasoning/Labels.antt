-- ===== src/Llm/Reasoning/Labels.antt =====
-- How a text is cut into tags and labelled chunks.
use wizard_w.Prelude.{ℕ, ◌≡◌, refl, Bool, true, false, List, [], ◌∷◌, ◌++◌, none, some}
use wizard_w.Prelude.Text.{Text}
use wizard_w.Llm.Reasoning.Unbroken.{Unbroken}
use wizard_w.Llm.Reasoning.{Pattern, open_tag, close_tag, search, Chunk, chunk}

-- The tag that ends what is being read: inside a thought, or outside.
abbrev pub ending : (ℕ → Bool) → Bool → Pattern
ending is_word true = close_tag
ending is_word false = open_tag is_word

-- Read from a text, inside a thought or not, these chunks, with the rest and whether that is inside
-- one. Nothing but whole tags is left out. A chunk holds no tag that would end it, and no such tag of
-- fewer than MAX_TAG_CHARS characters begins in it and goes on behind it. One before a closing tag
-- without an opening one is a thought.
pub data Labelled (is_word : ℕ → Bool) : Bool → Text → List Chunk → Bool → Text → Type 0 where
  waits : (b : Bool) (t : Text) → Labelled is_word b t [] b t
  sends :
      (b b' : Bool) (x s s' t : Text) (out : List Chunk)
      → s ≡ x ++ s'
      → search (ending is_word b) x ≡ none
      → Unbroken (ending is_word b) x s'
      → Labelled is_word b s' out b' t
      → Labelled is_word b s (chunk b x out) b' t
  opens :
      (b' : Bool) (x s s' t : Text) (out : List Chunk)
      → s ≡ x ++ s'
      → open_tag is_word x ≡ some []
      → Labelled is_word true s' out b' t
      → Labelled is_word false s out b' t
  closes :
      (b' : Bool) (x s s' t : Text) (out : List Chunk)
      → s ≡ x ++ s'
      → close_tag x ≡ some []
      → Labelled is_word false s' out b' t
      → Labelled is_word true s out b' t
  orphaned :
      (b' : Bool) (head x s s' t : Text) (out : List Chunk)
      → s ≡ head ++ (x ++ s')
      → search close_tag head ≡ none
      → Unbroken (open_tag is_word) head (x ++ s')
      → close_tag x ≡ some []
      → Labelled is_word false s' out b' t
      → Labelled is_word false s (chunk true head out) b' t

pub chunk-append :
    (b : Bool) (x : Text) (out more : List Chunk) → chunk b x out ++ more ≡ chunk b x (out ++ more)
chunk-append b [] out more = refl
chunk-append b (c ∷ x) out more = refl

-- What is read first, and then from there on.
pub joined :
    (is_word : ℕ → Bool) (b b' b'' : Bool) (s t u : Text) (out more : List Chunk)
    → Labelled is_word b s out b' t
    → Labelled is_word b' t more b'' u
    → Labelled is_word b s (out ++ more) b'' u
joined w b b' b'' s t u out more (waits _ _) k = k
joined w b b' b'' s t u out more (sends _ _ x _ s' _ rest e h n l) k =
    rw (chunk-append b x rest more)
      (sends b b'' x s s' u (rest ++ more) e h n (joined w b b' b'' s' t u rest more l k))
joined w b b' b'' s t u out more (opens _ x _ s' _ _ e h l) k =
    opens b'' x s s' u (out ++ more) e h (joined w true b' b'' s' t u out more l k)
joined w b b' b'' s t u out more (closes _ x _ s' _ _ e h l) k =
    closes b'' x s s' u (out ++ more) e h (joined w false b' b'' s' t u out more l k)
joined w b b' b'' s t u out more (orphaned _ head x _ s' _ rest e f n h l) k =
    rw (chunk-append true head rest more) (
      orphaned b'' head x s s' u (rest ++ more) e f n h
        (joined w false b' b'' s' t u rest more l k))

-- A response from its deltas.
abbrev pub whole : List Text → Text
whole [] = []
whole (delta ∷ deltas) = delta ++ whole deltas
