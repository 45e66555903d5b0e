-- ===== src/Skills/Promotion/Settled.antt =====
-- What becomes of an analysis that the user dismissed or promoted.
use wizard_w.Prelude.{nat_eq}
use wizard_w.Prelude.Text.{Text, text_eq}
