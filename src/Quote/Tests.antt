-- ===== src/Quote/Tests.antt =====
-- Tests of the quoting, and its theorem at a concrete input.
use agterm_remote.Prelude.{[], refl, some, ◌∷◌, ◌≡◌}
use agterm_remote.Quote.{join, quote}
use agterm_remote.Quote.Shell.{shell_words, shell_words-join}
use agterm_remote.Text.{codes}

quote_test : quote (codes "a'b") ≡ codes "'a'\\''b'"
unfolding quote
quote_test = refl

shell_words-join_example :
    shell_words (join (codes "rm -rf $(x)" ∷ codes "a'b" ∷ [] ∷ []))
    ≡ some (codes "rm -rf $(x)" ∷ codes "a'b" ∷ [] ∷ [])
shell_words-join_example = shell_words-join (codes "rm -rf $(x)" ∷ codes "a'b" ∷ [] ∷ [])
