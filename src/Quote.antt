-- ===== src/Quote.antt =====
-- internal/proxy/quote.go: shell quoting of the command lines that agterm runs on the Mac.
pub mod Shell
mod Tests
use agterm_remote.Prelude.{List, [], if◌then◌else◌, ◌++◌, ◌==◌, ◌∷◌}
use agterm_remote.Text.{Bytes, join_with}

-- `strings.ReplaceAll(value, "'", `'\\''`)`
unfoldable pub escape_quotes : Bytes → Bytes
escape_quotes [] = []
escape_quotes (c ∷ s) =
    let rest = escape_quotes s in
    if c == b'\'' then b'\'' ∷ b'\\' ∷ b'\'' ∷ b'\'' ∷ rest else c ∷ rest

unfoldable pub quote : Bytes → Bytes
unfolding escape_quotes
quote value = b'\'' ∷ (escape_quotes value ++ b'\'' ∷ [])

unfoldable pub quote_all : List Bytes → List Bytes
quote_all [] = []
quote_all (w ∷ ws) = quote w ∷ quote_all ws

unfoldable pub join : List Bytes → Bytes
unfolding quote_all
join words = join_with (b' ' ∷ []) (quote_all words)
