-- ===== src/Daemon/Consent/Dialog.antt =====
-- internal/daemon/consent.go: what a dialog shows. Texts are runes.
pub mod Escaped
use agterm_remote.Daemon.Consent.{button_deny, button_once, button_pair}
use agterm_remote.Prelude.{
  List, [], if◌then◌else◌, length, ltb, replicate, suc, zero, ℕ, ◌%◌, ◌++◌, ◌+◌, ◌-◌, ◌/◌, ◌||◌,
  ◌∷◌,
}
use agterm_remote.Proxy.Typed.{PreviewParts, is_control, is_format, preview_parts}
use agterm_remote.Text.{Bytes, codes, itoa}

unfoldable pub upper_hex : ℕ → ℕ
upper_hex d = if ltb d 10 then b'0' + d else 55 + d

-- `%X`; the fuel is one more than the number.
unfoldable pub hex_from : ℕ → ℕ → List ℕ
unfolding upper_hex
hex_from zero n = []
hex_from (suc fuel) n =
    let front = hex_from fuel (n / 16) in
    if ltb n 16 then upper_hex n ∷ [] else front ++ upper_hex (n % 16) ∷ []

-- `\u{%04X}`
unfoldable pub escaped : ℕ → List ℕ
unfolding hex_from
escaped r =
    let digits = hex_from (suc r) r in
    codes "\\u{" ++ (replicate (4 - length digits) b'0' ++ (digits ++ codes "}"))

unfoldable pub visible : List ℕ → List ℕ
visible [] = []
visible (r ∷ s) =
    let rest = visible s in if is_control r || is_format r then escaped r ++ rest else r ∷ rest

-- `⟦` and `⟧`, the double quotation marks, and the ellipsis
abbrev pub open_text : ℕ
open_text = 0x27e6

abbrev pub close_text : ℕ
close_text = 0x27e7

abbrev pub open_name : ℕ
open_name = 0x201c

abbrev pub close_name : ℕ
close_name = 0x201d

abbrev pub ellipsis : ℕ
ellipsis = 0x2026

pub record AskButton : Type 0 where
  pub id : Bytes
  pub label : List ℕ

pub record AskRequest : Type 0 where
  pub title : List ℕ
  pub message : List ℕ
  pub buttons : List AskButton
  pub default : Bytes
  pub row : Bytes
  pub pane_id : Bytes

unfoldable pub cut_note : PreviewParts → List ℕ
cut_note parts =
    if parts.was_cut
    then ellipsis ∷ (codes " (" ++ (itoa parts.total ++ codes " characters)"))
    else []

-- `dialogFor`, on the runes of the session, the host, the row's name and the typed text.
unfoldable pub dialog_for : List ℕ → List ℕ → List ℕ → List ℕ → Bytes → Bytes → AskRequest
unfolding visible cut_note button_once button_pair button_deny
dialog_for session host row_name text row pane_id =
    let parts = preview_parts text in
    record {
      title =
          codes "Anything on "
          ++ (visible host
              ++ (codes " wants to type into "
                  ++ (open_name ∷ visible row_name ++ close_name ∷ [])));
      message =
          codes "From session "
          ++ (visible session
              ++ (codes " on "
                  ++ (visible host
                      ++ (codes ": "
                          ++ (open_text
                              ∷ (visible parts.shown ++ (close_text ∷ cut_note parts)))))));
      buttons =
          (record { id = button_once; label = codes "Allow once" })
          ∷ (record {
            id = button_pair;
            label = codes "Allow " ++ (visible host ++ codes " here until it closes");
          })
          ∷ (record { id = button_deny; label = codes "Deny" })
          ∷ [];
      default = button_deny;
      row = row;
      pane_id = pane_id;
    }
