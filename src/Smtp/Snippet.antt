-- ===== src/Smtp/Snippet.antt =====
-- internal/smtp/parser.go: `generateSnippet` and `stripHTMLTags`, with the text of the expressions
-- as patterns.
pub mod Tidy
use mathlib.Core.Option.{map, bind}
use webrana_infinimail_backe.Text.Split.{join}
use webrana_infinimail_backe.Text.Trim.{trim_space}
use webrana_infinimail_backe.Text.{is_empty, codes, Bytes}
use webrana_infinimail_backe.Text.Replace.{
  after_prefix, index_byte, replace_all, fields, index_text, Pattern, literal,
}
use webrana_infinimail_backe.Prelude.{
  suc, [], none, some, ◌∷◌, if◌then◌else◌, drop, ◌==◌, not, ltb, length, Option, ◌+◌, take, ◌++◌,
}

-- `(?i)OPEN[^>]*>[\s\S]*?CLOSE`
unfoldable pub element : Bytes → Bytes → Pattern
unfolding after_prefix index_byte index_text bind
element open_ close s = bind (after_prefix open_ s) (λ attributes.
    bind (index_byte b'>' attributes) (λ i.
      map (λ j. length open_ + i + j + length close) (index_text close (drop (suc i) attributes))))

-- `<[^>]*>`
unfoldable pub tag : Pattern
unfolding index_byte
tag [] = none
tag (c ∷ s) = if c == b'<' then map suc (index_byte b'>' s) else none

unfoldable pub strip_html_tags : Bytes → Bytes
unfolding element tag replace_all literal codes
strip_html_tags html =
    let no_scripts = replace_all (element (codes "<script") (codes "</script>")) [] html in
    let no_styles = replace_all (element (codes "<style") (codes "</style>")) [] no_scripts in
    let no_tags = replace_all tag (codes " ") no_styles in
    let spaces = replace_all (literal (codes "&nbsp;")) (codes " ") no_tags in
    let amps = replace_all (literal (codes "&amp;")) (codes "&") spaces in
    let less = replace_all (literal (codes "&lt;")) (codes "<") amps in
    let more = replace_all (literal (codes "&gt;")) (codes ">") less in
    let quotes = replace_all (literal (codes "&quot;")) (b'"' ∷ []) more in
    replace_all (literal (codes "&#39;")) (codes "'") quotes

unfoldable pub chosen_text : Bytes → Bytes → Bytes
unfolding strip_html_tags
chosen_text text html =
    if not (is_empty text) then text else if not (is_empty html) then strip_html_tags html else []

unfoldable pub truncated : Bytes → Bytes
unfolding codes
truncated s = if ltb 255 (length s) then take 252 s ++ codes "..." else s

unfoldable pub generate_snippet : Bytes → Bytes → Bytes
unfolding chosen_text fields trim_space truncated
generate_snippet text html = truncated (trim_space (join b' ' (fields (chosen_text text html))))
