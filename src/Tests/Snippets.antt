-- ===== src/Tests/Snippets.antt =====
-- Snippets of an HTML text and of a text whose characters have two bytes.

use webrana_infinimail_backe.Smtp.Snippet.Tidy.{IsTidy, generate_snippet-IsTidy}
use webrana_infinimail_backe.Smtp.Snippet.{generate_snippet}
use webrana_infinimail_backe.Text.{codes, Bytes}
use webrana_infinimail_backe.Prelude.{zero, suc, [], refl, ◌∷◌, ℕ, ◌≡◌, drop}

abbrev page : Bytes
unfolding codes
page = codes "<SCRIPT src=x>a > b</script><p>Tom &amp;  Ann</p> <b>here"

page_snippet : generate_snippet [] page ≡ codes "Tom & Ann here"
unfolding generate_snippet codes
page_snippet = refl

generate_snippet-IsTidy_example : IsTidy (generate_snippet [] page)
generate_snippet-IsTidy_example = generate_snippet-IsTidy [] page

abbrev repeated : ℕ → Bytes
repeated zero = []
repeated (suc n) = 195 ∷ 169 ∷ repeated n

-- The first byte of a character is left alone before the dots.
split_character :
    drop 251 (generate_snippet (b'a' ∷ repeated 128) []) ≡ 195 ∷ b'.' ∷ b'.' ∷ b'.' ∷ []
unfolding generate_snippet codes
split_character = refl
