-- ===== src/Smtp/Parser.antt =====
-- internal/smtp/parser.go: `ParseEmail` over the reader of MIME messages, which is a parameter, and
-- the regular expression of a From header as a function.

pub mod From
use webrana_infinimail_backe.Smtp.Snippet.{generate_snippet}
use webrana_infinimail_backe.Smtp.{ParsedAttachment, ParsedEmail}
use webrana_infinimail_backe.Text.Trim.{trim_space}
use webrana_infinimail_backe.Text.Split.{trim_prefix}
use webrana_infinimail_backe.Text.{Bytes, codes, contains, is_empty}
use webrana_infinimail_backe.Effect.{ok, err, Result}
use webrana_infinimail_backe.Prelude.{
  [], true, false, none, some, ◌∷◌, ℕ, List, if◌then◌else◌, Bool, Option, length, ◌==◌, not, ◌++◌,
  ◌||◌, ◌&&◌,
}

-- what is read of a part of an envelope
pub record Part : Type 0 where
  pub file_name : Bytes
  pub content_type : Bytes
  pub content : Bytes

pub record Envelope : Type 0 where
  pub subject : Bytes
  pub from : Bytes
  pub text : Bytes
  pub html : Bytes
  pub attachments : List Part
  pub inlines : List Part

-- the text before the first of a byte, and the text from it on
unfoldable pub until : ℕ → Bytes → Bytes × Bytes
until c [] = ([], [])
until c (b ∷ s) = let rest = until c s in if b == c then ([], b ∷ s) else (b ∷ rest.0, rest.1)

-- `^\s*$`
unfoldable pub all_spaces : Bytes → Bool
all_spaces [] = true
all_spaces (c ∷ s) = (c == 32 || c == 9 || c == 10 || c == 12 || c == 13) && all_spaces s

-- `([^"<]*)"?\s*$`, after its first group
unfoldable pub closed_name : Bytes × Bytes → Option Bytes
unfolding all_spaces
closed_name (name, []) = some name
closed_name (name, quote ∷ rest) = if all_spaces rest then some name else none

-- `^"?([^"<]*)"?\s*$`, on a text without "<"
unfoldable pub name_part : Bytes → Option Bytes
unfolding trim_prefix until closed_name
name_part s = closed_name (until b'"' (trim_prefix s b'"'))

-- `.@.+$`, after a first byte
unfoldable pub at_inside : Bytes → Bool
at_inside [] = false
at_inside (c ∷ []) = false
at_inside (c ∷ (d ∷ s)) = c == b'@' || at_inside (d ∷ s)

unfoldable pub is_bracketed : Bytes → Bool
unfolding codes contains at_inside
is_bracketed [] = false
is_bracketed (c ∷ s) = not (contains (c ∷ s) (codes "<")) && at_inside s

-- `^([^<>]+@[^<>]+)>$`
unfoldable pub closed_email : Bytes × Bytes → Option Bytes
unfolding is_bracketed
closed_email (email, []) = none
closed_email (email, bracket ∷ []) = if is_bracketed email then some email else none
closed_email (email, bracket ∷ (c ∷ s)) = none

unfoldable pub both_groups : Option Bytes → Option Bytes → Option (Bytes × Bytes)
both_groups none email = none
both_groups (some name) none = none
both_groups (some name) (some email) = some (name, email)

-- the two groups of the expression, on the text before "<" and the text from it on
unfoldable pub matches : Bytes × Bytes → Option (Bytes × Bytes)
unfolding name_part until closed_email both_groups
matches (s, []) = none
matches (s, bracket ∷ rest) = both_groups (name_part s) (closed_email (until b'>' rest))

-- Trim takes no quotes from the name, which has none.
unfoldable pub or_whole : Bytes → Option (Bytes × Bytes) → Bytes × Bytes
unfolding trim_space
or_whole from none = ([], from)
or_whole from (some (name, email)) = (trim_space name, trim_space email)

unfoldable pub trimmed_header : Bytes → Bytes × Bytes
unfolding codes contains matches until or_whole
trimmed_header from =
    if is_empty from
    then ([], [])
    else if contains from (codes "<") && contains from (codes ">")
    then or_whole from (matches (until b'<' from))
    else ([], from)

-- `parseFromHeader`
unfoldable pub parse_from_header : Bytes → Bytes × Bytes
unfolding trim_space trimmed_header
parse_from_header from = trimmed_header (trim_space from)

unfoldable pub attachment_of : Part → ParsedAttachment
attachment_of p = record {
  filename = p.file_name;
  content_type = p.content_type;
  content = p.content;
  size = length p.content;
}

unfoldable pub attachments_of : List Part → List ParsedAttachment
unfolding attachment_of
attachments_of [] = []
attachments_of (p ∷ ps) = attachment_of p ∷ attachments_of ps

-- the inline parts with a name
unfoldable pub named_parts : List Part → List Part
named_parts [] = []
named_parts (p ∷ ps) = if is_empty p.file_name then named_parts ps else p ∷ named_parts ps

unfoldable pub email_of : Envelope → ParsedEmail
unfolding parse_from_header generate_snippet attachments_of named_parts
email_of env = record {
  sender_email = (parse_from_header env.from).1;
  sender_name = (parse_from_header env.from).0;
  subject = env.subject;
  snippet = generate_snippet env.text env.html;
  body_text = env.text;
  body_html = env.html;
  attachments = attachments_of env.attachments ++ attachments_of (named_parts env.inlines);
}

unfoldable pub parsed : Result Envelope → Result ParsedEmail
unfolding email_of
parsed (ok env) = ok (email_of env)
parsed (err e) = err e

-- `ParseEmail`
unfoldable pub parse_email : (Bytes → Result Envelope) → Bytes → Result ParsedEmail
unfolding parsed
parse_email read_envelope r = parsed (read_envelope r)
