-- ===== src/Tests/Parser.antt =====
-- The reading of From headers, on concrete texts.

use webrana_infinimail_backe.Smtp.Parser.From.{from_header, IsName, parse-from_header, IsMailbox}
use webrana_infinimail_backe.Text.Trim.{is_space}
use webrana_infinimail_backe.Smtp.Parser.{parse_from_header, is_bracketed}
use webrana_infinimail_backe.Text.{codes}
use webrana_infinimail_backe.Prelude.{[], refl, ◌≡◌}

from_quoted :
    parse_from_header (codes " \"Ann B\"  <ann@a.test>") ≡ (codes "Ann B", codes "ann@a.test")
unfolding codes parse_from_header
from_quoted = refl

from_bare : parse_from_header (codes "<ann@a.test>") ≡ ([], codes "ann@a.test")
unfolding codes parse_from_header
from_bare = refl

-- a header that the expression does not match is the address as a whole
from_unmatched : parse_from_header (codes "Ann <ann>") ≡ ([], codes "Ann <ann>")
unfolding codes parse_from_header
from_unmatched = refl

ann : IsName (codes "Ann B")
unfolding codes is_space
ann = record {
  unquoted = (refl, (refl, (refl, (refl, (refl, tt)))));
  unopened = (refl, (refl, (refl, (refl, (refl, tt)))));
  starts = refl;
  ends = refl;
}

ann_at_a : IsMailbox (codes "ann@a.test")
unfolding codes is_space is_bracketed
ann_at_a = record {
  unclosed = (refl, (refl, (refl, (refl, (refl, (refl, (refl, (refl, (refl, (refl, tt))))))))));
  bracketed = refl;
  starts = refl;
  ends = refl;
}

parse-from_header_example :
    parse_from_header (from_header (codes "Ann B") (codes "ann@a.test"))
    ≡ (codes "Ann B", codes "ann@a.test")
parse-from_header_example = parse-from_header (codes "Ann B") (codes "ann@a.test") ann ann_at_a
