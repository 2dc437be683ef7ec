-- ===== src/Services/DnsExport/Lines.antt =====
-- The lines of a zone file of internal/services/dns_exporter.go, and the names that they start with,
-- read as RFC 1035 says.
use webrana_infinimail_backe.Text.Decimal.{decimal, decimal-Without}
use webrana_infinimail_backe.Text.Split.{Without, split, split_at, append-Without}
use webrana_infinimail_backe.Services.DnsExport.{zone_line}
use webrana_infinimail_backe.Text.{codes, bytes_eq, Bytes, has_suffix, trim_suffix_text}
use webrana_infinimail_backe.Prelude.{
  List, ◌==◌, ℕ, sym, refl, ◌≡◌, ◌++◌, if◌then◌else◌, ◌∷◌, [], ap, append_assoc, append-nil, ◌∙◌,
}

-- a name of a zone file at an origin
unfoldable pub resolve : Bytes → Bytes → Bytes
unfolding codes bytes_eq has_suffix trim_suffix_text
resolve origin name =
    if bytes_eq name (codes "@")
    then origin
    else if has_suffix name (codes ".")
    then trim_suffix_text name (codes ".")
    else name ++ codes "." ++ origin

-- the first field of a line
abbrev pub before_tab : Bytes → Bytes
before_tab [] = []
before_tab (c ∷ s) = if c == 9 then [] else c ∷ before_tab s

-- the lines of a text that ends with a line feed
abbrev pub ended_lines : List Bytes → List Bytes
ended_lines [] = []
ended_lines (l ∷ []) = []
ended_lines (l ∷ (m ∷ ls)) = l ∷ ended_lines (m ∷ ls)

abbrev pub names_of : Bytes → List Bytes → List Bytes
names_of origin [] = []
names_of origin (l ∷ ls) = resolve origin (before_tab l) ∷ names_of origin ls

-- The names of the lines of a zone file, read at an origin.
abbrev pub names_in : Bytes → Bytes → List Bytes
names_in origin text = names_of origin (ended_lines (split text 10))

-- names and values without a tab or a line feed
abbrev pub Field : Bytes → Type 0
Field s = Without 9 s × Without 10 s

before_tab-name : (s t : Bytes) → Without 9 s → before_tab (s ++ 9 ∷ t) ≡ s
before_tab-name [] t h = refl
before_tab-name (c ∷ s) t (other, h) = rw (other, before_tab-name s t h) refl

-- what follows the name of a line
abbrev fields_after : ℕ → Bytes → Bytes → Bytes
fields_after ttl kind value = decimal ttl ++ (9 ∷ b'I' ∷ b'N' ∷ 9 ∷ (kind ++ (9 ∷ value)))

-- the parts of a line
pub record Line : Type 0 where
  pub owner : Bytes
  pub ttl : ℕ
  pub kind : Bytes
  pub value : Bytes

abbrev pub line_text : Line → Bytes
line_text l = zone_line l.owner l.ttl l.kind l.value

abbrev without_feed : Line → Bytes
without_feed l = l.owner ++ (9 ∷ fields_after l.ttl l.kind l.value)

abbrev pub IsOneLine : Line → Type 0
IsOneLine l = Field l.owner × Without 10 l.kind × Without 10 l.value

zone_line-text : (l : Line) (rest : Bytes) → line_text l ++ rest ≡ without_feed l ++ (10 ∷ rest)
unfolding zone_line codes
zone_line-text l rest = simp (append_assoc) refl

zone_line-split :
    (l : Line) (rest : Bytes)
    → IsOneLine l
    → split (line_text l ++ rest) 10 ≡ without_feed l ∷ split rest 10
zone_line-split l rest (name, kind, value) = rw (zone_line-text l rest) (
    split_at 10 (without_feed l) rest (
      append-Without 10 l.owner _ name.1 (
        refl,
        append-Without 10 (decimal l.ttl) _ (decimal-Without l.ttl)
            (refl, (refl, (refl, (refl, append-Without 10 l.kind _ kind (refl, value))))),
      )))

one_line-split : (l : Line) → IsOneLine l → split (line_text l) 10 ≡ without_feed l ∷ ([] ∷ [])
unfolding split
one_line-split l h = ap (λ t. split t 10) (sym (append-nil (line_text l))) ∙ zone_line-split l [] h

pub three_lines-names :
    (origin : Bytes) (l m n : Line)
    → IsOneLine l
    → IsOneLine m
    → IsOneLine n
    → names_in origin (line_text l ++ line_text m ++ line_text n)
      ≡ resolve origin l.owner ∷ (resolve origin m.owner ∷ (resolve origin n.owner ∷ []))
three_lines-names origin l m n h h' h'' =
    rw
      (
        append_assoc (line_text l) (line_text m) (line_text n),
        zone_line-split l (line_text m ++ line_text n) h,
        zone_line-split m (line_text n) h',
        one_line-split n h'',
        before_tab-name l.owner (fields_after l.ttl l.kind l.value) h.0.0,
        before_tab-name m.owner (fields_after m.ttl m.kind m.value) h'.0.0,
        before_tab-name n.owner (fields_after n.ttl n.kind n.value) h''.0.0,
      )
      refl
