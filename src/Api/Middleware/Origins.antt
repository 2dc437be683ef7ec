-- ===== src/Api/Middleware/Origins.antt =====
-- internal/api/middleware/cors.go and internal/websocket/origin.go: the lists of origins that they
-- take from the environment. What echo and gorilla/websocket do with a list is left out, but for the
-- check of the latter, which is the program's own.

use webrana_infinimail_backe.Text.Split.{split, AllWithout, join, split-join}
use webrana_infinimail_backe.Text.Trim.{trim_space}
use webrana_infinimail_backe.Text.{
  codes, bytes_eq, Bytes, is_empty, bytes_eq_sound, bytes_eq_complete, bytes_eq_refl,
}
use webrana_infinimail_backe.Prelude.{
  [], true, false, inl, inr, refl, ◌∷◌, List, if◌then◌else◌, Bool, ◌≢◌, ◌≡◌, ◌||◌, Bool-cases, ◌⊎◌,
  ◌↔◌, ◌∙◌, sym,
}

unfoldable pub default_origin : Bytes
unfolding codes
default_origin = codes "http://localhost:3000"

-- `strings.Split(…, ",")` with each part trimmed
unfoldable pub trimmed : List Bytes → List Bytes
unfolding trim_space
trimmed [] = []
trimmed (o ∷ os) = trim_space o ∷ trimmed os

unfoldable pub listed_origins : Bytes → List Bytes
unfolding split trimmed
listed_origins allowed = trimmed (split allowed b',')

-- the list without one text
unfoldable pub without_text : Bytes → List Bytes → List Bytes
unfolding bytes_eq
without_text x [] = []
without_text x (o ∷ os) = if bytes_eq o x then without_text x os else o ∷ without_text x os

-- `if len(origins) == 0`
unfoldable pub or_default_origin : List Bytes → List Bytes
unfolding default_origin
or_default_origin [] = default_origin ∷ []
or_default_origin (o ∷ os) = o ∷ os

-- the `AllowOrigins` of `SecureCORS`, with the values of ALLOWED_ORIGINS and APP_ENV
unfoldable pub cors_origins : Bytes → Bytes → List Bytes
unfolding codes default_origin listed_origins without_text or_default_origin bytes_eq
cors_origins allowed env =
    let origins = listed_origins (if is_empty allowed then default_origin else allowed) in
    if bytes_eq env (codes "production")
    then or_default_origin (without_text (codes "*") origins)
    else origins

-- the list of `NewSecureUpgrader`
unfoldable pub upgrader_origins : Bytes → List Bytes
unfolding listed_origins without_text or_default_origin
upgrader_origins allowed = or_default_origin (without_text [] (listed_origins allowed))

unfoldable pub is_listed : Bytes → List Bytes → Bool
unfolding bytes_eq
is_listed origin [] = false
is_listed origin (o ∷ os) = bytes_eq o origin || is_listed origin os

-- `CheckOrigin`
unfoldable pub check_origin : List Bytes → Bytes → Bool
unfolding is_listed
check_origin allowed_origins origin = is_empty origin || is_listed origin allowed_origins

bytes_eq_other : (a b : Bytes) → a ≢ b → bytes_eq a b ≡ false
bytes_eq_other a b other = elim (Bool-cases (bytes_eq a b)) [
  | inl same ↦ absurd (other (bytes_eq_sound a b same))
  | inr differs ↦ differs
]

-- One of the texts, without the white space at its ends, is the origin.
abbrev pub Lists : List Bytes → Bytes → Type 0
Lists [] o = ⊥
Lists (p ∷ ps) o = (trim_space p ≡ o) ⊎ Lists ps o

-- All texts, without the white space at their ends, are one.
abbrev pub AllAre : Bytes → List Bytes → Type 0
AllAre x [] = Unit {0}
AllAre x (p ∷ ps) = (trim_space p ≡ x) × AllAre x ps

kept-Lists :
    (x o : Bytes) (ps : List Bytes)
    → is_listed o (without_text x (trimmed ps)) ≡ true
    → Lists ps o × (o ≢ x)
unfolding is_listed without_text trimmed
kept-Lists x o [] h = cc h
kept-Lists x o (p ∷ ps) h = elim (Bool-cases (bytes_eq (trim_space p) x)) [
  | inl dropped ↦ let (more, other) = kept-Lists x o ps (rw dropped at h) in (inr more, other)
  | inr kept ↦ elim (Bool-cases (bytes_eq (trim_space p) o)) [
    | inl same ↦
        let e = bytes_eq_sound (trim_space p) o same in
        (inl e, λ q. cc (bytes_eq_complete (trim_space p) x (e ∙ q), kept))
    | inr differs ↦
        let (more, other) = kept-Lists x o ps (rw (kept, differs) at h) in (inr more, other)
  ]
]

Lists-kept :
    (x o : Bytes) (ps : List Bytes)
    → Lists ps o
    → o ≢ x
    → is_listed o (without_text x (trimmed ps)) ≡ true
unfolding is_listed without_text trimmed
Lists-kept x o [] none_listed other = elim none_listed [ ]
Lists-kept x o (p ∷ ps) (inl e) other = rw (e, bytes_eq_other o x other, bytes_eq_refl o) refl
Lists-kept x o (p ∷ ps) (inr more) other = elim (Bool-cases (bytes_eq (trim_space p) x)) [
  | inl dropped ↦ rw dropped (Lists-kept x o ps more other)
  | inr kept ↦ elim (Bool-cases (bytes_eq (trim_space p) o)) [
    | inl same ↦ rw (kept, same) refl
    | inr differs ↦ rw (kept, differs) (Lists-kept x o ps more other)
  ]
]

none_kept : (x : Bytes) (ps : List Bytes) → without_text x (trimmed ps) ≡ [] → AllAre x ps
unfolding without_text trimmed
none_kept x [] h = tt
none_kept x (p ∷ ps) h = elim (Bool-cases (bytes_eq (trim_space p) x)) [
  | inl dropped ↦ (bytes_eq_sound (trim_space p) x dropped, none_kept x ps (rw dropped at h))
  | inr kept ↦ cc (rw kept at h)
]

all_dropped : (x : Bytes) (ps : List Bytes) → AllAre x ps → without_text x (trimmed ps) ≡ []
unfolding without_text trimmed
all_dropped x [] h = refl
all_dropped x (p ∷ ps) (e, h) = rw (e, bytes_eq_refl x) (all_dropped x ps h)

listed_or_default :
    (o : Bytes) (os : List Bytes)
    → is_listed o (or_default_origin os) ≡ true
    → (is_listed o os ≡ true) ⊎ ((os ≡ []) × (o ≡ default_origin))
unfolding is_listed or_default_origin
listed_or_default o [] h = elim (Bool-cases (bytes_eq default_origin o)) [
  | inl same ↦ inr (refl, sym (bytes_eq_sound default_origin o same))
  | inr differs ↦ cc (rw differs at h)
]
listed_or_default o (p ∷ os) h = inl h

listed_still :
    (o : Bytes) (os : List Bytes)
    → is_listed o os ≡ true
    → is_listed o (or_default_origin os) ≡ true
unfolding is_listed or_default_origin
listed_still o [] h = cc h
listed_still o (p ∷ os) h = h

default_listed :
    (os : List Bytes) → os ≡ [] → is_listed default_origin (or_default_origin os) ≡ true
unfolding is_listed or_default_origin
default_listed os h = rw (h, bytes_eq_refl default_origin) refl

-- the list that is left without one text, or the default origin
kept-Outcome :
    (x o : Bytes) (ps : List Bytes)
    → (is_listed o (or_default_origin (without_text x (trimmed ps))) ≡ true)
      ↔ ((Lists ps o × (o ≢ x)) ⊎ (AllAre x ps × (o ≡ default_origin)))
kept-Outcome x o ps = (
  λ h. elim (listed_or_default o (without_text x (trimmed ps)) h) [
    | inl listed ↦ inl (kept-Lists x o ps listed)
    | inr (none_left, same) ↦ inr (none_kept x ps none_left, same)
  ],
  λ h. elim h [
    | inl (listed, other) ↦
        listed_still o (without_text x (trimmed ps)) (Lists-kept x o ps listed other)
    | inr (all, same) ↦ rw same (default_listed _ (all_dropped x ps all))
  ],
)

upgrader-listed :
    (allowed o : Bytes) (ps : List Bytes)
    → split allowed b',' ≡ ps
    → (check_origin (upgrader_origins allowed) o ≡ true)
      ↔ ((o ≡ []) ⊎ Lists ps o ⊎ (AllAre [] ps × (o ≡ default_origin)))
unfolding check_origin upgrader_origins listed_origins
upgrader-listed allowed [] ps parts = (λ h. inl refl, λ h. refl)
upgrader-listed allowed (c ∷ o) ps parts =
    let (listed, back) = kept-Outcome [] (c ∷ o) ps in
    (
      λ h. elim (listed (rw parts at h)) [
        | inl (one, other) ↦ inr (inl one)
        | inr all ↦ inr (inr all)
      ],
      λ h. elim h [
        | inl empty ↦ cc empty
        | inr (inl one) ↦ rw parts (back (inl (one, λ q. cc q)))
        | inr (inr all) ↦ rw parts (back (inr all))
      ],
    )

sole_origin : (d o : Bytes) → (is_listed o (d ∷ []) ≡ true) ↔ (o ≡ d)
unfolding is_listed
sole_origin d o = elim (Bool-cases (bytes_eq d o)) [
  | inl same ↦ (λ h. sym (bytes_eq_sound d o same), λ e. rw same refl)
  | inr differs ↦ (λ h. cc (rw differs at h), λ e. cc (bytes_eq_complete d o (sym e), differs))
]

only_default :
    (o : Bytes) → (is_listed o (cors_origins [] (codes "production")) ≡ true) ↔ (o ≡ default_origin)
unfolding cors_origins is_listed
only_default o = sole_origin default_origin o

cors-listed :
    (allowed o : Bytes) (ps : List Bytes)
    → split allowed b',' ≡ ps
    → (is_listed o (cors_origins allowed (codes "production")) ≡ true) ↔ (
        ((allowed ≢ []) × Lists ps o × (o ≢ codes "*"))
        ⊎ (((allowed ≡ []) ⊎ AllAre (codes "*") ps) × (o ≡ default_origin)))
unfolding cors_origins listed_origins codes bytes_eq
cors-listed [] o ps parts =
    let (only, back) = only_default o in
    (
      λ h. inr (inl refl, only h),
      λ h. elim h [
        | inl (some_text, one, other) ↦ absurd (some_text refl)
        | inr (all, same) ↦ back same
      ],
    )
cors-listed (c ∷ allowed) o ps parts =
    let (listed, back) = kept-Outcome (codes "*") o ps in
    (
      λ h. elim (listed (rw parts at h)) [
        | inl (one, other) ↦ inl (λ q. cc q, one, other)
        | inr (all, same) ↦ inr (inr all, same)
      ],
      λ h. elim h [
        | inl (some_text, one, other) ↦ rw parts (back (inl (one, other)))
        | inr (inl empty, same) ↦ cc empty
        | inr (inr all, same) ↦ rw parts (back (inr (all, same)))
      ],
    )

-- For a value of ALLOWED_ORIGINS that is some texts without a comma, with a comma between each two:
-- the WebSocket takes just a request without an origin, the origins that one of the texts is but
-- for the white space at its ends, and, if all texts are empty but for white space,
-- "http://localhost:3000"; the list of CORS in production has just the origins that one of the texts
-- is in this sense, but for the wildcard "*", if the value is not empty, and
-- "http://localhost:3000", if it is empty or all texts are the wildcard.
pub taken_origins-Outcome :
    (p : Bytes) (ps : List Bytes) (o : Bytes)
    → AllWithout b',' (p ∷ ps)
    → ((check_origin (upgrader_origins (join b',' (p ∷ ps))) o ≡ true) ↔ (
        (o ≡ []) ⊎ Lists (p ∷ ps) o ⊎ (AllAre [] (p ∷ ps) × (o ≡ codes "http://localhost:3000"))))
      × ((is_listed o (cors_origins (join b',' (p ∷ ps)) (codes "production")) ≡ true) ↔ (
          ((join b',' (p ∷ ps) ≢ []) × Lists (p ∷ ps) o × (o ≢ codes "*"))
          ⊎ (((join b',' (p ∷ ps) ≡ []) ⊎ AllAre (codes "*") (p ∷ ps))
              × (o ≡ codes "http://localhost:3000"))))
unfolding default_origin
taken_origins-Outcome p ps o h =
    let parts = split-join b',' p ps h in
    (
      upgrader-listed (join b',' (p ∷ ps)) o (p ∷ ps) parts,
      cors-listed (join b',' (p ∷ ps)) o (p ∷ ps) parts,
    )
