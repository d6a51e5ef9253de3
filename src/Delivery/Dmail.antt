-- ===== src/Delivery/Dmail.antt =====
-- D-Mail files: their names, frontmatter and kinds. The contents of files are lists of bytes.
use phonewave.Prelude.{
  ℕ, zero, suc, ◌+◌, Bool, false, not, ◌&&◌, Option, none, some, List, [], ◌∷◌, Text, codes, ◌==◌,
  contains, has_prefix, if◌then◌else◌, Dict, ℤ, ltb, length,
}
use phonewave.FilePath.{base, ext}

-- Why a delivery fails.
pub data Failure : Type 0 where
  no_frontmatter bad_yaml missing_schema unsupported_schema missing_kind invalid_kind : Failure
  no_route dedup_unread stage_failed remove_failed : Failure

-- A value and a nil error, or an error.
pub data Result {ℓ} (A : Type ℓ) : Type ℓ where
  ok : A → Result A
  failed : Failure → Result A

pub record DMailFrontmatter : Type 0 where
  pub schema_version : Text
  pub name : Text
  pub kind : Text
  pub description : Text
  pub action : Text
  pub priority : ℤ
  pub targets : List Text
  pub metadata : Dict Text

abbrev pub supported_dmail_schema_version : Text
supported_dmail_schema_version = codes "1"

abbrev pub unknown_kind : Text
unknown_kind = codes "unknown"

abbrev pub valid_dmail_kinds : List Text
valid_dmail_kinds =
    codes "specification"
    ∷ codes "report"
    ∷ codes "design-feedback"
    ∷ codes "implementation-feedback"
    ∷ codes "convergence"
    ∷ codes "ci-result"
    ∷ codes "stall-escalation"
    ∷ []

unfoldable pub is_valid_dmail_kind : Text → Bool
is_valid_dmail_kind kind = contains valid_dmail_kinds kind

unfoldable pub parse_dmail_kind : Text → Result Text
unfolding is_valid_dmail_kind
parse_dmail_kind raw = if not (is_valid_dmail_kind raw) then failed invalid_kind else ok raw

-- The loop over the text after the first three bytes, from the position i of its first byte on.
unfoldable pub closing_line : ℕ → Text → Option ℕ
closing_line i [] = none
closing_line i (c ∷ cs) =
    let later = closing_line (i + 1) cs in
    if has_prefix (c ∷ cs) (codes "\n---") then some (3 + i + 1) else later

abbrev pub drop_bytes : ℕ → Text → Text
drop_bytes zero t = t
drop_bytes (suc n) [] = []
drop_bytes (suc n) (c ∷ cs) = drop_bytes n cs

abbrev pub take_bytes : ℕ → Text → Text
take_bytes zero t = []
take_bytes (suc n) [] = []
take_bytes (suc n) (c ∷ cs) = c ∷ take_bytes n cs

-- The offset of the closing "---"; none for -1.
unfoldable pub find_frontmatter_end : Text → Option ℕ
unfolding closing_line
find_frontmatter_end content =
    if ltb (length content) 4
    then none
    else if not (has_prefix content (codes "---"))
    then none
    else closing_line 0 (drop_bytes 3 content)

-- content[3:idx]
abbrev pub block_until : ℕ → Text → Text
block_until idx content = drop_bytes 3 (take_bytes idx content)

-- ParseDMailFrontmatter, with yaml.Unmarshal, which is none on an error.
unfoldable pub parse_dmail_frontmatter :
    (Text → Option DMailFrontmatter) → Text → Result DMailFrontmatter
parse_dmail_frontmatter unmarshal content = elim (find_frontmatter_end content) [
  | none ↦ failed no_frontmatter
  | some idx ↦ elim (unmarshal (block_until idx content)) [
    | none ↦ failed bad_yaml
    | some fm ↦ ok fm
  ]
]

-- The checks that follow, in ExtractDMailKind and in DeliverData.
unfoldable pub checked_kind : DMailFrontmatter → Result Text
unfolding parse_dmail_kind
checked_kind fm =
    if fm.schema_version == []
    then failed missing_schema
    else if not (fm.schema_version == supported_dmail_schema_version)
    then failed unsupported_schema
    else if fm.kind == []
    then failed missing_kind
    else parse_dmail_kind fm.kind

unfoldable pub extract_dmail_kind : (Text → Option DMailFrontmatter) → Text → Result Text
extract_dmail_kind unmarshal content = elim (parse_dmail_frontmatter unmarshal content) [
  | failed e ↦ failed e
  | ok fm ↦ checked_kind fm
]

-- What the callers of ExtractDMailKind take for the kind.
unfoldable pub kind_or_unknown : Result Text → Text
kind_or_unknown (failed e) = unknown_kind
kind_or_unknown (ok kind) = if kind == [] then unknown_kind else kind

unfoldable pub is_dmail_file : Text → Bool
is_dmail_file name =
    let file = base name in
    if file == []
    then false
    else if file == codes "."
    then false
    else ext file == codes ".md" && not (has_prefix file (codes ".phonewave-tmp-"))
