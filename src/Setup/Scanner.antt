-- ===== src/Setup/Scanner.antt =====
-- The declarations of a repository: the SKILL.md files below its dot-directories.
use phonewave.Prelude.{
  Bool, true, false, not, ◌&&◌, ◌||◌, Option, none, some, List, [], ◌∷◌, Text, codes, ◌==◌,
  has_prefix, if◌then◌else◌,
}
use phonewave.FilePath.{join_all}
use phonewave.Router.{Endpoint}
use phonewave.Delivery.{is_valid_dmail_kind, supported_dmail_schema_version, drop_bytes}
use phonewave.Scan.{DirEntry}

pub record DMailCapability : Type 0 where
  pub kind : Text
  pub description : Text

pub record SkillMetadata : Type 0 where
  pub schema_version : Text
  pub produces : List DMailCapability
  pub consumes : List DMailCapability

pub record SkillFrontmatter : Type 0 where
  pub name : Text
  pub description : Text
  pub produces : List DMailCapability
  pub consumes : List DMailCapability
  pub metadata : SkillMetadata

-- What a scan reads: directories, files, and the decoder of YAML; none is an error.
pub record Tree : Type 0 where
  pub read_dir : Text → Option (List DirEntry)
  pub read_file : Text → Option Text
  pub decode : Text → Option SkillFrontmatter

-- rest[:strings.Index(rest, "\n---")], none for -1
unfoldable pub until_closing : Text → Option Text
until_closing [] = none
until_closing (c ∷ cs) =
    let later = until_closing cs in
    if has_prefix (c ∷ cs) (codes "\n---")
    then some []
    else elim later [ none ↦ none | some rest ↦ some (c ∷ rest) ]

-- The frontmatter of the file, decoded.
unfoldable pub decoded : (Text → Option SkillFrontmatter) → Text → Option SkillFrontmatter
unfolding until_closing
decoded decode content =
    if not (has_prefix content (codes "---"))
    then none
    else elim (until_closing (drop_bytes 3 content)) [
      | none ↦ none
      | some frontmatter ↦ decode frontmatter
    ]

abbrev pub is_none {ℓ} : {A : Type ℓ} → List A → Bool
is_none [] = true
is_none (x ∷ xs) = false

-- The checks of the version; the capabilities of the metadata become those of the skill.
unfoldable pub versioned : SkillFrontmatter → Option SkillFrontmatter
versioned skill =
    if not (is_none skill.produces) || not (is_none skill.consumes)
    then none
    else if skill.metadata.schema_version == []
    then (if not (is_none skill.metadata.produces) || not (is_none skill.metadata.consumes)
        then none
        else some skill)
    else if not (skill.metadata.schema_version == supported_dmail_schema_version)
    then none
    else some
        (record skill { produces = skill.metadata.produces; consumes = skill.metadata.consumes })

unfoldable pub all_valid : List DMailCapability → Bool
all_valid [] = true
all_valid (c ∷ cs) = is_valid_dmail_kind c.kind && all_valid cs

-- ParseSkillFrontmatter
unfoldable pub parse_skill_frontmatter :
    (Text → Option SkillFrontmatter) → Text → Option SkillFrontmatter
unfolding decoded versioned all_valid
parse_skill_frontmatter decode content = elim (decoded decode content) [
  | none ↦ none
  | some raw ↦ elim (versioned raw) [
    | none ↦ none
    | some skill ↦ if all_valid skill.produces && all_valid skill.consumes then some skill else none
  ]
]

unfoldable pub kinds_of : List DMailCapability → List Text
kinds_of [] = []
kinds_of (c ∷ cs) = c.kind ∷ kinds_of cs

abbrev pub skill_path : Text → Text → Text → Text
skill_path repo_path dir_name skill =
    join_all (repo_path ∷ dir_name ∷ codes "skills" ∷ skill ∷ codes "SKILL.md" ∷ [])

abbrev pub skill_sendable : Text
skill_sendable = codes "dmail-sendable"

abbrev pub skill_readable : Text
skill_readable = codes "dmail-readable"

-- The skill of a file: none is an error, some none a file that cannot be read.
unfoldable pub read_skill : Tree → Text → Option (Option SkillFrontmatter)
read_skill tree path = elim (tree.read_file path) [
  | none ↦ some none
  | some content ↦ elim (parse_skill_frontmatter tree.decode content) [
    | none ↦ none
    | some skill ↦ some (some skill)
  ]
]

abbrev pub produced : Option SkillFrontmatter → List Text
produced none = []
produced (some skill) = kinds_of skill.produces

abbrev pub consumed : Option SkillFrontmatter → List Text
consumed none = []
consumed (some skill) = kinds_of skill.consumes

abbrev pub either_found : Option SkillFrontmatter → Option SkillFrontmatter → Bool
either_found none none = false
either_found none (some s) = true
either_found (some s) readable = true

-- scanEndpoint: none is an error; otherwise the endpoint, and whether one was found.
unfoldable pub scan_endpoint : Tree → Text → Text → Option (Endpoint × Bool)
unfolding read_skill kinds_of
scan_endpoint tree repo_path dir_name =
    elim (read_skill tree (skill_path repo_path dir_name skill_sendable)) [
      | none ↦ none
      | some sendable ↦ elim (read_skill tree (skill_path repo_path dir_name skill_readable)) [
        | none ↦ none
        | some readable ↦ some (
          record { dir = dir_name; produces = produced sendable; consumes = consumed readable },
          either_found sendable readable,
        )
      ]
    ]

-- The directories that the loop of ScanRepository looks into.
unfoldable pub is_tool_dir : DirEntry → Bool
is_tool_dir entry =
    entry.is_dir
    && (has_prefix entry.file_name (codes ".")
        && not (
            entry.file_name == codes ".git"
            || (entry.file_name == codes ".github" || entry.file_name == codes ".phonewave")))

unfoldable pub scan_entries : Tree → Text → List DirEntry → Option (List Endpoint)
unfolding is_tool_dir scan_endpoint
scan_entries tree repo_path [] = some []
scan_entries tree repo_path (entry ∷ entries) =
    let rest = scan_entries tree repo_path entries in
    if not (is_tool_dir entry) then rest else elim (scan_endpoint tree repo_path entry.file_name) [
      | none ↦ none
      | some (ep, found) ↦ elim rest [
        | none ↦ none
        | some eps ↦ some (if found then ep ∷ eps else eps)
      ]
    ]

-- ScanRepository
unfoldable pub scan_repository : Tree → Text → Option (List Endpoint)
unfolding scan_entries
scan_repository tree repo_path = elim (tree.read_dir repo_path) [
  | none ↦ none
  | some entries ↦ scan_entries tree repo_path entries
]
