-- ===== src/Setup/Declared.antt =====
-- What a scan of a repository can give.
use phonewave.Prelude.{
  ◌≡◌, refl, inl, inr, Bool, true, false, ◌&&◌, Option, none, some, List, [], ◌∷◌, arith, Text,
  Bool-cases, if◌then◌else◌, In, contains-In,
}
use phonewave.Router.{Endpoint}
use phonewave.Delivery.{valid_dmail_kinds, is_valid_dmail_kind}
use phonewave.Scan.{DirEntry}
use phonewave.Setup.Scanner.{
  DMailCapability, SkillFrontmatter, Tree, decoded, versioned, all_valid, parse_skill_frontmatter,
  kinds_of, read_skill, skill_path, skill_sendable, skill_readable, produced, consumed,
  scan_endpoint, is_tool_dir, scan_entries, scan_repository,
}

-- Every kind is one of the seven.
abbrev pub AllKinds : List Text → Type 0
AllKinds kinds = (kind : Text) → In kind kinds → In kind valid_dmail_kinds

all_valid-AllKinds : (cs : List DMailCapability) → all_valid cs ≡ true → AllKinds (kinds_of cs)
unfolding all_valid kinds_of is_valid_dmail_kind
all_valid-AllKinds [] h kind at = absurd at
all_valid-AllKinds (c ∷ cs) h kind (inl e) =
    rw e (contains-In valid_dmail_kinds c.kind (ground arith))
all_valid-AllKinds (c ∷ cs) h kind (inr at) = all_valid-AllKinds cs (ground arith) kind at

-- The skill, if there is one, has valid kinds.
abbrev ValidSkill : Option SkillFrontmatter → Type 0
ValidSkill none = Unit
ValidSkill (some skill) = AllKinds (kinds_of skill.produces) × AllKinds (kinds_of skill.consumes)

parse-ValidSkill :
    (decode : Text → Option SkillFrontmatter) (content : Text)
    → ValidSkill (parse_skill_frontmatter decode content)
unfolding parse_skill_frontmatter
parse-ValidSkill decode content = by_decoded (decoded decode content) refl
  where
    by_versioned :
        (raw : SkillFrontmatter) (v : Option SkillFrontmatter)
        → decoded decode content ≡ some raw
        → versioned raw ≡ v
        → ValidSkill (parse_skill_frontmatter decode content)
    by_versioned raw none eq e =
        rw (eq, parse_skill_frontmatter) (rw (e, parse_skill_frontmatter) tt)
    by_versioned raw (some skill) eq e =
        elim (Bool-cases (all_valid skill.produces && all_valid skill.consumes)) [
          | inr bad ↦ rw (eq, parse_skill_frontmatter) (rw (e, bad, parse_skill_frontmatter) tt)
          | inl good ↦
              rw (eq, parse_skill_frontmatter)
                (rw (e, good, parse_skill_frontmatter)
                  (
                    all_valid-AllKinds skill.produces (ground (arith, good)),
                    all_valid-AllKinds skill.consumes (ground (arith, good)),
                  ))
        ]

    by_decoded :
        (raw : Option SkillFrontmatter)
        → decoded decode content ≡ raw
        → ValidSkill (parse_skill_frontmatter decode content)
    by_decoded none eq = rw (eq, parse_skill_frontmatter) tt
    by_decoded (some raw) eq = by_versioned raw (versioned raw) eq refl

abbrev ValidRead : Option (Option SkillFrontmatter) → Type 0
ValidRead none = Unit
ValidRead (some skill) = ValidSkill skill

read_skill-Valid : (tree : Tree) (path : Text) → ValidRead (read_skill tree path)
unfolding read_skill
read_skill-Valid tree path = by_file (tree.read_file path) refl
  where
    by_parse :
        (content : Text) (p : Option SkillFrontmatter)
        → tree.read_file path ≡ some content
        → parse_skill_frontmatter tree.decode content ≡ p
        → ValidSkill p
        → ValidRead (read_skill tree path)
    by_parse content none eq e v = rw (eq, read_skill) (rw (e, read_skill) tt)
    by_parse content (some s) eq e v = rw (eq, read_skill) (rw (e, read_skill) v)

    by_file : (file : Option Text) → tree.read_file path ≡ file → ValidRead (read_skill tree path)
    by_file none eq = rw (eq, read_skill) tt
    by_file (some content) eq =
        by_parse content (parse_skill_frontmatter tree.decode content) eq refl
          (parse-ValidSkill tree.decode content)

produced-AllKinds : (skill : Option SkillFrontmatter) → ValidSkill skill → AllKinds (produced skill)
produced-AllKinds none v = λ kind at. absurd at
produced-AllKinds (some skill) v = v.0

consumed-AllKinds : (skill : Option SkillFrontmatter) → ValidSkill skill → AllKinds (consumed skill)
consumed-AllKinds none v = λ kind at. absurd at
consumed-AllKinds (some skill) v = v.1

-- The endpoint of the directory, with valid kinds.
abbrev pub IsEndpointOf : Text → Endpoint → Type 0
IsEndpointOf dir ep = (ep.dir ≡ dir) × AllKinds ep.produces × AllKinds ep.consumes

abbrev ValidEndpoint : Text → Option (Endpoint × Bool) → Type 0
ValidEndpoint dir none = Unit
ValidEndpoint dir (some (ep, found)) = IsEndpointOf dir ep

scan_endpoint-Valid :
    (tree : Tree) (repo_path dir : Text) → ValidEndpoint dir (scan_endpoint tree repo_path dir)
unfolding scan_endpoint
scan_endpoint-Valid tree repo_path dir =
    by_reads (read_skill tree sendable) refl (read_skill-Valid tree sendable)
      (read_skill tree readable) refl (read_skill-Valid tree readable)
  where
    sendable : Text
    sendable = skill_path repo_path dir skill_sendable

    readable : Text
    readable = skill_path repo_path dir skill_readable

    by_reads :
        (s : Option (Option SkillFrontmatter))
        → read_skill tree sendable ≡ s
        → ValidRead s
        → (r : Option (Option SkillFrontmatter)) → read_skill tree readable ≡ r
        → ValidRead r
        → ValidEndpoint dir (scan_endpoint tree repo_path dir)
    by_reads none es vs r er vr = rw (es, scan_endpoint) tt
    by_reads (some s) es vs none er vr = rw (es, scan_endpoint) (rw (er, scan_endpoint) tt)
    by_reads (some s) es vs (some r) er vr =
        rw (es, scan_endpoint)
          (rw (er, scan_endpoint) (refl, produced-AllKinds s vs, consumed-AllKinds r vr))

-- The endpoint stands for a dot-directory among the entries, one that the scan does not leave out.
abbrev pub IsDeclared : List DirEntry → Endpoint → Type 0
IsDeclared entries ep =
    (entry : DirEntry) × In entry entries
    × (is_tool_dir entry ≡ true)
    × IsEndpointOf entry.file_name ep

abbrev pub AllDeclared : List DirEntry → Option (List Endpoint) → Type 0
AllDeclared entries none = Unit
AllDeclared entries (some eps) = (ep : Endpoint) → In ep eps → IsDeclared entries ep

Declared-later :
    (entry : DirEntry) (entries : List DirEntry) (o : Option (List Endpoint))
    → AllDeclared entries o
    → AllDeclared (entry ∷ entries) o
Declared-later entry entries none h = tt
Declared-later entry entries (some eps) h =
    λ ep at. let (e, m, tool, is) = h ep at in (e, inr m, tool, is)

found-AllDeclared :
    (entry : DirEntry) (entries : List DirEntry) (ep : Endpoint) (found : Bool)
    (eps : List Endpoint)
    → is_tool_dir entry ≡ true
    → IsEndpointOf entry.file_name ep
    → AllDeclared entries (some eps)
    → AllDeclared (entry ∷ entries) (some (if found then ep ∷ eps else eps))
found-AllDeclared entry entries ep false eps tool is h = Declared-later entry entries (some eps) h
found-AllDeclared entry entries ep true eps tool is h = either
  where
    either : (x : Endpoint) → In x (ep ∷ eps) → IsDeclared (entry ∷ entries) x
    either x (inl e) = (entry, inl refl, tool, rw e is)
    either x (inr at) = Declared-later entry entries (some eps) h x at

scan_entries-AllDeclared :
    (tree : Tree) (repo_path : Text) (entries : List DirEntry)
    → AllDeclared entries (scan_entries tree repo_path entries)
unfolding scan_entries
scan_entries-AllDeclared tree repo_path [] = λ ep at. absurd at
scan_entries-AllDeclared tree repo_path (entry ∷ entries) =
    by_rest (scan_entries tree repo_path entries) refl
      (scan_entries-AllDeclared tree repo_path entries)
  where
    by_scan :
        (rest : Option (List Endpoint))
        → scan_entries tree repo_path entries ≡ rest
        → AllDeclared entries rest
        → is_tool_dir entry ≡ true
        → (s : Option (Endpoint × Bool)) → scan_endpoint tree repo_path entry.file_name ≡ s
        → ValidEndpoint entry.file_name s
        → AllDeclared (entry ∷ entries) (scan_entries tree repo_path (entry ∷ entries))
    by_scan rest er h tool none es v = rw (tool, scan_entries) (rw (es, scan_entries) tt)
    by_scan none er h tool (some (ep, found)) es v =
        rw (tool, scan_entries) (rw (es, scan_entries) (rw (er, scan_entries) tt))
    by_scan (some eps) er h tool (some (ep, found)) es v =
        rw (tool, scan_entries)
          (rw (es, scan_entries)
            (rw (er, scan_entries) (found-AllDeclared entry entries ep found eps tool v h)))

    by_rest :
        (rest : Option (List Endpoint))
        → scan_entries tree repo_path entries ≡ rest
        → AllDeclared entries rest
        → AllDeclared (entry ∷ entries) (scan_entries tree repo_path (entry ∷ entries))
    by_rest rest er h = elim (Bool-cases (is_tool_dir entry)) [
      | inr skip ↦
          rw (skip, scan_entries) (rw (er, scan_entries) (Declared-later entry entries rest h))
      | inl tool ↦
          by_scan rest er h tool (scan_endpoint tree repo_path entry.file_name) refl
            (scan_endpoint-Valid tree repo_path entry.file_name)
    ]

-- What ScanRepository returns without an error: every endpoint stands for a directory of the
-- repository whose name begins with a dot and is not .git, .github or the state directory, and every
-- kind that it produces or consumes is one of the seven kinds of D-Mails.
pub scan_repository-AllDeclared :
    (tree : Tree) (repo_path : Text) (entries : List DirEntry)
    → tree.read_dir repo_path ≡ some entries
    → AllDeclared entries (scan_repository tree repo_path)
unfolding scan_repository
scan_repository-AllDeclared tree repo_path entries eq =
    rw (eq, scan_repository) (scan_entries-AllDeclared tree repo_path entries)
