-- ===== src/Tests/Configuring.antt =====
-- A repository with one tool that sends and one that reads, scanned, synchronised and resolved.
use phonewave.Prelude.{
  ◌≡◌, ◌↔◌, refl, true, none, some, List, [], ◌∷◌, Text, codes, ◌==◌, if◌then◌else◌, has_prefix,
  contains, split_on, join_with,
}
use phonewave.FilePath.{join_all, clean, render, unwind, pieces, push}
use phonewave.Router.{Endpoint, sort, insert_sorted, text_le}
use phonewave.Config.{Config}
use phonewave.Delivery.{is_valid_dmail_kind}
use phonewave.Scan.{DirEntry}
use phonewave.Setup.{
  SkillFrontmatter, Tree, parse_skill_frontmatter, decoded, until_closing, versioned, all_valid,
  read_skill, kinds_of, scan_endpoint, is_tool_dir, scan_entries, scan_repository, slices_equal,
  same_texts, collect_outbox_dirs, sync,
}
use phonewave.Setup.Sorting.{count, slices_equal_iff}
use phonewave.Setup.Syncing.{SyncedAs, sync_cases}
use phonewave.Setup.Declared.{AllDeclared, scan_repository-AllDeclared}

abbrev report : Text
report = codes "report"

abbrev skill : SkillFrontmatter
skill = record {
  name = codes "s";
  description = [];
  produces = [];
  consumes = [];
  metadata = record {
    schema_version = codes "1";
    produces = record { kind = report; description = [] } ∷ [];
    consumes = [];
  };
}

abbrev root : Text
root = codes "/r"

abbrev entries : List DirEntry
entries =
    record { file_name = codes ".git"; is_dir = true }
    ∷ record { file_name = codes ".siren"; is_dir = true }
    ∷ record { file_name = codes "src"; is_dir = true }
    ∷ []

abbrev tree : Tree
tree = record {
  read_dir = λ path. some entries;
  read_file = λ path.
      if path == codes "/r/.siren/skills/dmail-sendable/SKILL.md"
      then some (codes "---\nx\n---\n")
      else none;
  decode = λ block. if block == codes "\nx" then some skill else none;
}

abbrev siren : Endpoint
siren = record { dir = codes ".siren"; produces = report ∷ []; consumes = [] }

abbrev reader : Endpoint
reader = record { dir = codes ".reader"; produces = []; consumes = report ∷ [] }

abbrev cfg : Config
cfg = record {
  last_synced = 0;
  repositories = record { path = root; endpoints = siren ∷ reader ∷ [] } ∷ [];
  routes = [];
}

scan-root : scan_repository tree root ≡ some (siren ∷ [])
unfolding scan_repository scan_entries is_tool_dir has_prefix ◌==◌ scan_endpoint read_skill join_all
    join_with clean render unwind pieces split_on push parse_skill_frontmatter decoded until_closing
    versioned all_valid is_valid_dmail_kind contains kinds_of
scan-root = refl

equal-sorted : slices_equal (codes "b" ∷ codes "a" ∷ []) (codes "a" ∷ codes "b" ∷ []) ≡ true
unfolding slices_equal same_texts sort insert_sorted text_le ◌==◌
equal-sorted = refl

slices_equal_iff_example :
    (slices_equal (codes "b" ∷ codes "a" ∷ []) (codes "a" ∷ codes "b" ∷ []) ≡ true)
    ↔ ((t : Text) → count t (codes "b" ∷ codes "a" ∷ []) ≡ count t (codes "a" ∷ codes "b" ∷ []))
slices_equal_iff_example =
    slices_equal_iff (codes "b" ∷ codes "a" ∷ []) (codes "a" ∷ codes "b" ∷ [])

scan_repository-AllDeclared_example : AllDeclared entries (scan_repository tree root)
scan_repository-AllDeclared_example = scan_repository-AllDeclared tree root entries refl

sync_cases_example : SyncedAs 7 tree cfg (sync 7 tree cfg)
sync_cases_example = sync_cases 7 tree cfg

outbox-root : collect_outbox_dirs cfg ≡ codes "/r/.siren/outbox" ∷ []
unfolding collect_outbox_dirs join_all join_with clean render unwind pieces split_on push ◌==◌
outbox-root = refl
