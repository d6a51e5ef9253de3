-- ===== src/FilePath/Paths.antt =====
-- What the program uses of Go's path/filepath on a Unix system: Clean, Join, Dir, Base and Ext.
-- `Clean` keeps a stack of the pieces between slashes, the last one on top.
use mathlib.Core.List.{foldl}
use phonewave.Prelude.{
  ℕ, Bool, true, false, List, [], ◌∷◌, ◌++◌, Text, codes, ◌==◌, split_on, join_with, has_rune,
  nat_eq, if◌then◌else◌, is_empty,
}

abbrev pub slash : ℕ
slash = b'/'

-- The effect of ".." on the pieces before it.
abbrev pop : Bool → List Text → List Text
pop rooted [] = if rooted then [] else codes ".." ∷ []
pop rooted (s ∷ rest) = if s == codes ".." then codes ".." ∷ s ∷ rest else rest

unfoldable pub push : Bool → List Text → Text → List Text
push rooted stack seg =
    if seg == []
    then stack
    else if seg == codes "."
    then stack
    else if seg == codes ".."
    then pop rooted stack
    else seg ∷ stack

abbrev pub is_rooted : Text → Bool
is_rooted [] = false
is_rooted (c ∷ cs) = nat_eq c slash

unfoldable pub pieces : Text → List Text
pieces path = foldl (push (is_rooted path)) [] (split_on slash path)

-- strings.Join of the stack, from its bottom to its top
unfoldable pub unwind : List Text → Text
unwind [] = []
unwind (s ∷ []) = s
unwind (s ∷ t ∷ rest) = unwind (t ∷ rest) ++ slash ∷ s

unfoldable pub render : Bool → List Text → Text
render true stack = slash ∷ unwind stack
render false [] = codes "."
render false (s ∷ rest) = unwind (s ∷ rest)

-- filepath.Clean
unfoldable pub clean : Text → Text
clean path = if is_empty path then codes "." else render (is_rooted path) (pieces path)

-- filepath.Join of two elements
unfoldable pub join : Text → Text → Text
join [] [] = []
join [] (c ∷ cs) = clean (c ∷ cs)
join (a ∷ as_) b = clean ((a ∷ as_) ++ slash ∷ b)

-- filepath.Join: elements that are empty are left out at the beginning, and Clean drops the others.
unfoldable pub join_all : List Text → Text
join_all [] = []
join_all ([] ∷ elements) = join_all elements
join_all ((c ∷ cs) ∷ elements) = clean (join_with slash ((c ∷ cs) ∷ elements))

-- The path up to its last slash, that slash included.
unfoldable pub up_to_last : Text → Text
up_to_last [] = []
up_to_last (c ∷ cs) =
    let rest = up_to_last cs in
    if is_empty rest then (if nat_eq c slash then c ∷ [] else []) else c ∷ rest

-- filepath.Dir
unfoldable pub dir : Text → Text
dir path = clean (up_to_last path)

-- What stands behind the last slash.
unfoldable pub after_last : Text → Text
after_last [] = []
after_last (c ∷ cs) =
    let rest = after_last cs in
    if has_rune slash (c ∷ cs) then (if has_rune slash cs then rest else cs) else c ∷ cs

unfoldable pub strip_slashes : Text → Text
strip_slashes [] = []
strip_slashes (c ∷ cs) =
    let rest = strip_slashes cs in
    if is_empty rest then (if nat_eq c slash then [] else c ∷ []) else c ∷ rest

abbrev or_slash : Text → Text
or_slash [] = codes "/"
or_slash (c ∷ cs) = c ∷ cs

-- filepath.Base
unfoldable pub base : Text → Text
base path = if is_empty path then codes "." else or_slash (after_last (strip_slashes path))

-- filepath.Ext of a name with no slash: from its last dot on
unfoldable pub ext : Text → Text
ext [] = []
ext (c ∷ cs) =
    let rest = ext cs in if has_rune b'.' cs then rest else (if nat_eq c b'.' then c ∷ cs else [])
