-- ===== src/Improvement/History.antt =====
-- The histories of routes and owners: texts joined by ">", without neighbours that are equal.
use phonewave.Prelude.{
  Bool, false, not, ◌&&◌, List, [], ◌∷◌, ◌++◌, Text, ◌==◌, has_rune, split_on, join_with,
  trim_space, if◌then◌else◌, is_empty,
}

-- next[len(next)-1] == value
unfoldable pub ends_in : Text → List Text → Bool
ends_in value [] = false
ends_in value (x ∷ []) = x == value
ends_in value (x ∷ y ∷ xs) = ends_in value (y ∷ xs)

unfoldable pub append_improvement_history : List Text → Text → List Text
unfolding ends_in
append_improvement_history history value =
    let trimmed = trim_space value in
    if trimmed == []
    then history
    else if ends_in trimmed history
    then history
    else history ++ trimmed ∷ []

-- The loop over the values.
unfoldable pub append_all : List Text → List Text → List Text
append_all out [] = out
append_all out (value ∷ values) = append_all (append_improvement_history out value) values

unfoldable pub normalize_improvement_history : List Text → List Text
unfolding append_all
normalize_improvement_history values = append_all [] values

unfoldable pub format_improvement_history : List Text → Text
format_improvement_history values =
    if is_empty values then [] else join_with b'>' (normalize_improvement_history values)

-- The loop over the parts, which skips those that are blank.
unfoldable pub append_parts : List Text → List Text → List Text
append_parts out [] = out
append_parts out (part ∷ parts) =
    let trimmed = trim_space part in
    append_parts (if trimmed == [] then out else append_improvement_history out trimmed) parts

-- A nil slice and an empty one are the same list.
unfoldable pub parse_improvement_history : Text → List Text
unfolding append_parts
parse_improvement_history raw =
    let trimmed = trim_space raw in
    let delimiter = if not (has_rune b'>' trimmed) && has_rune b',' trimmed then b',' else b'>' in
    if trimmed == [] then [] else append_parts [] (split_on delimiter trimmed)
