-- ===== src/Infra/Dotenv.antt =====
-- infra/dotenv.cpp: the variables of a .env file, and their way into the environment. The file is its
-- text, or `none` where it cannot be opened; the environment is a map. Texts have no null bytes, and
-- `setenv` does not run out of memory.
pub mod RoundTrip
pub mod Loading
use mylobsterpp.Prelude.{
  ℕ, Bool, true, false, not, ◌&&◌, ◌||◌, ◌==◌, Option, none, some, List, [], ◌∷◌, ◌++◌,
  if◌then◌else◌, drop, Text, codes, starts_with, break_at, break_byte, Map, lookup, assign,
}
use mylobsterpp.Infra.NetworkMode.{trim_start, trim_end}

unfoldable pub trim : Text → Text
unfolding trim_start trim_end
trim s = trim_end (trim_start s)

-- What stands for a backslash and the byte behind it.
unfoldable pub unescaped : ℕ → Text
unescaped c =
    if c == b'n'
    then 10 ∷ []
    else if c == b'r'
    then 13 ∷ []
    else if c == b't'
    then 9 ∷ []
    else if c == 92
    then 92 ∷ []
    else if c == b'"'
    then b'"' ∷ []
    else 92 ∷ c ∷ []

-- The value up to the quote, or to the end without one.
unfoldable pub parse_quoted_value : (line : Text) → (quote_char : ℕ) → Text
unfolding unescaped
parse_quoted_value [] quote_char = []
parse_quoted_value (c ∷ []) quote_char = if c == quote_char then [] else c ∷ []
parse_quoted_value (c ∷ d ∷ line) quote_char =
    let next = parse_quoted_value (d ∷ line) quote_char in
    let behind = parse_quoted_value line quote_char in
    if c == quote_char
    then []
    else if c == 92 && quote_char == b'"'
    then unescaped d ++ behind
    else c ∷ next

abbrev is_space : ℕ → Bool
is_space c = c == b' ' || c == 9

abbrev spaced : ℕ → Text → Text
spaced c [] = if is_space c then [] else c ∷ []
spaced c (d ∷ s) = c ∷ d ∷ s

-- `find_last_not_of(" \t")`: a text of blanks alone is left as it is.
unfoldable pub cut_spaces : Text → Text
cut_spaces [] = []
cut_spaces (c ∷ s) = spaced c (cut_spaces s)

abbrev or_whole : (whole cut : Text) → Text
or_whole whole [] = whole
or_whole whole (c ∷ cut) = c ∷ cut

abbrev before_comment : Text → Option (Text × Text) → Text
before_comment s none = s
before_comment s (some (front, behind)) = front

unfoldable pub unquoted_value : Text → Text
unfolding break_at cut_spaces
unquoted_value s =
    let front = before_comment s (break_at (codes " #") s) in or_whole front (cut_spaces front)

unfoldable pub value_of : (value_trimmed : Text) → Text
unfolding parse_quoted_value unquoted_value
value_of [] = []
value_of (c ∷ s) =
    if c == b'"' || c == b'\'' then parse_quoted_value s c else unquoted_value (c ∷ s)

abbrev assigned : (key : Text) → (value_part : Text) → Option (Text × Text)
assigned [] value_part = none
assigned (c ∷ key) value_part = some (c ∷ key, value_of (trim value_part))

abbrev split : Option (Text × Text) → Option (Text × Text)
split none = none
split (some (key_part, value_part)) = assigned (trim key_part) value_part

abbrev strip_export : Text → Text
strip_export line = if starts_with line (codes "export ") then trim (drop 7 line) else line

abbrev of_trimmed : Text → Option (Text × Text)
of_trimmed [] = none
of_trimmed (c ∷ line) =
    if c == b'#' then none else split (break_byte b'=' (strip_export (c ∷ line)))

-- A line's key and value, unless it is skipped.
unfoldable pub parse_line : (raw_line : Text) → Option (Text × Text)
unfolding trim value_of break_byte starts_with
parse_line raw_line = of_trimmed (trim raw_line)

abbrev onto : ℕ → List Text → List Text
onto c [] = (c ∷ []) ∷ []
onto c (line ∷ lines) = (c ∷ line) ∷ lines

-- `std::getline`; an empty line at the end is skipped as all empty lines are.
unfoldable pub lines_of : Text → List Text
lines_of [] = [] ∷ []
lines_of (c ∷ s) = let rest = lines_of s in if c == 10 then [] ∷ rest else onto c rest

abbrev pub with_entry : Option (Text × Text) → Map Text → Map Text
with_entry none env_map = env_map
with_entry (some (key, value)) env_map = assign key value env_map

unfoldable pub parse_lines : List Text → Map Text → Map Text
unfolding parse_line
parse_lines [] env_map = env_map
parse_lines (line ∷ lines) env_map = parse_lines lines (with_entry (parse_line line) env_map)

unfoldable pub parse : (file : Option Text) → Map Text
unfolding lines_of parse_lines
parse none = []
parse (some contents) = parse_lines (lines_of contents) []

abbrev pub is_set : Option Text → Bool
is_set none = false
is_set (some value) = true

unfoldable pub load_each : (overwrite : Bool) → Map Text → (environment : Map Text) → Map Text
load_each overwrite [] environment = environment
load_each overwrite ((key, value) ∷ env_map) environment = load_each overwrite env_map (
    if not overwrite && is_set (lookup key environment)
    then environment
    else assign key value environment)

unfoldable pub load :
    (file : Option Text) → (overwrite : Bool) → (environment : Map Text) → Map Text
unfolding parse load_each
load file overwrite environment = load_each overwrite (parse file) environment
