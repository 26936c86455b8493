-- ===== src/Infra/FsPath.antt =====
-- What the guards use of `std::filesystem` and of POSIX. The operations on the text of a path are
-- written out; the file system itself is a record of answers, a parameter of every guard.
use mylobsterpp.Prelude.{
  ℕ, Bool, true, false, not, ◌&&◌, Option, none, some, List, [], ◌∷◌, ◌++◌, ◌==◌, if◌then◌else◌,
  Text, has_byte,
}

abbrev pub slash : ℕ
slash = b'/'

-- `p.filename()`: what stands behind the last separator.
unfoldable pub filename : Text → Text
unfolding has_byte
filename [] = []
filename (c ∷ p) = let rest = filename p in if has_byte slash (c ∷ p) then rest else c ∷ p

unfoldable pub only_slashes : Text → Bool
only_slashes [] = true
only_slashes (c ∷ p) = c == slash && only_slashes p

-- What stands up to the last separator.
unfoldable pub dir_part : Text → Text
unfolding has_byte
dir_part [] = []
dir_part (c ∷ p) = if has_byte slash (c ∷ p) then c ∷ dir_part p else []

unfoldable pub strip_slashes : Text → Text
strip_slashes [] = []
strip_slashes (c ∷ p) = elim (strip_slashes p) [
  | [] ↦ if c == slash then [] else c ∷ []
  | d ∷ rest ↦ c ∷ d ∷ rest
]

unfoldable pub is_absolute : Text → Bool
is_absolute [] = false
is_absolute (c ∷ p) = c == slash

unfoldable pub ends_with_slash : Text → Bool
ends_with_slash [] = false
ends_with_slash (c ∷ []) = c == slash
ends_with_slash (c ∷ d ∷ p) = ends_with_slash (d ∷ p)

abbrev pub root_if : Bool → Text → Text
root_if true [] = slash ∷ []
root_if _ p = p

-- `p.parent_path()`: the root is its own parent.
unfoldable pub parent_path : Text → Text
unfolding only_slashes dir_part strip_slashes is_absolute
parent_path p = if only_slashes p then p else root_if (is_absolute p) (strip_slashes (dir_part p))

-- `a / b`
unfoldable pub join : Text → Text → Text
unfolding is_absolute ends_with_slash
join [] b = b
join (c ∷ a) b =
    if is_absolute b
    then b
    else if ends_with_slash (c ∷ a)
    then (c ∷ a) ++ b
    else (c ∷ a) ++ slash ∷ b

abbrev emit : Text → List Text → List Text
emit [] names = names
emit (c ∷ cur) names = (c ∷ cur) ∷ names

unfoldable pub names_from : Text → Text → List Text
names_from cur [] = emit cur []
names_from cur (c ∷ p) =
    let closed = names_from [] p in
    let longer = names_from (cur ++ c ∷ []) p in if c == slash then emit cur closed else longer

-- The components in the order of iteration: the root, the names, and "" for a trailing separator.
unfoldable pub components : Text → List Text
unfolding names_from is_absolute ends_with_slash only_slashes
components p =
    (if is_absolute p then (slash ∷ []) ∷ names_from [] p else names_from [] p)
    ++ (if ends_with_slash p && not (only_slashes p) then [] ∷ [] else [])

-- The three fields of `struct stat` that the guards read.
pub record Stat : Type 0 where
  pub device : ℕ
  pub inode : ℕ
  pub nlink : ℕ

-- The answers of the file system at one moment; `none` is a call that sets the error code.
pub record Fs : Type 0 where
  pub canonical : Text → Option Text
  pub weakly_canonical : Text → Option Text
  pub exists : Text → Bool
  pub symlink_status : Text → Option Bool
  pub read_symlink : Text → Option Text
  pub is_regular_file : Text → Bool
  pub is_directory : Text → Bool
  pub hard_link_count : Text → Option ℕ
  pub lstat : Text → Option Stat
  pub stat : Text → Option Stat
  pub unlink : Text → Bool

-- `fs::is_symlink(p, ec) && !ec`
abbrev pub is_symlink : Fs → Text → Bool
is_symlink fs p = elim (fs.symlink_status p) [ none ↦ false | some b ↦ b ]
