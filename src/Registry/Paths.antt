-- ===== src/Registry/Paths.antt =====
-- internal/registry/registry.go: `safeRel`, with `filepath.Clean` and `filepath.IsAbs` of Go's library
-- as it is on systems whose separator is `/`.
pub mod Parts
pub mod Inside
use Prim.Native.String.{◌++◌ as str_append}
use j_harness.Base.{
  String, Bool, true, false, ◌&&◌, ◌||◌, List, [], ◌∷◌, Result, ok, err, ◌==◌, if◌then◌else◌,
  is_empty, split, has_prefix,
}

pub data PathError : Type 0 where
  absolute_path escapes_root : PathError

-- `filepath.IsAbs`
abbrev pub is_abs : String → Bool
is_abs p = has_prefix p "/"

-- `..` removes the part before it, unless there is none or that is a `..` itself.
abbrev pub go_up : List String → List String
go_up [] = ".." ∷ []
go_up (top ∷ parts) = if top == ".." then ".." ∷ top ∷ parts else parts

-- One round of the loop of `filepath.Clean`; `parts` are those so far, the last one first.
abbrev pub put_part : String → List String → List String
put_part x parts =
    if is_empty x || x == "." then parts else if x == ".." then go_up parts else x ∷ parts

unfoldable pub clean_parts : List String → List String → List String
clean_parts parts [] = parts
clean_parts parts (x ∷ xs) = clean_parts (put_part x parts) xs

abbrev pub before_slash : String → String
before_slash tail = if is_empty tail then tail else str_append "/" tail

-- The parts as a path. `tail` is what stands behind the last of them.
unfoldable pub join_onto : String → List String → String
join_onto tail [] = tail
join_onto tail (x ∷ xs) = join_onto (str_append x (before_slash tail)) xs

-- `filepath.Clean`, of a path that is not absolute
unfoldable pub clean : String → String
unfolding clean_parts join_onto split
clean p = let q = join_onto "" (clean_parts [] (split b'/' p)) in if is_empty q then "." else q

unfoldable pub safe_rel : String → Result PathError String
unfolding clean has_prefix
safe_rel p =
    let q = clean p in
    if is_abs p
    then err absolute_path
    else if q == ".." || has_prefix q "../"
    then err escapes_root
    else ok q
