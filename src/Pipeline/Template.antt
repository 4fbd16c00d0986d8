-- ===== src/Pipeline/Template.antt =====
-- internal/pipeline/template.go: the template grammar. The pattern `\{\{\s*([^{}]+?)\s*\}\}` is a
-- scanner: a reference is `{{`, at least one character other than a brace, and `}}`.
use Prim.Native.String.{◌++◌ as str_append}
use j_harness.Base.{
  ℕ, zero, suc, ◌+◌, String, Char, code, Bool, false, not, ◌&&◌, ◌||◌, Option, none, some, List, [],
  ◌∷◌, ◌==◌, leb, nat_eq, if◌then◌else◌, any, Result, ok, err, ◌>>=◌, is_empty, trim_space, split,
  all_chars,
}
use mathlib.Core.Option
use j_harness.Pipeline.Error.{
  Error, invalid_input_reference, invalid_step_reference, invalid_json_path,
  invalid_template_reference, malformed_template,
}

pub data RefKind : Type 0 where
  ref_input ref_step_output : RefKind

pub record Ref : Type 0 where
  pub kind : RefKind
  pub name : String
  pub step_id : String
  pub path : List String
  pub raw : String

-- `[a-z0-9_-]` and `[a-zA-Z0-9_-]`
abbrev pub is_id_char : ℕ → Bool
is_id_char c =
    (leb b'a' c && leb c b'z') || (leb b'0' c && leb c b'9') || nat_eq c b'_' || nat_eq c b'-'

abbrev pub is_path_char : ℕ → Bool
is_path_char c = is_id_char c || (leb b'A' c && leb c b'Z')

-- `idPattern.MatchString` and `pathPattern.MatchString`
unfoldable pub id_pattern : String → Bool
unfolding all_chars
id_pattern s = not (is_empty s) && all_chars is_id_char s

unfoldable pub path_pattern : String → Bool
unfolding all_chars
path_pattern s = not (is_empty s) && all_chars is_path_char s

abbrev pub is_brace : ℕ → Bool
is_brace c = nat_eq c b'{' || nat_eq c b'}'

abbrev starts_with : ℕ → String → Bool
starts_with k String.[] = false
starts_with k (String.◌∷◌ d t) = nat_eq (code d) k

-- Behind `{{`: the characters up to the closing `}}`, if no other brace comes first.
unfoldable pub match_inner : String → Option String
match_inner String.[] = none
match_inner (String.◌∷◌ c s) =
    let longer = Option.map (λ w. String.◌∷◌ c w) (match_inner s) in
    if is_brace (code c)
    then (if nat_eq (code c) b'}' && starts_with b'}' s then some String.[] else none)
    else longer

abbrev non_empty : Option String → Option String
non_empty (some (String.◌∷◌ c w)) = some (String.◌∷◌ c w)
non_empty _ = none

-- A match of the pattern at the start of a text: what stands between the braces.
unfoldable pub match_ref : String → Option String
unfolding match_inner
match_ref (String.◌∷◌ c (String.◌∷◌ d s)) =
    if nat_eq (code c) b'{' && nat_eq (code d) b'{' then non_empty (match_inner s) else none
match_ref _ = none

-- A text is cut into the pattern's leftmost matches and the characters outside of them.
pub data Piece : Type 0 where
  lit : Char → Piece
  hole : (inner : String) → Piece

abbrev pub str_length : String → ℕ
str_length String.[] = 0
str_length (String.◌∷◌ c s) = suc (str_length s)

-- The first argument counts the characters that still belong to the last match.
unfoldable pub scan : ℕ → String → List Piece
unfolding match_ref
scan skip String.[] = []
scan (suc skip) (String.◌∷◌ c s) = scan skip s
scan zero (String.◌∷◌ c s) = elim (match_ref (String.◌∷◌ c s)) [
  | none ↦ lit c ∷ scan zero s
  | some inner ↦ hole inner ∷ scan (str_length inner + 3) s
]

-- The matched text as written.
abbrev pub raw_of : String → String
raw_of inner = str_append "{{" (str_append inner "}}")

abbrev input_ref : String → String → Ref
input_ref name raw = record { kind = ref_input; name = name; step_id = ""; path = []; raw = raw }

abbrev step_ref : String → List String → String → Ref
step_ref id path raw = record {
  kind = ref_step_output;
  name = "";
  step_id = id;
  path = path;
  raw = raw;
}

parse_parts : List String → String → Result Error Ref
unfolding id_pattern path_pattern
parse_parts (k ∷ name ∷ []) raw =
    if k == "inputs"
    then (if id_pattern name then ok (input_ref name raw) else err (invalid_input_reference raw))
    else err (invalid_template_reference raw)
parse_parts (k ∷ id ∷ o ∷ path) raw =
    if k == "steps" && o == "output"
    then (if not (id_pattern id)
        then err (invalid_step_reference raw)
        else if any (λ seg. not (path_pattern seg)) path
        then err (invalid_json_path raw)
        else ok (step_ref id path raw))
    else err (invalid_template_reference raw)
parse_parts _ raw = err (invalid_template_reference raw)

unfoldable pub parse_ref : String → String → Result Error Ref
unfolding parse_parts split
parse_ref inner raw = parse_parts (split b'.' inner) raw

unfoldable pub parse_pieces : List Piece → Result Error (List Ref)
unfolding parse_ref trim_space
parse_pieces [] = ok []
parse_pieces (lit c ∷ ps) = parse_pieces ps
parse_pieces (hole inner ∷ ps) = do
  ref ← parse_ref (trim_space inner) (raw_of inner)
  refs ← parse_pieces ps
  ok (ref ∷ refs)

-- `strings.ContainsAny(rest, "{}")`, on the text without its matches
unfoldable pub stray_brace : List Piece → Bool
stray_brace [] = false
stray_brace (lit c ∷ ps) = is_brace (code c) || stray_brace ps
stray_brace (hole inner ∷ ps) = stray_brace ps

unfoldable pub parse_refs : String → Result Error (List Ref)
unfolding parse_pieces stray_brace scan
parse_refs s = do
  refs ← parse_pieces (scan zero s)
  if stray_brace (scan zero s) then err (malformed_template s) else ok refs
