-- ===== src/Tools.antt =====
-- internal/tools/tools.go: the built-in tools and the registry of those that are enabled. The clock's
-- text and encoding/json are parameters; a text that is a program's own is its UTF-8 bytes.
pub mod Eval
pub mod Enabled
use j_harness.Base.{
  ℕ, zero, suc, ◌+◌, ◌/◌, ◌%◌, String, Char, code, Bool, true, false, ◌||◌, Option, none, some,
  List, [], ◌∷◌, ◌++◌, Map, lookup, insert, keys, length, Result, ok, err, ◌>>=◌, ◌==◌,
  if◌then◌else◌, ltb, is_space,
}
use j_harness.Json.{Json, str, obj, arr, nil, cons, Fields, end, field, GoLib, field?}
use j_harness.Engine.Defs.{Func, ToolRegistry}
use j_harness.Tools.Eval.{Floats, EvalError, eval, format_float}

-- The bytes of a text in UTF-8.
abbrev utf8_char : ℕ → List ℕ
utf8_char c =
    if ltb c 0x80
    then c ∷ []
    else if ltb c 0x800
    then (0xc0 + c / 64) ∷ (0x80 + c % 64) ∷ []
    else if ltb c 0x10000
    then (0xe0 + c / 4096) ∷ (0x80 + c / 64 % 64) ∷ (0x80 + c % 64) ∷ []
    else (0xf0 + c / 262144) ∷ (0x80 + c / 4096 % 64) ∷ (0x80 + c / 64 % 64) ∷ (0x80 + c % 64) ∷ []

unfoldable pub bytes : String → List ℕ
bytes String.[] = []
bytes (String.◌∷◌ c s) = utf8_char (code c) ++ bytes s

-- `len(strings.Fields(s))`; `inside` tells whether the character before belongs to a word.
unfoldable pub count_words : Bool → String → ℕ
count_words inside String.[] = 0
count_words inside (String.◌∷◌ c s) =
    let next = count_words (if is_space (code c) then false else true) s in
    if is_space (code c) || inside then next else suc next

abbrev type_object : {F : Type 0} → Fields F → Fields F
type_object properties = field "type" (str "object") (field "properties" (obj properties) end)

abbrev text_property : {F : Type 0} → String → Json F
text_property description =
    obj (field "type" (str "string") (field "description" (str description) end))

-- The schema of a tool that takes one text.
abbrev one_text : {F : Type 0} → String → String → Json F
one_text name description = obj (
    field "type" (str "object") (
      field "properties" (obj (field name (text_property description) end))
        (field "required" (arr (cons (str name) nil)) end)))

-- What the functions here use of other packages: `time.Now().UTC().Format(time.RFC3339)`, the decoded
-- field of a struct with one text (none for an error, the empty text where the field is missing), and
-- the prints of a number and of an error.
pub record Env (F W : Type 0) : Type 0 where
  pub floats : Floats F
  pub now : W → String
  pub text_field : String → String → Option String
  pub decimal : ℕ → String
  pub decode_error : String → String
  pub eval_error : EvalError → String

module _ {F W : Type 0} (env : Env F W) where
  open env use {floats, now, text_field, decimal, decode_error, eval_error}

  abbrev pub current_time : Func F W
  current_time = record {
    name = "current_time";
    description = "Return the current UTC time in RFC 3339 format.";
    parameters = obj (type_object end);
    run = λ w arguments. ok (now w);
  }

  unfoldable pub count_text : String → Option String → Result String String
  unfolding count_words
  count_text arguments none = err (decode_error arguments)
  count_text arguments (some text) = ok (decimal (count_words false text))

  abbrev pub word_count : Func F W
  word_count = record {
    name = "word_count";
    description = "Count the whitespace-separated words in the given text.";
    parameters = one_text "text" "Text to count.";
    run = λ w arguments. count_text arguments (text_field "text" arguments);
  }

  unfoldable pub answer : Result EvalError F → Result String String
  unfolding format_float
  answer (ok v) = ok (format_float floats v)
  answer (err e) = err (eval_error e)

  unfoldable pub eval_text : String → Option String → Result String String
  unfolding eval bytes answer
  eval_text arguments none = err (decode_error arguments)
  eval_text arguments (some text) = answer (eval floats (bytes text))

  abbrev pub math_eval : Func F W
  math_eval = record {
    name = "math_eval";
    description = "Evaluate a basic arithmetic expression using +, -, *, / and parentheses.";
    parameters = one_text "expression" "Arithmetic expression.";
    run = λ w arguments. eval_text arguments (text_field "expression" arguments);
  }

  -- `builtins[name]`
  unfoldable pub builtin : String → Option (Func F W)
  unfolding count_text eval_text
  builtin name =
      if name == "current_time"
      then some current_time
      else if name == "word_count"
      then some word_count
      else if name == "math_eval"
      then some math_eval
      else none

  abbrev pub enable :
      Option (Func F W) → String → ToolRegistry F W → Result String (ToolRegistry F W)
  enable none name r = err name
  enable (some fn) name r = ok (insert name fn r)

  -- The loop of `New`; an unknown name is its error.
  unfoldable pub new_onto : ToolRegistry F W → List String → Result String (ToolRegistry F W)
  unfolding builtin insert
  new_onto r [] = ok r
  new_onto r (name ∷ names) = enable (builtin name) name r >>= (λ r'. new_onto r' names)

  unfoldable pub new : List String → Result String (ToolRegistry F W)
  unfolding new_onto
  new names = new_onto [] names

-- `IsBuiltin`
unfoldable pub is_builtin : String → Bool
is_builtin name = name == "current_time" || name == "word_count" || name == "math_eval"

-- `Len` of a registry that may be nil
unfoldable pub len : {F W : Type 0} → Option (ToolRegistry F W) → ℕ
len none = 0
len (some r) = length (keys r)
