-- ===== src/Samples/Files.antt =====
-- Tests of paths, and of a registry that is read from its files and written to them.
use j_harness.Base.{
  ℕ, String, true, false, Option, none, some, [], ◌∷◌, Map, lookup, insert, ◌≡◌, refl, ◌==◌, ok,
  err, if◌then◌else◌, split, lookup-insert,
}
use j_harness.Model.{AgentBlueprint}
use j_harness.Engine.Defs.{Registry}
use j_harness.Registry.{trailing_data, unknown_tool, write_failed}
use j_harness.Registry.Paths.{safe_rel, is_abs, clean, absolute_path, escapes_root}
use j_harness.Registry.Paths.Inside.{stays, safe_rel-stays}
use j_harness.Registry.Blueprint.{validate_blueprint}
use j_harness.Registry.Blueprint.Safe.{IsBlueprint, validate_blueprint-IsBlueprint}
use j_harness.Registry.Load.{Files, Listing, listed, load, decode_strict}
use j_harness.Registry.Load.Loaded.{IsLoaded, load-IsLoaded}
use j_harness.Registry.Write.{Disk, write_blueprint}
use j_harness.Registry.Write.Refused.{DiskLaws, Outcome, write_blueprint-Outcome}
use j_harness.Samples.{lib, writer, chain}

safe_rel-clean : safe_rel "prompts//a/../b.md/" ≡ ok "prompts/b.md"
unfolding safe_rel
safe_rel-clean = refl

safe_rel-dots : safe_rel "..a/b" ≡ ok "..a/b"
unfolding safe_rel
safe_rel-dots = refl

safe_rel-up : safe_rel "a/../../b" ≡ err escapes_root
unfolding safe_rel
safe_rel-up = refl

safe_rel-stays_example : safe_rel "a/../b" ≡ (
    if is_abs "a/../b"
    then err absolute_path
    else if stays 0 (split b'/' "a/../b")
    then ok (clean "a/../b")
    else err escapes_root)
safe_rel-stays_example = safe_rel-stays "a/../b"

abbrev pub blueprint : AgentBlueprint ℕ
blueprint = record writer { model = "m" }

abbrev pub texts : Map String
texts = ("writer.md", "Write.") ∷ ("blueprints/writer.json", "B") ∷ ("pipelines/p.json", "P") ∷ []

abbrev pub folder : String → Listing
folder dir =
    if dir == "blueprints"
    then listed (
        record { name = "writer.json"; is_dir = false }
        ∷ record { name = "notes.txt"; is_dir = false }
        ∷ [])
    else listed
        (record { name = "old"; is_dir = true } ∷ record { name = "p.json"; is_dir = false } ∷ [])

unfoldable pub files : Map String → Files ℕ
unfolding lookup
files w = record {
  read_dir = folder;
  read_file = λ path. lookup path w;
  decode_blueprint = λ s. if s == "B" then some (blueprint, "") else none;
  decode_pipeline = λ s. if s == "P" then some (chain, "") else none;
  decode_any = λ s. s == "{}";
}

abbrev pub loaded : Registry ℕ
loaded = record {
  blueprints = ("writer", blueprint) ∷ [];
  prompts = ("writer", "Write.") ∷ [];
  pipelines = ("p", chain) ∷ [];
  schemas = [];
}

pub load-files : load lib (files texts) ≡ ok loaded
unfolding load files
load-files = refl

load-IsLoaded_example : IsLoaded loaded
load-IsLoaded_example = load-IsLoaded lib (files texts) loaded load-files

blueprint-valid : validate_blueprint "writer" blueprint ≡ ok tt
unfolding validate_blueprint
blueprint-valid = refl

blueprint-tool :
    validate_blueprint "writer" (record blueprint { tools = "shell" ∷ [] })
    ≡ err (unknown_tool "shell")
unfolding validate_blueprint
blueprint-tool = refl

validate_blueprint-IsBlueprint_example : IsBlueprint "writer" blueprint
validate_blueprint-IsBlueprint_example =
    validate_blueprint-IsBlueprint "writer" blueprint blueprint-valid

-- Text behind the value is refused only where it is a value itself.
abbrev two_values : String → Option (ℕ × String)
two_values s = some (5, s)

decode_strict-value :
    decode_strict (λ p. some "{}") (λ s. s == "{}") two_values "f" ≡ err (trailing_data "f")
unfolding decode_strict
decode_strict-value = refl

decode_strict-garbage : decode_strict (λ p. some "}") (λ s. s == "{}") two_values "f" ≡ ok 5
unfolding decode_strict
decode_strict-garbage = refl

unfoldable pub disk : Disk ℕ (Map String)
unfolding insert lookup
disk = record {
  files = files;
  exists = λ w path. elim (lookup path w) [ none ↦ false | some s ↦ true ];
  write = λ path s w. (true, insert path s w);
  print_blueprint = λ bp. "B";
  print_pipeline = λ p. "P";
}

write_blueprint-new :
    write_blueprint lib disk blueprint "Hi." []
    ≡ (none, ("writer.md", "Hi.") ∷ ("blueprints/writer.json", "B") ∷ [])
unfolding write_blueprint disk
write_blueprint-new = refl

-- A disk on which the blueprint itself cannot be written: its prompt has been replaced.
write_blueprint-half :
    write_blueprint lib
      (record disk {
        write = λ path s w.
            if path == "blueprints/writer.json" then (false, w) else (true, insert path s w);
      })
      blueprint
      "New."
      (("writer.md", "Old.") ∷ [])
    ≡ (some (write_failed "blueprints/writer.json"), ("writer.md", "New.") ∷ [])
unfolding write_blueprint disk
write_blueprint-half = refl

disk-DiskLaws : DiskLaws lib disk
unfolding disk files
disk-DiskLaws = record {
  write-ok = λ path text w h p. lookup-insert path p text w;
  write-err = λ path text w h p. absurd (cc h);
}

write_blueprint-Outcome_example :
    Outcome lib disk blueprint "Hi." texts (write_blueprint lib disk blueprint "Hi." texts)
write_blueprint-Outcome_example =
    write_blueprint-Outcome lib disk disk-DiskLaws blueprint "Hi." texts
