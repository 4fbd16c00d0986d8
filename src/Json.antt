-- ===== src/Json.antt =====
-- Decoded JSON documents (Go's `any` after `json.Unmarshal`), and the functions of Go's standard
-- library over them that the program calls. `F` stands for float64.
use Prim.Native.Nat.{max}
use j_harness.Base.{ℕ, zero, suc, String, Bool, Option, none, some, if◌then◌else◌, ◌==◌}

mutual
  pub data Json (F : Type 0) : Type 0 where
    null : Json F
    bool : Bool → Json F
    num : F → Json F
    str : String → Json F
    arr : Items F → Json F
    obj : Fields F → Json F

  pub data Items (F : Type 0) : Type 0 where
    nil : Items F
    cons : Json F → Items F → Items F

  pub data Fields (F : Type 0) : Type 0 where
    end : Fields F
    field : String → Json F → Fields F → Fields F

-- encoding/json, strconv and regexp, as parameters of the model.
pub record GoLib (F : Type 0) : Type 0 where
  pub unmarshal : String → Option (Json F)
  pub marshal : Json F → String
  -- `t == float64(int64(t))`
  pub is_integral : F → Bool
  -- `strconv.FormatInt(int64(t), 10)` and `strconv.FormatFloat(t, 'f', -1, 64)`
  pub format_int : F → String
  pub format_float : F → String
  -- `a < b` on float64, and `float64(n)` of a length
  pub float_lt : F → F → Bool
  pub of_length : ℕ → F
  -- `regexp.Compile`, then `MatchString`
  pub compile : String → Option (String → Bool)
  -- `strconv.Quote`, the `%q` of fmt
  pub quote : String → String
  -- `strconv.Atoi` into the naturals; a negative number is out of range everywhere it is used
  pub atoi : String → Option ℕ

module _ {F : Type 0} where
  -- `node[seg]` on a map[string]any
  unfoldable pub field? : String → Fields F → Option (Json F)
  field? k end = none
  field? k (field j v m) = if j == k then some v else field? k m

  -- `node[idx]` on a []any, none out of range
  unfoldable pub item? : ℕ → Items F → Option (Json F)
  item? i nil = none
  item? zero (cons x xs) = some x
  item? (suc i) (cons x xs) = item? i xs

-- How deep a document nests.
unfoldable mutual
  pub depth : {F : Type 0} → Json F → ℕ
  depth (arr xs) = suc (depth_items xs)
  depth (obj m) = suc (depth_fields m)
  depth _ = 0

  pub depth_items : {F : Type 0} → Items F → ℕ
  depth_items nil = 0
  depth_items (cons x xs) = max (depth x) (depth_items xs)

  pub depth_fields : {F : Type 0} → Fields F → ℕ
  depth_fields end = 0
  depth_fields (field k v m) = max (depth v) (depth_fields m)
