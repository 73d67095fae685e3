-- ===== src/Json/Defs.antt =====
-- JSON values, and the accessors of `serde_json`.
use pincerbell.Base.{ℕ, Bool, Option, none, some, String, ◌==◌, string_eq, if◌then◌else◌}

-- `negsuc n` is -(n + 1).
pub data ℤ : Type 0 where
  pos : ℕ → ℤ
  negsuc : ℕ → ℤ

-- A number that is no integer is kept as its text.
mutual
  pub data Value : Type 0 where
    null : Value
    bool : Bool → Value
    num : ℤ → Value
    real : String → Value
    str : String → Value
    obj : Fields → Value
    arr : Items → Value

  pub data Fields : Type 0 where
    end : Fields
    field : String → Value → Fields → Fields

  pub data Items : Type 0 where
    nil : Items
    cons : Value → Items → Items

-- Map::get
unfoldable pub get : Fields → String → Option Value
get end k = none
get (field j v fs) k = if j == k then some v else get fs k

-- Map::insert
unfoldable pub put : Fields → String → Value → Fields
put end k v = field k v end
put (field j w fs) k v = let rest = put fs k v in if j == k then field k v fs else field j w rest

-- An entry that is written only if there is a value.
unfoldable pub put_opt : Fields → String → Option Value → Fields
put_opt fs k none = fs
put_opt fs k (some v) = put fs k v

-- Value::as_str
unfoldable pub as_str : Value → Option String
as_str (str s) = some s
as_str _ = none

-- `value[key] = v`: an object is written to; the program does this to objects alone, and any
-- other value is left as it is here (`null` would become an object, the rest panic).
unfoldable pub set : Value → String → Value → Value
set (obj fs) k v = obj (put fs k v)
set other k v = other
