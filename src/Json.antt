-- ===== src/Json.antt =====
-- The values that the program's `dict[str, Any]` fields hold.
use conductor_engine.Base.{ℕ, String, Bool, List, [], ◌∷◌, Assoc, Option, none, some}

-- `tenths` is a confidence score, which the program writes with one decimal; `time` is a datetime.
mutual
  pub data Value : Type 0 where
    null : Value
    boolean : Bool → Value
    int : ℕ → Value
    tenths : ℕ → Value
    str : String → Value
    time : ℕ → Value
    array : Items → Value
    object : Fields → Value

  pub data Items : Type 0 where
    nil : Items
    cons : Value → Items → Items

  pub data Fields : Type 0 where
    end : Fields
    field : String → Value → Fields → Fields

abbrev pub Json : Type 0
Json = Assoc Value

-- A dictionary, as a value inside another.
abbrev pub fields : Json → Fields
fields [] = end
fields ((k, v) ∷ rest) = field k v (fields rest)

abbrev pub items : List Value → Items
items [] = nil
items (v ∷ rest) = cons v (items rest)

abbrev pub strings : List String → Items
strings [] = nil
strings (s ∷ rest) = cons (str s) (strings rest)

abbrev pub opt_str : Option String → Value
opt_str none = null
opt_str (some s) = str s
