-- ===== src/Json.antt =====
-- JSON values, as the columns of type JSONB hold them and `dict.get` reads them.
use dfir_investigation_workb.Prelude.{
  Bool, List, String, Text, [], if◌then◌else◌, lit, text_eq, ℤ, ◌∷◌,
}

-- A number with no fraction is an integer, `4688.0` too; of other numbers the digits are kept.
mutual
  pub data Value : Type 0 where
    null : Value
    boolean : Bool → Value
    integer : ℤ → Value
    fraction : Text → Value
    string : Text → Value
    array : Items → Value
    object : Fields → Value

  pub data Items : Type 0 where
    nil : Items
    cons : Value → Items → Items

  pub data Fields : Type 0 where
    end : Fields
    field : Text → Value → Fields → Fields

-- a dictionary
abbrev pub Dict : Type 0
Dict = List (Text × Value)

unfoldable pub item_list : Items → List Value
item_list nil = []
item_list (cons v vs) = v ∷ item_list vs

unfoldable pub entries : Fields → Dict
entries end = []
entries (field k v rest) = (k, v) ∷ entries rest

-- `d.get(key)`; None stands for a missing key and for null
unfoldable pub get : Text → Dict → Value
get key [] = null
get key ((k, v) ∷ rest) = if text_eq k key then v else get key rest

abbrev pub get_field : String → Dict → Value
get_field key d = get (lit key) d
