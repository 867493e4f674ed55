-- ===== src/Manifest/Value.antt =====
-- A parsed manifest. A float is carried by its text and never compared; a whole number is a sign
-- and a native number.
use k8s_ops.Prelude.{
  ℕ, String, Bool, false, Option, none, some, List, [], ◌∷◌, if◌then◌else◌, ◌==◌, string_eq,
}

mutual
  pub data Json : Type 0 where
    null : Json
    boolean : Bool → Json
    whole negative : ℕ → Json
    floating text : String → Json
    array : Items → Json
    object : Fields → Json

  pub data Items : Type 0 where
    no_items : Items
    item_then : Json → Items → Items

  pub data Fields : Type 0 where
    no_fields : Fields
    field_then : String → Json → Fields → Fields

-- `fields.get(key)`; a key stands once in an object.
unfoldable pub field_in : String → Fields → Option Json
field_in key no_fields = none
field_in key (field_then other value fields) =
    if other == key then some value else field_in key fields

-- `fields[key] = value`
unfoldable pub set_field : String → Json → Fields → Fields
set_field key value no_fields = field_then key value no_fields
set_field key value (field_then other old fields) =
    if other == key
    then field_then other value fields
    else field_then other old (set_field key value fields)

unfoldable is_text : String → Option Json → Bool
is_text name (some (text other)) = other == name
is_text name _ = false

-- `isinstance(item, Mapping) and item.get("name") == name`
unfoldable pub is_named : String → Json → Bool
unfolding field_in is_text
is_named name (object fields) = is_text name (field_in "name" fields)
is_named name _ = false

-- The items of that name.
unfoldable pub named : String → Items → List Json
unfolding is_named
named name no_items = []
named name (item_then item items) =
    let rest = named name items in if is_named name item then item ∷ rest else rest

-- The items with the one of that name changed in place.
unfoldable pub change_named : String → Json → Items → Items
unfolding is_named
change_named name changed no_items = no_items
change_named name changed (item_then item items) =
    let rest = change_named name changed items in
    if is_named name item then item_then changed rest else item_then item rest
