-- ===== src/Ipc/Value.antt =====
-- `CborValue` of common/include/sw/ipc/codec.hpp, and `item_to_value` and `value_to_item` of codec.cpp.
-- A `CborMap` is its entries in the order of their keys, which is how std::map iterates. Maps and
-- arrays behind a shared_ptr are never written to after they are shared, so they are plain values.
pub mod RoundTrip
use Prim.Native.Nat.{Ordering}
use Prim.Native.String.{compare as text_compare}
use scatter_web_project.Common.{
  ℕ, suc, Bytes, String, Bool, true, false, Option, none, some, List, [], ◌∷◌, Result, ok, err,
  string_eq, ◌==◌, if◌then◌else◌,
}
use scatter_web_project.Fallible.{◌>>=◌}
use scatter_web_project.Int.{ℤ, pos, negsuc, as_int64}
use scatter_web_project.Cbor.{
  Item, Items, Pairs, uint, negint, bytestring, text, array, dict, boolean, null, other, nil, cons,
  stop, pair, int64, Libcbor, uint64, c_str, add_pairs,
}

-- The constructors are the named constructors of the source.
mutual
  pub data Value : Type 0 where
    null_val : Value
    from_bool : Bool → Value
    from_uint : ℕ → Value
    from_int : ℤ → Value
    from_string : String → Value
    from_bytes : Bytes → Value
    from_array : Values → Value
    from_map : Fields → Value

  pub data Values : Type 0 where
    no_values : Values
    value : Value → Values → Values

  -- A `CborMap`.
  pub data Fields : Type 0 where
    no_fields : Fields
    field : String → Value → Fields → Fields

-- m[k] = v
unfoldable pub put : String → Value → Fields → Fields
put k v no_fields = field k v no_fields
put k v (field j w r) = elim (text_compare k j) [
  | Ordering.lt ↦ field k v (field j w r)
  | Ordering.eq ↦ field j v r
  | Ordering.gt ↦ field j w (put k v r)
]

-- m.find(k)
unfoldable pub find_field : String → Fields → Option Value
find_field k no_fields = none
find_field k (field j v r) = if j == k then some v else find_field k r

abbrev pub count_fields : Fields → ℕ
count_fields no_fields = 0
count_fields (field k v r) = suc (count_fields r)

-- -1 - static_cast<int64_t>(n)
unfoldable pub negative : ℤ → ℤ
negative (pos n) = negsuc n
negative (negsuc n) = pos n

unfoldable mutual
  pub item_to_value : Item → Result Value
  item_to_value (uint w n) = ok (from_uint n)
  item_to_value (negint w n) = ok (from_int (negative (as_int64 n)))
  item_to_value (bytestring b) = ok (from_bytes b)
  item_to_value (text s) = ok (from_string s)
  item_to_value (array xs) = do vs ← items_to_values xs; ok (from_array vs)
  item_to_value (dict ps) = do fs ← pairs_to_fields ps no_fields; ok (from_map fs)
  item_to_value (boolean b) = ok (from_bool b)
  item_to_value null = ok null_val
  item_to_value other = err "Unsupported CBOR type"

  pub items_to_values : Items → Result Values
  items_to_values nil = ok no_values
  items_to_values (cons x r) = do v ← item_to_value x; vs ← items_to_values r; ok (value v vs)

  -- The loop over a map's pairs: a later pair with the same key replaces the value.
  pub pairs_to_fields : Pairs → Fields → Result Fields
  pairs_to_fields stop fs = ok fs
  pairs_to_fields (pair (text k) x r) fs = do v ← item_to_value x; pairs_to_fields r (put k v fs)
  pairs_to_fields (pair _ x r) fs = err "CBOR map key must be text string"

-- An int64_t that is not negative goes out as an unsigned one.
unfoldable pub int_item : ℤ → Item
int_item (pos n) = uint64 n
int_item (negsuc n) = negint int64 n

module _ (lib : Libcbor) where
  unfoldable mutual
    unfolding int_item

    pub value_to_item : Value → Item
    value_to_item null_val = null
    value_to_item (from_bool b) = boolean b
    value_to_item (from_uint n) = uint64 n
    value_to_item (from_int z) = int_item z
    value_to_item (from_string s) = text (c_str s)
    value_to_item (from_bytes b) = bytestring b
    value_to_item (from_array vs) = array (values_to_items vs)
    value_to_item (from_map fs) = dict (add_pairs lib (count_fields fs) (field_entries fs) stop)

    pub values_to_items : Values → Items
    values_to_items no_values = nil
    values_to_items (value v r) = cons (value_to_item v) (values_to_items r)

    pub field_entries : Fields → List (String × Item)
    field_entries no_fields = []
    field_entries (field k v r) = (c_str k, value_to_item v) ∷ field_entries r

  -- map_to_item
  unfoldable pub map_to_item : Fields → Item
  map_to_item fs = dict (add_pairs lib (count_fields fs) (field_entries fs) stop)
