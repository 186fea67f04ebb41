-- ===== src/Ipc/Value/RoundTrip.antt =====
-- `item_to_value` of codec.cpp undoes `value_to_item`.
use Prim.Native.Nat.{Ordering}
use Prim.Native.String.{compare as text_compare}
use scatter_web_project.Common.{
  ℕ, suc, ◌^◌, ◌<◌, ◌≡◌, refl, ap, sym, ◌∙◌, String, List, [], ok, take, length, lt→ltb, append-nil,
  take-append, string_eq,
}
use scatter_web_project.Int.{ℤ, pos, negsuc, as_int64}
use scatter_web_project.Cbor.{
  Item, stop, Libcbor, IsDefinite, c_str, add_pairs, pairs_of, add_pairs-take,
}
use scatter_web_project.Ipc.Value.{
  Value, Values, Fields, null_val, from_bool, from_uint, from_int, from_string, from_bytes,
  from_array, from_map, no_values, value, no_fields, field, put, count_fields, negative,
  item_to_value, items_to_values, pairs_to_fields, int_item, value_to_item, values_to_items,
  field_entries,
}

-- The key stands behind every key of the map.
abbrev pub IsBehind : String → Fields → Type 0
IsBehind k no_fields = Unit
IsBehind k (field j v r) = (text_compare k j ≡ Ordering.gt) × IsBehind k r

abbrev pub append_field : Fields → String → Value → Fields
append_field no_fields k v = field k v no_fields
append_field (field j w r) k v = field j w (append_field r k v)

abbrev joined_fields : Fields → Fields → Fields
joined_fields no_fields r = r
joined_fields (field j w b) r = field j w (joined_fields b r)

joined-append_field :
    (b : Fields) (k : String) (v : Value) (r : Fields)
    → joined_fields (append_field b k v) r ≡ joined_fields b (field k v r)
joined-append_field no_fields k v r = refl
joined-append_field (field j w b) k v r = ap (field j w) (joined-append_field b k v r)

joined_none : (b : Fields) → joined_fields b no_fields ≡ b
joined_none no_fields = refl
joined_none (field j w b) = ap (field j w) (joined_none b)

-- The keys are in order and stand behind those of `before`.
abbrev pub IsSorted : Fields → Fields → Type 0
IsSorted before no_fields = Unit
IsSorted before (field k v r) = IsBehind k before × IsSorted (append_field before k v) r

-- An int64_t that is negative; the others come back unsigned.
abbrev pub IsNegative : ℤ → Type 0
IsNegative (pos n) = ⊥
IsNegative (negsuc n) = n < 2 ^ 63

-- Values that CBOR keeps apart: no NUL in a text, no signed integer that is not negative, and maps as
-- std::map orders them.
unfoldable mutual
  pub IsPlain : Value → Type 0
  IsPlain (from_int z) = IsNegative z
  IsPlain (from_string s) = c_str s ≡ s
  IsPlain (from_array vs) = ArePlain vs
  IsPlain (from_map fs) = FieldsArePlain fs × IsSorted no_fields fs
  IsPlain null_val = Unit
  IsPlain (from_bool b) = Unit
  IsPlain (from_uint n) = Unit
  IsPlain (from_bytes b) = Unit

  pub ArePlain : Values → Type 0
  ArePlain no_values = Unit
  ArePlain (value v r) = IsPlain v × ArePlain r

  pub FieldsArePlain : Fields → Type 0
  FieldsArePlain no_fields = Unit
  FieldsArePlain (field k v r) = (c_str k ≡ k) × IsPlain v × FieldsArePlain r

put_behind :
    (k : String) (v : Value) (fs : Fields) → IsBehind k fs → put k v fs ≡ append_field fs k v
unfolding put
put_behind k v no_fields h = refl
put_behind k v (field j w r) h = rw (h.0, put) (ap (field j w) (put_behind k v r h.1))

int_read : (z : ℤ) → IsNegative z → item_to_value (int_item z) ≡ ok (from_int z)
unfolding item_to_value int_item negative as_int64
int_read (pos n) h = absurd h
int_read (negsuc n) h = rw (lt→ltb n (2 ^ 63) h) refl

all_fields : (kvs : List (String × Item)) (n : ℕ) → length kvs ≡ n → take n kvs ≡ kvs
all_fields kvs n h = ap (take n) (sym (append-nil kvs)) ∙ take-append n kvs [] h

module _ (lib : Libcbor) where
  length-field_entries : (fs : Fields) → length (field_entries lib fs) ≡ count_fields fs
  unfolding field_entries
  length-field_entries no_fields = refl
  length-field_entries (field k v r) = ap suc (length-field_entries r)

  map_pairs :
      (fs : Fields)
      → IsDefinite lib
      → add_pairs lib (count_fields fs) (field_entries lib fs) stop
        ≡ pairs_of (field_entries lib fs)
  map_pairs fs definite =
      add_pairs-take lib (count_fields fs) (field_entries lib fs) definite
      ∙ ap pairs_of (all_fields (field_entries lib fs) (count_fields fs) (length-field_entries fs))

  mutual
    unfolding item_to_value value_to_item field_entries values_to_items items_to_values
        pairs_to_fields IsPlain ArePlain FieldsArePlain

    pub value_read :
        (v : Value) → IsDefinite lib → IsPlain v → item_to_value (value_to_item lib v) ≡ ok v
    value_read null_val d h = refl
    value_read (from_bool b) d h = refl
    value_read (from_uint n) d h = refl
    value_read (from_int z) d h = int_read z h
    value_read (from_string s) d h = rw h refl
    value_read (from_bytes b) d h = refl
    value_read (from_array vs) d h = rw (values_read vs d h) refl
    value_read (from_map fs) d h = rw (map_pairs fs d, fields_read no_fields fs d h.0 h.1) refl

    values_read :
        (vs : Values)
        → IsDefinite lib
        → ArePlain vs
        → items_to_values (values_to_items lib vs) ≡ ok vs
    values_read no_values d h = refl
    values_read (value v r) d h = rw (value_read v d h.0, values_read r d h.1) refl

    fields_read :
        (before fs : Fields)
        → IsDefinite lib
        → FieldsArePlain fs
        → IsSorted before fs
        → pairs_to_fields (pairs_of (field_entries lib fs)) before ≡ ok (joined_fields before fs)
    fields_read before no_fields d h s = ap ok (sym (joined_none before))
    fields_read before (field k v r) d h s =
        rw (h.0, value_read v d h.1)
          (rw (put_behind k v before s.0) (
            fields_read (append_field before k v) r d h.2 s.1
            ∙ ap ok (joined-append_field before k v r)))
