-- ===== src/Cbor.antt =====
-- CBOR items as libcbor presents them to the program.
-- libcbor is not in the repository: loading and serialising are the fields of `Libcbor`, with what
-- its getters read from an item of another kind than they expect, and what `cbor_map_add` does.
use Prim.Native.Char.{code}
use scatter_web_project.Common.{
  nat_eq, ℕ, zero, refl, ap, ◌∙◌, sym, List, [], ◌∷◌, take, arith, suc, ◌+◌, ◌≤◌, ◌<◌, ◌≡◌, Bytes,
  String, Bool, Option, none, some, if◌then◌else◌, ◌==◌, string_eq,
}

-- The widths that `cbor_int_get_width` tells apart.
pub data Width : Type 0 where
  int8 int16 int32 int64 : Width

mutual
  pub data Item : Type 0 where
    uint : Width → ℕ → Item
    -- The stored `n` stands for -1 - n.
    negint : Width → ℕ → Item
    bytestring : Bytes → Item
    text : String → Item
    array : Items → Item
    dict : Pairs → Item
    boolean : Bool → Item
    null : Item
    -- Tags, floats and the other simple values.
    other : Item

  pub data Items : Type 0 where
    nil : Items
    cons : Item → Items → Items

  pub data Pairs : Type 0 where
    stop : Pairs
    pair : Item → Item → Pairs → Pairs

abbrev pub count_items : Items → ℕ
count_items nil = 0
count_items (cons x xs) = suc (count_items xs)

abbrev pub count_pairs : Pairs → ℕ
count_pairs stop = 0
count_pairs (pair k v r) = suc (count_pairs r)

abbrev append_pairs : Pairs → Pairs → Pairs
append_pairs stop qs = qs
append_pairs (pair k v r) qs = pair k v (append_pairs r qs)

-- A map with text keys, in this order.
abbrev pub pairs_of : List (String × Item) → Pairs
pairs_of [] = stop
pairs_of ((k, v) ∷ r) = pair (text k) v (pairs_of r)

abbrev pub add_last : Pairs → Item → Item → Pairs
add_last stop k v = pair k v stop
add_last (pair j w r) k v = pair j w (add_last r k v)

pub record Libcbor : Type 0 where
  -- cbor_load, `none` for a null root or an error code
  pub load : Bytes → Option Item
  -- cbor_serialize_alloc
  pub serialize : Item → Bytes
  -- cbor_map_add on a definite map with room for `allocated` pairs: the pairs that it then holds
  pub map_add : (allocated : ℕ) → Pairs → Item → Item → Pairs
  -- cbor_get_uint64 of an item that holds no 64-bit integer
  pub stray_uint64 : Item → ℕ
  -- cbor_int_get_width and the getter that it selects, of an item that is no integer
  pub stray_uint : Item → ℕ
  -- cbor_bytestring_handle and cbor_bytestring_length of an item that is no byte string
  pub stray_bytes : Item → Bytes

-- libcbor's promise on definite maps: pairs are added to the preallocated space only.
pub record IsDefinite (lib : Libcbor) : Type 0 where
  pub adds :
      (allocated : ℕ) (ps : Pairs) (k v : Item)
      → count_pairs ps < allocated
      → lib.map_add allocated ps k v ≡ add_last ps k v
  pub refuses :
      (allocated : ℕ) (ps : Pairs) (k v : Item)
      → allocated ≤ count_pairs ps
      → lib.map_add allocated ps k v ≡ ps

-- The library reads back what it wrote.
abbrev pub Loads : Libcbor → Item → Type 0
Loads lib item = lib.load (lib.serialize item) ≡ some item

-- The value of the first pair whose key is this text.
unfoldable pub find_pair : String → Pairs → Option Item
find_pair key stop = none
find_pair key (pair (text k) v r) = if k == key then some v else find_pair key r
find_pair key (pair _ v r) = find_pair key r

-- A C string ends at the first NUL, so what `cbor_build_string` is given by `c_str()` does too.
unfoldable pub c_str : String → String
c_str String.[] = String.[]
c_str (String.◌∷◌ c s) = let rest = c_str s in if code c == 0 then String.[] else String.◌∷◌ c rest

-- cbor_build_uint64
abbrev pub uint64 : ℕ → Item
uint64 n = uint int64 n

append_pairs-stop : (ps : Pairs) → append_pairs ps stop ≡ ps
append_pairs-stop stop = refl
append_pairs-stop (pair k v r) = ap (pair k v) (append_pairs-stop r)

count-add_last : (ps : Pairs) (k v : Item) → count_pairs (add_last ps k v) ≡ suc (count_pairs ps)
count-add_last stop k v = refl
count-add_last (pair j w r) k v = ap suc (count-add_last r k v)

append-add_last :
    (ps qs : Pairs) (k v : Item) → append_pairs (add_last ps k v) qs ≡ append_pairs ps (pair k v qs)
append-add_last stop qs k v = refl
append-add_last (pair j w r) qs k v = ap (pair j w) (append-add_last r qs k v)

take_nil : (n : ℕ) → take {A = String × Item} n [] ≡ []
take_nil zero = refl
take_nil (suc n) = refl

module _ (lib : Libcbor) where
  -- cbor_get_uint64
  unfoldable pub get_uint64 : Item → ℕ
  get_uint64 (uint int64 n) = n
  get_uint64 (negint int64 n) = n
  get_uint64 item = lib.stray_uint64 item

  -- safe_cbor_uint of channel.cpp, garlic.cpp, router.cpp and tunnel.cpp, safe_get_uint of codec.cpp
  unfoldable pub safe_cbor_uint : Item → ℕ
  safe_cbor_uint (uint w n) = n
  safe_cbor_uint (negint w n) = n
  safe_cbor_uint item = lib.stray_uint item

  -- cbor_bytestring_handle with cbor_bytestring_length
  unfoldable pub get_bytes : Item → Bytes
  get_bytes (bytestring b) = b
  get_bytes item = lib.stray_bytes item

  -- One call of cbor_map_add after another, on a map allocated for so many pairs.
  unfoldable pub add_pairs : ℕ → List (String × Item) → Pairs → Pairs
  add_pairs allocated [] ps = ps
  add_pairs allocated ((k, v) ∷ r) ps = add_pairs allocated r (lib.map_add allocated ps (text k) v)

  add_pairs_full :
      (allocated : ℕ) (kvs : List (String × Item)) (ps : Pairs)
      → IsDefinite lib
      → allocated ≤ count_pairs ps
      → add_pairs allocated kvs ps ≡ ps
  unfolding add_pairs
  add_pairs_full allocated [] ps d full = refl
  add_pairs_full allocated ((k, v) ∷ r) ps d full =
      rw (d.refuses allocated ps (text k) v full) (add_pairs_full allocated r ps d full)

  add_pairs_room :
      (allocated room : ℕ) (kvs : List (String × Item)) (ps : Pairs)
      → IsDefinite lib
      → allocated ≡ room + count_pairs ps
      → add_pairs allocated kvs ps ≡ append_pairs ps (pairs_of (take room kvs))
  unfolding add_pairs
  add_pairs_room allocated room [] ps d h = rw (take_nil room) (sym (append_pairs-stop ps))
  add_pairs_room allocated zero ((k, v) ∷ r) ps d h =
      add_pairs_full allocated ((k, v) ∷ r) ps d (omega arith) ∙ sym (append_pairs-stop ps)
  add_pairs_room allocated (suc room) ((k, v) ∷ r) ps d h =
      rw (d.adds allocated ps (text k) v (omega arith)) (
        add_pairs_room allocated room r (add_last ps (text k) v) d
          (omega (arith, count-add_last ps (text k) v))
        ∙ append-add_last ps (pairs_of (take room r)) (text k) v)

  -- A definite map keeps the pairs that it has room for, in order, and drops the others.
  pub add_pairs-take :
      (allocated : ℕ) (kvs : List (String × Item))
      → IsDefinite lib
      → add_pairs allocated kvs stop ≡ pairs_of (take allocated kvs)
  add_pairs-take allocated kvs d = add_pairs_room allocated allocated kvs stop d (omega arith)
