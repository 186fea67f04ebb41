-- ===== src/AnonRouter/Garlic.antt =====
-- anonrouter/src/garlic.cpp and garlic.hpp: the cloves in a cell's payload, as a CBOR array.
pub mod RoundTrip
use scatter_web_project.Common.{
  ℕ, ◌%◌, ◌^◌, Bytes, Bool, true, false, Option, none, some, List, [], ◌∷◌, length, replicate, ◌==◌,
  nat_eq, if◌then◌else◌,
}
use scatter_web_project.Cbor.{
  Item, Items, bytestring, array, boolean, null, nil, cons, Libcbor, uint64, safe_cbor_uint,
}

-- `CloveType::DATA`
abbrev pub clove_type_data : ℕ
clove_type_data = 0x01

pub record FragInfo : Type 0 where
  pub clove_id : ℕ
  pub idx : ℕ
  pub total : ℕ

pub record Clove : Type 0 where
  pub clove_type : ℕ
  pub channel_id : Bytes
  pub frag : Option FragInfo
  pub payload : Bytes

unfoldable pub frag_item : Option FragInfo → Item
frag_item none = null
frag_item (some f) =
    array (cons (uint64 f.clove_id) (cons (uint64 f.idx) (cons (uint64 f.total) nil)))

abbrev pub has_value {ℓ} : {A : Type ℓ} → Option A → Bool
has_value none = false
has_value (some a) = true

unfoldable pub encode_clove : Clove → Item
encode_clove c = array (
    cons (uint64 c.clove_type) (
      cons (bytestring c.channel_id) (
        cons (boolean (has_value c.frag))
          (cons (frag_item c.frag) (cons (bytestring c.payload) nil)))))

unfoldable pub clove_items : List Clove → Items
clove_items [] = nil
clove_items (c ∷ cs) = cons (encode_clove c) (clove_items cs)

-- Sixteen bytes, or the zero id of a fresh `Clove`.
decode_channel_id : Item → Bytes
decode_channel_id (bytestring b) = if length b == 16 then b else replicate 16 0
decode_channel_id _ = replicate 16 0

decode_payload : Item → Bytes
decode_payload (bytestring b) = b
decode_payload _ = []

unfoldable pub garlic_item : List Clove → Item
garlic_item cloves = array (clove_items cloves)

module _ (lib : Libcbor) where
  unfoldable pub garlic_encode : List Clove → Bytes
  garlic_encode cloves = lib.serialize (garlic_item cloves)

  -- The second item counts only if the flag before it is set.
  decode_frag : Item → Item → Option FragInfo
  decode_frag (boolean true) (array (cons a (cons b (cons c nil)))) = some (record {
    clove_id = safe_cbor_uint lib a % 2 ^ 32;
    idx = safe_cbor_uint lib b % 2 ^ 16;
    total = safe_cbor_uint lib c % 2 ^ 16;
  })
  decode_frag _ _ = none

  -- An element that is no array of five items is passed over.
  unfoldable pub decode_cloves : Items → List Clove
  unfolding decode_channel_id decode_payload decode_frag
  decode_cloves nil = []
  decode_cloves (cons (array (cons kind (cons id (cons flag (cons frag (cons body more)))))) r) =
      record {
        clove_type = safe_cbor_uint lib kind % 2 ^ 8;
        channel_id = decode_channel_id id;
        frag = decode_frag flag frag;
        payload = decode_payload body;
      }
      ∷ decode_cloves r
  decode_cloves (cons _ r) = decode_cloves r

  cloves_of : Option Item → List Clove
  unfolding decode_cloves
  cloves_of (some (array items)) = decode_cloves items
  cloves_of _ = []

  unfoldable pub garlic_decode : Bytes → List Clove
  unfolding cloves_of
  garlic_decode blob = cloves_of (lib.load blob)
