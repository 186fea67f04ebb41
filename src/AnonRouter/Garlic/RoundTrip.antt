-- ===== src/AnonRouter/Garlic/RoundTrip.antt =====
-- What `garlic_encode` of garlic.cpp writes, `garlic_decode` reads.
use scatter_web_project.Common.{
  ◌^◌, ◌<◌, ◌≡◌, refl, ap, ap₂, Bytes, Option, none, some, List, [], ◌∷◌, length, All, nat_eq,
}
use native.Mathlib.Nat.{mod-eq_of_lt}
use scatter_web_project.Cbor.{Libcbor, Loads, boolean, bytestring, safe_cbor_uint}
use scatter_web_project.AnonRouter.Garlic.{
  FragInfo, Clove, frag_item, encode_clove, clove_items, decode_cloves, cloves_of, garlic_item,
  garlic_encode, garlic_decode, decode_channel_id, decode_frag, has_value, decode_payload,
}

abbrev FitsFrag : Option FragInfo → Type 0
FitsFrag none = Unit
FitsFrag (some f) = (f.clove_id < 2 ^ 32) × (f.idx < 2 ^ 16) × (f.total < 2 ^ 16)

-- The ranges that the C++ types give to the fields.
pub record IsClove (c : Clove) : Type 0 where
  pub clove_type : c.clove_type < 2 ^ 8
  pub channel_id : length c.channel_id ≡ 16
  pub frag : FitsFrag c.frag

decode_channel_id-bytes : (b : Bytes) → length b ≡ 16 → decode_channel_id (bytestring b) ≡ b
unfolding decode_channel_id
decode_channel_id-bytes b h = rw h refl

module _ (lib : Libcbor) where
  decode_frag-item :
      (f : Option FragInfo) → FitsFrag f → decode_frag lib (boolean (has_value f)) (frag_item f) ≡ f
  unfolding decode_frag frag_item safe_cbor_uint
  decode_frag-item none h = refl
  decode_frag-item (some f) h = ap some λ i. record {
    clove_id = mod-eq_of_lt h.0 i;
    idx = mod-eq_of_lt h.1 i;
    total = mod-eq_of_lt h.2 i;
  }

  decode_cloves-items : (cs : List Clove) → All IsClove cs → decode_cloves lib (clove_items cs) ≡ cs
  unfolding decode_cloves decode_payload clove_items encode_clove frag_item safe_cbor_uint
  decode_cloves-items [] h = refl
  decode_cloves-items (c ∷ cs) h =
      ap₂ ◌∷◌
        (λ i. record {
          clove_type = mod-eq_of_lt h.0.clove_type i;
          channel_id = decode_channel_id-bytes c.channel_id h.0.channel_id i;
          frag = decode_frag-item c.frag h.0.frag i;
          payload = c.payload;
        })
        (decode_cloves-items cs h.1)

  -- Every list of cloves, fragmented or not, comes back as it was.
  pub garlic_decode-encode :
      (cs : List Clove)
      → All IsClove cs
      → Loads lib (garlic_item cs)
      → garlic_decode lib (garlic_encode lib cs) ≡ cs
  unfolding garlic_decode garlic_encode garlic_item cloves_of
  garlic_decode-encode cs h loads = rw (loads, cloves_of) (decode_cloves-items cs h)
