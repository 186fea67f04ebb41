-- ===== src/Examples/Cells.antt =====
-- The theorems on the formats of cell.cpp, garlic.cpp and tunnel.cpp at concrete values, and tests.
use scatter_web_project.Common.{
  ℕ, ◌≡◌, ◌↔◌, ◌≤◌, refl, Bytes, none, some, List, [], ◌∷◌, ◌++◌, ok, length, replicate, arith,
}
use scatter_web_project.Int.{pos}
use scatter_web_project.Hex.{to_hex}
use scatter_web_project.Toy.{toy, toy-IsSound, toy-CanSeal, fixed}
use scatter_web_project.Cbor.{Libcbor, null, Loads, add_pairs}
use scatter_web_project.AnonRouter.Cell.{
  CellHeader, default_header, be32, cell_nonce, cell_build, cell_decode,
}
use scatter_web_project.AnonRouter.Cell.Layout.{IsHeader}
use scatter_web_project.AnonRouter.Cell.Sealing.{
  length-cell_build, cell_decode-build, cell_build_fits, cell_decode_bounds,
}
use scatter_web_project.AnonRouter.Cell.Nonce.{cell_nonce_iff}
use scatter_web_project.AnonRouter.Garlic.{Clove, garlic_item, garlic_encode, garlic_decode}
use scatter_web_project.AnonRouter.Garlic.RoundTrip.{garlic_decode-encode}
use scatter_web_project.AnonRouter.Tunnel.{response_item}

to_hex_test : to_hex (0 ∷ 171 ∷ 255 ∷ []) ≡ "00abff"
unfolding to_hex
to_hex_test = refl

cell_nonce_test : cell_nonce (replicate 32 7) 258 ≡ replicate 8 7 ++ 0 ∷ 0 ∷ 1 ∷ 2 ∷ []
unfolding cell_nonce be32
cell_nonce_test = refl

abbrev a_header : CellHeader
a_header = record default_header {
  cell_type = 3;
  session_tok = replicate 32 7;
  seq_num = 258;
  garlic_len = 3;
}

a_header-IsHeader : IsHeader a_header
a_header-IsHeader = record {
  token = refl;
  seq_num = omega arith;
  send_ts_ms = omega arith;
  garlic_len = omega arith;
}

cell_nonce_iff_example :
    (cell_nonce (replicate 32 1) 4 ≡ cell_nonce (replicate 8 1 ++ replicate 24 2) 4)
    ↔ ((replicate {A = ℕ} 8 1 ≡ replicate 8 1) × (◌≡◌ {A = ℕ} 4 4))
cell_nonce_iff_example =
    cell_nonce_iff (replicate 32 1) (replicate 8 1 ++ replicate 24 2) 4 4 refl refl (omega arith)
      (omega arith)

abbrev built_cell :
    (cell : Bytes) × (cell_build toy a_header (replicate 32 5) (1 ∷ 2 ∷ 3 ∷ []) [] ≡ ok cell)
built_cell =
    (cell_build_fits toy a_header (replicate 32 5) (1 ∷ 2 ∷ 3 ∷ []) [] toy-CanSeal).0 (omega arith)

cell_decode-build_example :
    cell_decode toy built_cell.0 (replicate 32 5)
    ≡ ok (record { header = a_header; garlic_data = 1 ∷ 2 ∷ 3 ∷ [] })
cell_decode-build_example =
    cell_decode-build toy toy-IsSound a_header (replicate 32 5) (1 ∷ 2 ∷ 3 ∷ []) [] built_cell.0
      a_header-IsHeader refl built_cell.1

cell_decode_bounds_example : (length {A = ℕ} (1 ∷ 2 ∷ 3 ∷ []) ≡ 3) × (3 ≤ 496)
cell_decode_bounds_example =
    cell_decode_bounds toy built_cell.0 (replicate 32 5)
      (record { header = a_header; garlic_data = 1 ∷ 2 ∷ 3 ∷ [] }) toy-IsSound
      (length-cell_build toy toy-IsSound a_header (replicate 32 5) (1 ∷ 2 ∷ 3 ∷ []) [] built_cell.0
        refl built_cell.1)
      cell_decode-build_example

abbrev two_cloves : List Clove
two_cloves =
    record { clove_type = 1; channel_id = replicate 16 2; frag = none; payload = 9 ∷ [] }
    ∷ record {
      clove_type = 2;
      channel_id = replicate 16 3;
      frag = some (record { clove_id = 70000; idx = 1; total = 2 });
      payload = [];
    }
    ∷ []

garlic_decode-encode_example :
    garlic_decode
      (fixed (garlic_item two_cloves))
      (garlic_encode (fixed (garlic_item two_cloves)) two_cloves)
    ≡ two_cloves
garlic_decode-encode_example =
    garlic_decode-encode (fixed (garlic_item two_cloves)) two_cloves
      (
        record { clove_type = omega arith; channel_id = refl; frag = tt },
        (
          record {
            clove_type = omega arith;
            channel_id = refl;
            frag = (omega arith, omega arith, omega arith);
          },
          tt,
        ),
      )
      refl

abbrev recruit_lib : Libcbor
recruit_lib = fixed (response_item (fixed null) (replicate 32 4) (some "full") (pos 300))

recruit-Loads :
    Loads recruit_lib (response_item recruit_lib (replicate 32 4) (some "full") (pos 300))
unfolding response_item add_pairs
recruit-Loads = refl
