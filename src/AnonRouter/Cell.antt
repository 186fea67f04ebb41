-- ===== src/AnonRouter/Cell.antt =====
-- anonrouter/src/cell.cpp and cell.hpp: the fixed-size cell of the wire.
-- A `Cell` is a byte array of `cell_size` entries. An enum over uint8_t is its byte, since
-- `static_cast` makes a value of every byte. Shifts and masks are divisions and remainders.
pub mod Layout
pub mod Sealing
pub mod Nonce
use scatter_web_project.Common.{
  ℕ, zero, suc, ◌+◌, ◌-◌, ◌*◌, ◌/◌, ◌%◌, ◌^◌, Bytes, Option, none, some, [], ◌∷◌, ◌++◌, Result, ok,
  err, length, take, drop, replicate, ltb, if◌then◌else◌,
}
use scatter_web_project.Crypto.{Provider, AesEncrypted, aes_encrypt}
use scatter_web_project.Fallible.{◌>>=◌}

abbrev pub cell_size : ℕ
cell_size = 557

abbrev pub cell_header_size : ℕ
cell_header_size = 45

abbrev pub cell_plaintext_size : ℕ
cell_plaintext_size = 496

-- The values of `CellType` that the router tells apart.
abbrev pub cell_type_data : ℕ
cell_type_data = 0x01

abbrev pub cell_type_chan_open : ℕ
cell_type_chan_open = 0x40

abbrev pub cell_type_chan_accept : ℕ
cell_type_chan_accept = 0x41

pub record CellHeader : Type 0 where
  pub version : ℕ
  pub cell_type : ℕ
  pub session_tok : Bytes
  pub path_index : ℕ
  pub seq_num : ℕ
  pub send_ts_ms : ℕ
  pub garlic_len : ℕ

-- `CellHeader hdr;`
abbrev pub default_header : CellHeader
default_header = record {
  version = 1;
  cell_type = cell_type_data;
  session_tok = replicate 32 0;
  path_index = 0;
  seq_num = 0;
  send_ts_ms = 0;
  garlic_len = 0;
}

-- The value at an index; the indices of the source are all in range.
unfoldable pub byte_at : Bytes → ℕ → ℕ
byte_at [] i = 0
byte_at (b ∷ bs) zero = b
byte_at (b ∷ bs) (suc i) = byte_at bs i

-- (x >> 8 * k) & 0xFF
abbrev byte_of : ℕ → ℕ → ℕ
byte_of x k = x / 2 ^ (8 * k) % 256

unfoldable pub be32 : ℕ → Bytes
be32 x = byte_of x 3 ∷ byte_of x 2 ∷ byte_of x 1 ∷ byte_of x 0 ∷ []

unfoldable pub be16 : ℕ → Bytes
be16 x = byte_of x 1 ∷ byte_of x 0 ∷ []

unfoldable pub cell_nonce : Bytes → ℕ → Bytes
cell_nonce tok seq_num = take 8 tok ++ be32 seq_num

-- The 45 bytes that `cell_write_header` writes.
unfoldable pub header_bytes : CellHeader → Bytes
header_bytes hdr =
    hdr.version
    ∷ hdr.cell_type
    ∷ (hdr.session_tok
        ++ (hdr.path_index ∷ (be32 hdr.seq_num ++ (be32 hdr.send_ts_ms ++ be16 hdr.garlic_len))))

unfoldable pub cell_write_header : Bytes → CellHeader → Bytes
cell_write_header cell hdr = header_bytes hdr ++ drop cell_header_size cell

-- Each byte is below 256, so `|` of the shifted bytes is their sum.
read_be32 : Bytes → ℕ → ℕ
read_be32 cell i =
    byte_at cell i * 2 ^ 24
    + byte_at cell (i + 1) * 2 ^ 16
    + byte_at cell (i + 2) * 2 ^ 8
    + byte_at cell (i + 3)

unfoldable pub cell_read_header : Bytes → CellHeader
unfolding read_be32
cell_read_header cell = record {
  version = byte_at cell 0;
  cell_type = byte_at cell 1;
  session_tok = take 32 (drop 2 cell);
  path_index = byte_at cell 34;
  seq_num = read_be32 cell 35;
  send_ts_ms = read_be32 cell 39;
  garlic_len = byte_at cell 43 * 2 ^ 8 + byte_at cell 44;
}

unfoldable pub cell_session_tok : Bytes → Bytes
cell_session_tok cell = take 32 (drop 2 cell)

unfoldable pub cell_set_session_tok : Bytes → Bytes → Bytes
cell_set_session_tok cell new_tok = take 2 cell ++ (new_tok ++ drop 34 cell)

pub record DecodedCell : Type 0 where
  pub header : CellHeader
  pub garlic_data : Bytes

-- `plaintext{}` with the garlic data copied to its front.
unfoldable pub padded : Bytes → Bytes
padded garlic_data = garlic_data ++ replicate (cell_plaintext_size - length garlic_data) 0

unfoldable pub sealed_cell : Bytes → Option (Bytes × Bytes) → Result Bytes
sealed_cell header none = err "cell_build: AES-GCM encrypt failed"
sealed_cell header (some (ct, tag)) = ok (header ++ (ct ++ tag))

unfoldable pub opened_cell : CellHeader → Option Bytes → Result DecodedCell
opened_cell hdr none = err "cell_decode: AES-GCM authentication failed"
opened_cell hdr (some plaintext) =
    if ltb cell_plaintext_size hdr.garlic_len
    then err "cell_decode: garlic_len out of bounds"
    else ok (record { header = hdr; garlic_data = take hdr.garlic_len plaintext })

module _ (p : Provider) where
  -- The result of the call of `aes_encrypt`, with its random nonce, is thrown away; only its
  -- exceptions matter.
  unfoldable pub cell_build : CellHeader → Bytes → Bytes → Bytes → Result Bytes
  unfolding sealed_cell
  cell_build hdr key garlic_data random_nonce =
      if ltb cell_plaintext_size (length garlic_data)
      then err "garlic_data exceeds cell payload capacity"
      else (do
        let ad = take cell_header_size (cell_write_header (replicate cell_size 0) hdr)
        enc ← aes_encrypt p key (padded garlic_data) ad random_nonce
        sealed_cell ad
            (p.aead_encrypt key (cell_nonce hdr.session_tok hdr.seq_num) (padded garlic_data) ad))

  unfoldable pub cell_decode : Bytes → Bytes → Result DecodedCell
  unfolding opened_cell
  cell_decode cell key =
      let hdr = cell_read_header cell in
      opened_cell hdr (
        p.aead_decrypt key (cell_nonce hdr.session_tok hdr.seq_num)
          (take cell_plaintext_size (drop cell_header_size cell))
          (drop (cell_header_size + cell_plaintext_size) cell) (take cell_header_size cell))
