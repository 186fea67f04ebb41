-- ===== src/AnonRouter/Cell/Layout.antt =====
-- The wire layout of cell.cpp: the header's offsets, and the routing field that relays read.
use scatter_web_project.Common.{
  ℕ, zero, suc, ◌+◌, ◌*◌, ◌/◌, ◌%◌, ◌^◌, ◌<◌, ◌≡◌, refl, ap, Bytes, [], ◌∷◌, ◌++◌, length, take,
  drop, arith, take-append, drop-append, length-append, length-take, append_assoc,
}
use scatter_web_project.AnonRouter.Cell.{
  CellHeader, byte_at, be32, be16, header_bytes, cell_write_header, cell_read_header, read_be32,
  cell_session_tok, cell_set_session_tok, cell_header_size, cell_size,
}

-- The ranges that the C++ types give to the fields.
pub record IsHeader (hdr : CellHeader) : Type 0 where
  pub token : length hdr.session_tok ≡ 32
  pub seq_num : hdr.seq_num < 2 ^ 32
  pub send_ts_ms : hdr.send_ts_ms < 2 ^ 32
  pub garlic_len : hdr.garlic_len < 2 ^ 16

byte_at-append :
    (n k : ℕ) (xs ys : Bytes) → length xs ≡ n → byte_at (xs ++ ys) (n + k) ≡ byte_at ys k
unfolding byte_at
byte_at-append zero k [] ys h = ap (byte_at ys) (omega arith)
byte_at-append zero k (x ∷ xs) ys h = absurd (omega arith)
byte_at-append (suc n) k [] ys h = absurd (omega arith)
byte_at-append (suc n) k (x ∷ xs) ys h =
    let step : suc n + k ≡ suc (n + k) = omega arith in
    rw step (byte_at-append n k xs ys (omega arith))

pub length-header_bytes :
    (hdr : CellHeader) → length hdr.session_tok ≡ 32 → length (header_bytes hdr) ≡ 45
unfolding header_bytes be32 be16
length-header_bytes hdr h = omega (arith, length-append hdr.session_tok _)

-- The header behind the token.
abbrev tail_bytes : CellHeader → Bytes
tail_bytes hdr = hdr.path_index ∷ (be32 hdr.seq_num ++ (be32 hdr.send_ts_ms ++ be16 hdr.garlic_len))

abbrev front_bytes : CellHeader → Bytes
front_bytes hdr = hdr.version ∷ hdr.cell_type ∷ hdr.session_tok

split_header :
    (hdr : CellHeader) (rest : Bytes)
    → header_bytes hdr ++ rest ≡ front_bytes hdr ++ (tail_bytes hdr ++ rest)
unfolding header_bytes
split_header hdr rest =
    ap (λ (t : Bytes). hdr.version ∷ hdr.cell_type ∷ t)
      (append_assoc hdr.session_tok (tail_bytes hdr) rest)

tail_byte :
    (k : ℕ) (hdr : CellHeader) (rest : Bytes)
    → length hdr.session_tok ≡ 32
    → byte_at (header_bytes hdr ++ rest) (34 + k) ≡ byte_at (tail_bytes hdr ++ rest) k
tail_byte k hdr rest h =
    rw (split_header hdr rest)
      (byte_at-append 34 k (front_bytes hdr) (tail_bytes hdr ++ rest) (omega arith))

pub token_bytes :
    (hdr : CellHeader) (rest : Bytes)
    → length hdr.session_tok ≡ 32
    → take 32 (drop 2 (header_bytes hdr ++ rest)) ≡ hdr.session_tok
token_bytes hdr rest h =
    rw (split_header hdr rest) (take-append 32 hdr.session_tok (tail_bytes hdr ++ rest) h)

pub from_be32 :
    (x : ℕ)
    → x < 2 ^ 32
    → x / 2 ^ 24 % 256 * 2 ^ 24
        + x / 2 ^ 16 % 256 * 2 ^ 16
        + x / 2 ^ 8 % 256 * 2 ^ 8
        + x / 2 ^ 0 % 256
      ≡ x
from_be32 x h = omega arith

from_be16 : (x : ℕ) → x < 2 ^ 16 → x / 2 ^ 8 % 256 * 2 ^ 8 + x / 2 ^ 0 % 256 ≡ x
from_be16 x h = omega arith

module _ (hdr : CellHeader) (rest : Bytes) (h : IsHeader hdr) where
  at_tail :
      (k : ℕ) → byte_at (header_bytes hdr ++ rest) (34 + k) ≡ byte_at (tail_bytes hdr ++ rest) k
  at_tail k = tail_byte k hdr rest h.token

  path_index_read : byte_at (header_bytes hdr ++ rest) 34 ≡ hdr.path_index
  unfolding byte_at
  path_index_read = rw (at_tail 0) refl

  seq_num_read : read_be32 (header_bytes hdr ++ rest) 35 ≡ hdr.seq_num
  unfolding read_be32 byte_at be32
  seq_num_read = rw (at_tail 1, at_tail 2, at_tail 3, at_tail 4) (from_be32 hdr.seq_num h.seq_num)

  send_ts_ms_read : read_be32 (header_bytes hdr ++ rest) 39 ≡ hdr.send_ts_ms
  unfolding read_be32 byte_at be32
  send_ts_ms_read =
      rw (at_tail 5, at_tail 6, at_tail 7, at_tail 8) (from_be32 hdr.send_ts_ms h.send_ts_ms)

  garlic_len_read :
      byte_at (header_bytes hdr ++ rest) 43 * 2 ^ 8 + byte_at (header_bytes hdr ++ rest) 44
      ≡ hdr.garlic_len
  unfolding byte_at be32 be16
  garlic_len_read = rw (at_tail 9, at_tail 10) (from_be16 hdr.garlic_len h.garlic_len)

  pub read_header : cell_read_header (header_bytes hdr ++ rest) ≡ hdr
  unfolding cell_read_header byte_at header_bytes
  read_header = λ i. record {
    version = hdr.version;
    cell_type = hdr.cell_type;
    session_tok = token_bytes hdr rest h.token i;
    path_index = path_index_read i;
    seq_num = seq_num_read i;
    send_ts_ms = send_ts_ms_read i;
    garlic_len = garlic_len_read i;
  }

-- A header that is written over the front of a cell is read back unchanged, whatever the cell held.
pub cell_read_header-write :
    (cell : Bytes) (hdr : CellHeader)
    → IsHeader hdr
    → cell_read_header (cell_write_header cell hdr) ≡ hdr
unfolding cell_write_header
cell_read_header-write cell hdr h = read_header hdr (drop cell_header_size cell) h

-- What a relay does to the token: it reads back the new token, and no other byte of the cell
-- changes.
pub cell_set_session_tok_lem :
    (cell tok : Bytes)
    → length cell ≡ cell_size
    → length tok ≡ 32
    → (cell_session_tok (cell_set_session_tok cell tok) ≡ tok)
      × (take 2 (cell_set_session_tok cell tok) ≡ take 2 cell)
      × (drop 34 (cell_set_session_tok cell tok) ≡ drop 34 cell)
unfolding cell_session_tok cell_set_session_tok
cell_set_session_tok_lem cell tok h k =
    let front : length (take 2 cell) ≡ 2 = length-take 2 cell (omega arith) in
    (
      rw (drop-append 2 (take 2 cell) (tok ++ drop 34 cell) front)
          (take-append 32 tok (drop 34 cell) k),
      take-append 2 (take 2 cell) (tok ++ drop 34 cell) front,
      rw (← append_assoc (take 2 cell) tok (drop 34 cell)) (
          drop-append 34 (take 2 cell ++ tok) (drop 34 cell)
            (omega (arith, length-append (take 2 cell) tok, front))),
    )
