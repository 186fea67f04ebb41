-- ===== src/AnonRouter/Cell/Sealing.antt =====
-- `cell_build` and `cell_decode` of cell.cpp: what is sealed at one end opens at the other.
use scatter_web_project.Common.{
  ℕ, ◌-◌, ◌≤◌, ◌<◌, ◌≡◌, refl, ap, ◌∙◌, Bytes, Option, none, some, ◌++◌, ok, err, length, take,
  drop, replicate, arith, le→ltb_false, take-append, drop-append, length-append, length-take,
  length-drop, length-replicate, append_assoc,
}
use scatter_web_project.Crypto.{Provider, IsSound, CanSeal, aes_encrypt-CanSeal}
use scatter_web_project.AnonRouter.Cell.{
  byte_at, cell_session_tok, CellHeader, DecodedCell, header_bytes, cell_write_header,
  cell_read_header, cell_nonce, cell_plaintext_size, cell_size, padded, opened_cell, cell_build,
  cell_decode,
}
use scatter_web_project.AnonRouter.Cell.Layout.{
  IsHeader, length-header_bytes, read_header, token_bytes,
}

length-padded : (g : Bytes) → length g ≤ 496 → length (padded g) ≡ 496
unfolding padded
length-padded g h = omega (
  arith,
  length-append g (replicate (496 - length g) 0),
  length-replicate {A = ℕ} (496 - length g) 0,
)

-- The additional data of a new cell is its header.
header_of_new :
    (hdr : CellHeader) (cell : Bytes)
    → length hdr.session_tok ≡ 32
    → take 45 (cell_write_header cell hdr) ≡ header_bytes hdr
unfolding cell_write_header
header_of_new hdr cell h =
    take-append 45 (header_bytes hdr) (drop 45 cell) (length-header_bytes hdr h)

exact_data :
    (hdr : CellHeader) (garlic : Bytes)
    → hdr.garlic_len ≡ length garlic
    → length garlic ≤ 496
    → opened_cell hdr (some (padded garlic)) ≡ ok (record { header = hdr; garlic_data = garlic })
unfolding opened_cell padded
exact_data hdr garlic len fits = rw len (
    rw (le→ltb_false 496 (length garlic) fits)
      (rw (take-append (length garlic) garlic (replicate (496 - length garlic) 0) refl) refl))

module _ (p : Provider) where
  -- Every cell that `cell_build` returns is a header, a ciphertext and a tag of fixed sizes.
  pub record Built (hdr : CellHeader) (key garlic cell : Bytes) : Type 0 where
    pub ct : Bytes
    pub tag : Bytes
    pub layout : cell ≡ header_bytes hdr ++ (ct ++ tag)
    pub fits : length garlic ≤ 496
    pub sealed :
        p.aead_encrypt key
          (cell_nonce hdr.session_tok hdr.seq_num)
          (padded garlic)
          (header_bytes hdr)
        ≡ some (ct, tag)

  cell_build-Built :
      (hdr : CellHeader) (key garlic nonce cell : Bytes)
      → length hdr.session_tok ≡ 32
      → cell_build p hdr key garlic nonce ≡ ok cell
      → Built hdr key garlic cell
  unfolding cell_build
  cell_build-Built hdr key garlic nonce cell h e =
      go
        (p.aead_encrypt key (cell_nonce hdr.session_tok hdr.seq_num) (padded garlic)
          (header_bytes hdr))
        refl
    where
      ad : take 45 (cell_write_header (replicate cell_size 0) hdr) ≡ header_bytes hdr
      ad = header_of_new hdr (replicate cell_size 0) h

      go :
          (r : Option (Bytes × Bytes))
          → p.aead_encrypt key
              (cell_nonce hdr.session_tok hdr.seq_num)
              (padded garlic)
              (header_bytes hdr)
            ≡ r
          → Built hdr key garlic cell
      go none q = absurd (ground (arith, ad, q))
      go (some (ct, tag)) q = record {
        ct = ct;
        tag = tag;
        layout = ground (arith, ad, q);
        fits = ground (arith, ad, q);
        sealed = q;
      }

  -- The type that the router reads before it opens a cell.
  pub type-cell_build :
      (hdr : CellHeader) (key garlic nonce cell : Bytes)
      → length hdr.session_tok ≡ 32
      → cell_build p hdr key garlic nonce ≡ ok cell
      → byte_at cell 1 ≡ hdr.cell_type
  unfolding byte_at header_bytes
  type-cell_build hdr key garlic nonce cell h e =
      rw (cell_build-Built hdr key garlic nonce cell h e).layout refl

  -- The token that relays and receivers read.
  pub token-cell_build :
      (hdr : CellHeader) (key garlic nonce cell : Bytes)
      → length hdr.session_tok ≡ 32
      → cell_build p hdr key garlic nonce ≡ ok cell
      → cell_session_tok cell ≡ hdr.session_tok
  unfolding cell_session_tok
  token-cell_build hdr key garlic nonce cell h e =
      let b = cell_build-Built hdr key garlic nonce cell h e in
      rw b.layout (token_bytes hdr (b.ct ++ b.tag) h)

  -- The three parts of a cell, by the offsets of `cell_decode`.
  split_cell :
      (hb ct tag : Bytes)
      → length hb ≡ 45
      → length ct ≡ 496
      → (take 45 (hb ++ (ct ++ tag)) ≡ hb)
        × (take 496 (drop 45 (hb ++ (ct ++ tag))) ≡ ct)
        × (drop 541 (hb ++ (ct ++ tag)) ≡ tag)
  split_cell hb ct tag h k = (
    take-append 45 hb (ct ++ tag) h,
    rw (drop-append 45 hb (ct ++ tag) h) (take-append 496 ct tag k),
    rw (← append_assoc hb ct tag)
        (drop-append 541 (hb ++ ct) tag (omega (arith, length-append hb ct, h, k))),
  )

  module _ (sound : IsSound p) where
    ct_length :
        (hdr : CellHeader) (key garlic cell : Bytes) (b : Built hdr key garlic cell)
        → length b.ct ≡ 496
    ct_length hdr key garlic cell b =
        sound.ciphertext_length key _ (padded garlic) (header_bytes hdr) b.ct b.tag b.sealed
        ∙ length-padded garlic b.fits

    -- A cell that `cell_build` returns has the fixed size.
    pub length-cell_build :
        (hdr : CellHeader) (key garlic nonce cell : Bytes)
        → length hdr.session_tok ≡ 32
        → cell_build p hdr key garlic nonce ≡ ok cell
        → length cell ≡ cell_size
    length-cell_build hdr key garlic nonce cell h e =
        let b = cell_build-Built hdr key garlic nonce cell h e in
        let tagged =
          sound.tag_length key _ (padded garlic) (header_bytes hdr) b.ct b.tag b.sealed in
        ap length b.layout
        ∙ omega (
          arith,
          length-append (header_bytes hdr) (b.ct ++ b.tag),
          length-append b.ct b.tag,
          length-header_bytes hdr h,
          ct_length hdr key garlic cell b,
          tagged,
        )

    decode-Built :
        (hdr : CellHeader) (key garlic cell : Bytes)
        → IsHeader hdr
        → Built hdr key garlic cell
        → cell_decode p cell key ≡ opened_cell hdr (some (padded garlic))
    unfolding cell_decode
    decode-Built hdr key garlic cell h b =
        let parts =
          split_cell (header_bytes hdr) b.ct b.tag (length-header_bytes hdr h.token)
            (ct_length hdr key garlic cell b) in
        let opened = sound.opens key _ (padded garlic) (header_bytes hdr) b.ct b.tag b.sealed in
        rw (b.layout, read_header hdr (b.ct ++ b.tag) h, parts.0, parts.1, parts.2, opened) refl

    -- A cell that was built for a header whose `garlic_len` is the length of the data is decoded,
    -- under the same key, to that header and exactly that data.
    pub cell_decode-build :
        (hdr : CellHeader) (key garlic nonce cell : Bytes)
        → IsHeader hdr
        → hdr.garlic_len ≡ length garlic
        → cell_build p hdr key garlic nonce ≡ ok cell
        → cell_decode p cell key ≡ ok (record { header = hdr; garlic_data = garlic })
    cell_decode-build hdr key garlic nonce cell h len e =
        let b = cell_build-Built hdr key garlic nonce cell h.token e in
        decode-Built hdr key garlic cell h b ∙ exact_data hdr garlic len b.fits

  -- `cell_build` throws on more data than the payload holds, and on nothing else while sealing
  -- works.
  pub cell_build_fits :
      (hdr : CellHeader) (key garlic nonce : Bytes)
      → CanSeal p
      → (length garlic ≤ cell_plaintext_size
          → (cell : Bytes) × (cell_build p hdr key garlic nonce ≡ ok cell))
        × (cell_plaintext_size < length garlic
            → cell_build p hdr key garlic nonce ≡ err "garlic_data exceeds cell payload capacity")
  unfolding cell_build
  cell_build_fits hdr key garlic nonce can =
      let ad = take 45 (cell_write_header (replicate 557 0) hdr) in
      let (e, sealed) = aes_encrypt-CanSeal p key (padded garlic) ad nonce can in
      let (out, direct) =
        can.seals key (cell_nonce hdr.session_tok hdr.seq_num) (padded garlic) ad in
      (λ h. (ad ++ (out.0 ++ out.1), ground (arith, sealed, direct)), λ h. ground arith)

  opened_bounds :
      (hdr : CellHeader) (r : Option Bytes) (d : DecodedCell)
      → ((plain : Bytes) → r ≡ some plain → length plain ≡ 496)
      → opened_cell hdr r ≡ ok d
      → (length d.garlic_data ≡ d.header.garlic_len) × (d.header.garlic_len ≤ cell_plaintext_size)
  unfolding opened_cell
  opened_bounds hdr none d full e = absurd (ground arith)
  opened_bounds hdr (some plain) d full e =
      ground (arith, full plain refl, length-take hdr.garlic_len plain)

  -- Whatever cell arrives, data that `cell_decode` returns is as long as its header says, and no
  -- longer than the payload.
  pub cell_decode_bounds :
      (cell key : Bytes) (d : DecodedCell)
      → IsSound p
      → length cell ≡ cell_size
      → cell_decode p cell key ≡ ok d
      → (length d.garlic_data ≡ d.header.garlic_len) × (d.header.garlic_len ≤ cell_plaintext_size)
  unfolding cell_decode
  cell_decode_bounds cell key d sound size e =
      let payload : length (take 496 (drop 45 cell)) ≡ 496 =
        length-take 496 (drop 45 cell) (omega (arith, length-drop 45 cell)) in
      opened_bounds (cell_read_header cell) _ d
        (λ plain h. sound.plaintext_length key _ _ _ _ plain h ∙ payload) e
