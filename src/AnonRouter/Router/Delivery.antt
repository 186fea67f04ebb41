-- ===== src/AnonRouter/Router/Delivery.antt =====
-- A payload on a direct channel: from `ChannelManager::send` of one node, over the wire, to the frame
-- callback of the other.
use native.Mathlib.Nat.{mod-eq_of_lt}
use scatter_web_project.Common.{
  ℕ, ◌+◌, ◌%◌, ◌^◌, ◌≤◌, ◌<◌, ◌≡◌, refl, sym, ap, ◌∙◌, Bytes, String, true, false, none, some, [],
  ◌∷◌, ◌++◌, ok, length, take, replicate, length-append, take-append, drop-append, append_assoc,
  append-nil, string_eq, nat_eq, bytes_eq, ◌==◌, lt→ltb, le→ltb_false, arith,
}
use scatter_web_project.Crypto.{
  Provider, IsSound, CanSeal, AesEncrypted, aes_encrypt, aes_decrypt-encrypt,
}
use scatter_web_project.Cbor.{Libcbor, Loads}
use scatter_web_project.AnonRouter.Cell.{CellHeader, cell_build, cell_type_data}
use scatter_web_project.AnonRouter.Cell.Layout.{IsHeader}
use scatter_web_project.AnonRouter.Cell.Sealing.{
  cell_build_fits, length-cell_build, type-cell_build, token-cell_build, cell_decode-build,
}
use scatter_web_project.AnonRouter.Garlic.{garlic_item, garlic_encode, garlic_decode}
use scatter_web_project.AnonRouter.Garlic.RoundTrip.{garlic_decode-encode}
use scatter_web_project.AnonRouter.Guard.{find_guard}
use scatter_web_project.AnonRouter.Channel.{
  put_channel, is_open, SendCoins, frame_blob, data_clove, data_header, outgoing_token,
  dispatch_cell, send, send_found, send_open, first_match, on_cell, receive_cell, deliver_cloves,
  deliver_clove, opened_frame,
}
use scatter_web_project.AnonRouter.Node.{
  Node, ChannelInfo, anon_level_direct, get_channel, transmit, frame_received,
}
use scatter_web_project.AnonRouter.Router.{for_token, on_typed_cell, on_datagram}

-- The token of a direct channel.
unfoldable pub direct_token : Bytes → Bytes
direct_token id = id ++ replicate 16 0

take_all : (n : ℕ) (xs : Bytes) → length xs ≡ n → take n xs ≡ xs
take_all n xs h = ap (take n) (sym (append-nil xs)) ∙ take-append n xs [] h

-- An open direct channel whose peer's address is known, at the sending end.
pub record IsDirect (ci : ChannelInfo) : Type 0 where
  pub opened : is_open ci.state ≡ true
  pub direct : ci.anon_level ≡ anon_level_direct
  pub addressed : (ci.peer_addr == "") ≡ false
  pub unguarded : ci.my_inbound_guard ≡ none
  pub id : length ci.channel_id ≡ 16
  pub seq : ci.send_seq < 2 ^ 32

-- The node that holds the other end: cells with the token reach the channel with the same key.
pub record Receives (id key : Bytes) (b : Node) (cj : ChannelInfo) : Type 0 where
  pub unguarded : find_guard (direct_token id) b.guards ≡ none
  pub found : first_match (direct_token id) b.channels ≡ some cj
  pub same_key : cj.channel_key ≡ key

module _ (p : Provider) (lib : Libcbor) where
  -- A payload sealed under the channel's key, and a clove that a cell can carry.
  pub record Sealed (ci : ChannelInfo) (id payload : Bytes) (coins : SendCoins) (enc : AesEncrypted)
      : Type 0 where
    pub sealed : aes_encrypt p ci.channel_key payload [] coins.payload_nonce ≡ ok enc
    pub nonce : length coins.payload_nonce ≡ 12
    pub id_length : length id ≡ 16
    pub some_payload : 0 < length payload
    pub some_garlic : 0 < length (garlic_encode lib (data_clove id enc ∷ []))
    pub fits : length (garlic_encode lib (data_clove id enc ∷ [])) ≤ 496
    pub loads : Loads lib (garlic_item (data_clove id enc ∷ []))

  sealed_shape :
      (key payload nonce : Bytes) (enc : AesEncrypted)
      → aes_encrypt p key payload [] nonce ≡ ok enc
      → (enc.nonce ≡ nonce) × (p.aead_encrypt key nonce payload [] ≡ some (enc.ciphertext, enc.tag))
  unfolding aes_encrypt
  sealed_shape key payload nonce enc h = (ground arith, ground arith)

  module _ (sound : IsSound p) where
    clove_delivered :
        (ci cj : ChannelInfo) (id payload : Bytes) (coins : SendCoins) (enc : AesEncrypted)
        (b : Node)
        → Sealed ci id payload coins enc
        → cj.channel_key ≡ ci.channel_key
        → deliver_cloves p lib cj (data_clove id enc ∷ []) b
          ≡ frame_received cj.channel_id payload b
    unfolding deliver_cloves deliver_clove opened_frame data_clove frame_blob
    clove_delivered ci cj id payload coins enc b s same =
        let shape = sealed_shape ci.channel_key payload coins.payload_nonce enc s.sealed in
        let nonce : length enc.nonce ≡ 12 = ap length shape.0 ∙ s.nonce in
        let tag = sound.tag_length ci.channel_key _ payload [] enc.ciphertext enc.tag shape.1 in
        let text =
          sound.ciphertext_length ci.channel_key _ payload [] enc.ciphertext enc.tag shape.1 in
        let long = lt→ltb 28 (length (enc.nonce ++ (enc.tag ++ enc.ciphertext))) (
          omega (
            arith,
            length-append enc.nonce (enc.tag ++ enc.ciphertext),
            length-append enc.tag enc.ciphertext,
            nonce,
            tag,
            text,
            s.some_payload,
          )) in
        let tail = drop-append 12 enc.nonce (enc.tag ++ enc.ciphertext) nonce in
        let all =
          drop-append 28 (enc.nonce ++ enc.tag) enc.ciphertext
            (omega (arith, length-append enc.nonce enc.tag, nonce, tag)) in
        let whole = append_assoc enc.nonce enc.tag enc.ciphertext in
        let opened =
          aes_decrypt-encrypt p ci.channel_key payload [] coins.payload_nonce enc sound s.sealed in
        rw
          (
            long,
            take-append 12 enc.nonce (enc.tag ++ enc.ciphertext) nonce,
            tail,
            take-append 16 enc.tag enc.ciphertext tag,
            ← whole,
            all,
            same,
            opened,
          )
          refl

    garlic_arrives :
        (ci cj : ChannelInfo) (id payload : Bytes) (coins : SendCoins) (enc : AesEncrypted)
        (b : Node)
        → Sealed ci id payload coins enc
        → cj.channel_key ≡ ci.channel_key
        → deliver_cloves p lib cj (garlic_decode lib (garlic_encode lib (data_clove id enc ∷ []))) b
          ≡ frame_received cj.channel_id payload b
    unfolding data_clove
    garlic_arrives ci cj id payload coins enc b s same =
        rw
          (garlic_decode-encode lib (data_clove id enc ∷ [])
            (record { clove_type = omega arith; channel_id = s.id_length; frag = tt }, tt) s.loads)
          (clove_delivered ci cj id payload coins enc b s same)

    data_header-IsHeader :
        (ci : ChannelInfo) (garlic : Bytes)
        → IsDirect ci
        → length garlic ≤ 496
        → IsHeader (data_header ci garlic)
          × ((data_header ci garlic).garlic_len ≡ length garlic)
          × ((data_header ci garlic).session_tok ≡ direct_token ci.channel_id)
          × ((data_header ci garlic).cell_type ≡ cell_type_data)
    unfolding data_header outgoing_token direct_token
    data_header-IsHeader ci garlic d fits =
        let tok : outgoing_token ci ≡ ci.channel_id ++ replicate 16 0 =
          rw (d.unguarded, d.direct) refl in
        let len : (data_header ci garlic).garlic_len ≡ length garlic =
          rw (le→ltb_false 496 (length garlic) fits) (mod-eq_of_lt (omega arith)) in
        let token : length (outgoing_token ci) ≡ 32 =
          ap length tok ∙ omega (arith, length-append ci.channel_id (replicate 16 0), d.id) in
        (
          record {
            token = token;
            seq_num = d.seq;
            send_ts_ms = omega arith;
            garlic_len = omega (arith, len);
          },
          len,
          tok,
          refl,
        )

    -- A cell that `send` built, at the other end.
    cell_received :
        (peer : String) (hdr : CellHeader) (key garlic nonce cell id : Bytes) (b : Node)
        (cj : ChannelInfo)
        → IsHeader hdr
        → hdr.garlic_len ≡ length garlic
        → hdr.session_tok ≡ direct_token id
        → hdr.cell_type ≡ cell_type_data
        → cell_build p hdr key garlic nonce ≡ ok cell
        → Receives id key b cj
        → on_datagram p lib peer cell b
          ≡ (ok tt, deliver_cloves p lib cj (garlic_decode lib garlic) b)
    unfolding on_datagram on_typed_cell for_token on_cell receive_cell
    cell_received peer hdr key garlic nonce cell id b cj h len tok kind built r =
        let size = length-cell_build p sound hdr key garlic nonce cell h.token built in
        let type_byte = type-cell_build p hdr key garlic nonce cell h.token built ∙ kind in
        let token = token-cell_build p hdr key garlic nonce cell h.token built ∙ tok in
        let decoded = cell_decode-build p sound hdr key garlic nonce cell h len built in
        rw (size, type_byte, token, r.unguarded)
          (rw (for_token, on_cell, token, r.found) (rw (receive_cell, r.same_key, decoded) refl))

    -- `send` on an open direct channel returns true, hands exactly one cell to the transport and
    -- counts it. When that cell reaches the other end, whoever it comes from, the client gets the
    -- payload unchanged.
    pub direct_payload_arrives :
        (id payload : Bytes) (coins : SendCoins) (enc : AesEncrypted) (a b : Node)
        (ci cj : ChannelInfo)
        → CanSeal p
        → get_channel id a ≡ some ci
        → IsDirect ci
        → Receives ci.channel_id ci.channel_key b cj
        → Sealed ci id payload coins enc
        → (cell : Bytes) × (send p lib id payload coins a ≡ (
          ok true,
          transmit ci.peer_addr cell
              (put_channel id (record ci { send_seq = (ci.send_seq + 1) % 2 ^ 32 }) a),
        ))
          × ((peer : String)
              → on_datagram p lib peer cell b ≡ (ok tt, frame_received cj.channel_id payload b))
    unfolding send send_found send_open dispatch_cell
    direct_payload_arrives id payload coins enc a b ci cj can found d r s =
        let garlic = garlic_encode lib (data_clove id enc ∷ []) in
        let (header, len, tok, kind) = data_header-IsHeader ci garlic d s.fits in
        let hdr = data_header ci garlic in
        let (cell, built) =
          (cell_build_fits p hdr ci.channel_key garlic coins.cell_nonce can).0 s.fits in
        let nonempty : (length garlic == 0) ≡ false = ground (arith, s.some_garlic) in
        let whole : take hdr.garlic_len garlic ≡ garlic =
          take_all hdr.garlic_len garlic (sym len) in
        let level : (ci.anon_level == anon_level_direct) ≡ true = rw d.direct refl in
        (
          cell,
          rw (found, send_found, d.opened)
              (rw (send_open, s.sealed, nonempty, whole, built, level, d.addressed) refl),
          λ peer.
              cell_received peer hdr ci.channel_key garlic coins.cell_nonce cell ci.channel_id b cj
                header len tok kind built r
              ∙ ap (λ (n : Node). (ok tt, n))
                  (garlic_arrives ci cj id payload coins enc b s r.same_key),
        )
