-- ===== src/Ratchet.antt =====
-- common/src/ratchet/ratchet.cpp and common/include/sw/ratchet/ratchet.hpp: the double ratchet.
-- Keys and counters are those of `State`; the counters are uint32_t and wrap at `2 ^ 32`. A call
-- that takes `State&` is an action of `Exec State`: what it wrote before a throw stays written.
-- The random bytes that a call draws are an argument.
pub mod Steps
pub mod Session
pub mod Conversation
pub mod Skipping
pub mod Bounds
pub mod OutOfOrder
pub mod Replay
pub mod Storage
use scatter_web_project.Common.{
  ℕ, zero, suc, ◌+◌, ◌-◌, ◌*◌, ◌%◌, ◌^◌, Bytes, Bool, true, false, Option, none, some, [], ◌∷◌, ok,
  err, Exec, ◌>>=◌, ◌>>◌, pure, lift, modify, length, Assoc, lookup, assign, erase, nat_eq, ltb,
  leb, if◌then◌else◌,
}
use scatter_web_project.Crypto.{
  Provider, AesEncrypted, ascii, shake256_32, aes_encrypt, aes_decrypt,
}

abbrev pub max_skipped_keys : ℕ
max_skipped_keys = 100

-- `++` on a uint32_t
unfoldable pub inc32 : ℕ → ℕ
inc32 n = (n + 1) % 2 ^ 32

pub record KemKeyPair : Type 0 where
  pub public : Bytes
  pub private : Bytes

pub record State : Type 0 where
  pub root_key : Bytes
  pub send_chain_key : Bytes
  pub recv_chain_key : Bytes
  pub send_epoch : ℕ
  pub recv_epoch : ℕ
  pub send_msg_num : ℕ
  pub recv_msg_num : ℕ
  pub prev_send_count : ℕ
  pub need_kem_step : Bool
  pub my_ratchet_kem : KemKeyPair
  pub peer_ratchet_pub : Bytes
  pub skipped_keys : Assoc ℕ Bytes

pub record Header : Type 0 where
  pub epoch : ℕ
  pub msg_num : ℕ
  pub prev_count : ℕ
  pub sender_ratchet_pub : Bytes
  pub kem_ct : Option Bytes

pub record Message : Type 0 where
  pub header : Header
  pub nonce : Bytes
  pub ciphertext : Bytes
  pub tag : Bytes

-- The random bytes of one `encrypt`: the encapsulation's, the new key pair's and the nonce.
pub record Coins : Type 0 where
  pub encaps : Bytes
  pub keygen : Bytes
  pub nonce : Bytes

pub record InitResult : Type 0 where
  pub state : State
  pub prekey_ct : Bytes
  pub my_ratchet_pub : Bytes

-- Both arguments are uint32_t, so `|` adds them and nothing is lost in 64 bits.
unfoldable pub skip_key : ℕ → ℕ → ℕ
skip_key epoch msg_num = epoch * 2 ^ 32 + msg_num

-- state.skipped_keys.erase
unfoldable pub forget_key : ℕ → State → State
forget_key key s = record s { skipped_keys = erase key s.skipped_keys }

unfoldable pub next_header : Option Bytes → State → Header
next_header kem_ct s = record {
  epoch = s.send_epoch;
  msg_num = s.send_msg_num;
  prev_count = s.prev_send_count;
  sender_ratchet_pub = s.my_ratchet_kem.public;
  kem_ct = kem_ct;
}

unfoldable pub message_of : Header → AesEncrypted → Message
message_of hdr e = record { header = hdr; nonce = e.nonce; ciphertext = e.ciphertext; tag = e.tag }

unfoldable pub reject_past : Header → Exec State (Unit {0})
reject_past hdr s =
    if ltb hdr.epoch s.recv_epoch
    then (err "Message from past epoch without skipped key", s)
    else (ok tt, s)

module _ (p : Provider) where
  -- `chain_step` returns the message key and writes the next chain key.
  unfoldable pub message_key : Bytes → Bytes
  message_key chain_key = shake256_32 p (chain_key ∷ ascii "message_key" ∷ [])

  unfoldable pub next_chain_key : Bytes → Bytes
  next_chain_key chain_key = shake256_32 p (chain_key ∷ ascii "next_chain_key" ∷ [])

  unfoldable pub step_root : Bytes → Bytes → Bytes
  step_root root ss = shake256_32 p (root ∷ ss ∷ ascii "ratchet_step" ∷ [])

  unfoldable pub send_chain : Bytes → Bytes
  send_chain root = shake256_32 p (root ∷ ascii "send_chain" ∷ [])

  unfoldable pub recv_chain : Bytes → Bytes
  recv_chain root = shake256_32 p (root ∷ ascii "recv_chain" ∷ [])

  unfoldable pub mlkem_keygen : Bytes → KemKeyPair
  mlkem_keygen coins =
      let pair = p.kem_keypair coins in record { public = pair.0; private = pair.1 }

  -- The body of the loop of `advance_recv_chain`.
  unfoldable pub skip_one : ℕ → State → State
  skip_one epoch s = record s {
    recv_chain_key = next_chain_key s.recv_chain_key;
    recv_msg_num = inc32 s.recv_msg_num;
    skipped_keys =
        assign (skip_key epoch s.recv_msg_num) (message_key s.recv_chain_key) s.skipped_keys;
  }

  unfoldable pub skip_until : ℕ → ℕ → ℕ → Exec State (Unit {0})
  skip_until zero epoch target s = (ok tt, s)
  skip_until (suc fuel) epoch target s =
      let rest = skip_until fuel epoch target (skip_one epoch s) in
      if ltb s.recv_msg_num target
      then (if leb max_skipped_keys (length s.skipped_keys)
          then (err "Too many skipped messages", s)
          else rest)
      else (ok tt, s)

  -- Each round raises `recv_msg_num` by one, so the distance to the target is fuel enough.
  unfoldable pub advance_recv_chain : ℕ → ℕ → Exec State (Unit {0})
  advance_recv_chain epoch target s = skip_until (target - s.recv_msg_num) epoch target s

  -- What `apply_kem_step_recv` writes after the old chain is drained.
  unfoldable pub install_step : Bytes → Header → State → State
  install_step kem_ct hdr s =
      let new_root = step_root s.root_key (p.kem_decaps s.my_ratchet_kem.private kem_ct) in
      record s {
        recv_chain_key = send_chain new_root;
        root_key = new_root;
        recv_epoch = hdr.epoch;
        recv_msg_num = 0;
        peer_ratchet_pub = hdr.sender_ratchet_pub;
        need_kem_step = true;
      }

  unfoldable pub apply_kem_step_recv : Bytes → Header → Exec State (Unit {0})
  apply_kem_step_recv kem_ct hdr s =
      (do advance_recv_chain s.recv_epoch hdr.prev_count; modify (install_step kem_ct hdr)) s

  unfoldable pub initial_state : Bytes → Bytes → Bytes → Bool → Bytes → Bytes → State
  initial_state root send recv need coins peer = record {
    root_key = root;
    send_chain_key = send;
    recv_chain_key = recv;
    send_epoch = 0;
    recv_epoch = 0;
    send_msg_num = 0;
    recv_msg_num = 0;
    prev_send_count = 0;
    need_kem_step = need;
    my_ratchet_kem = mlkem_keygen coins;
    peer_ratchet_pub = peer;
    skipped_keys = [];
  }

  unfoldable pub init_as_sender :
      (peer_prekey_pub my_key_b_pub peer_key_b_pub : Bytes) → Coins → InitResult
  init_as_sender peer_prekey_pub my_key_b_pub peer_key_b_pub coins =
      let (prekey_ct, prekey_ss) = p.kem_encaps peer_prekey_pub coins.encaps in
      let root =
        shake256_32 p (prekey_ss ∷ my_key_b_pub ∷ peer_key_b_pub ∷ ascii "ratchet_init" ∷ []) in
      let state =
        initial_state root (send_chain root) (recv_chain root) false coins.keygen peer_prekey_pub in
      record { state = state; prekey_ct = prekey_ct; my_ratchet_pub = state.my_ratchet_kem.public }

  -- The chains are swapped: what one side sends on, the other receives on.
  unfoldable pub init_as_receiver :
      (my_prekey_priv prekey_ct sender_key_b_pub my_key_b_pub sender_ratchet_pub : Bytes)
      → Bytes
      → State
  init_as_receiver my_prekey_priv prekey_ct sender_key_b_pub my_key_b_pub sender_ratchet_pub coins =
      let prekey_ss = p.kem_decaps my_prekey_priv prekey_ct in
      let root =
        shake256_32 p (prekey_ss ∷ sender_key_b_pub ∷ my_key_b_pub ∷ ascii "ratchet_init" ∷ []) in
      initial_state root (recv_chain root) (send_chain root) true coins sender_ratchet_pub

  -- The KEM ratchet step at the head of `encrypt`; it returns the ciphertext for the header.
  unfoldable pub stepped : Coins → State → State
  stepped coins s =
      let new_root = step_root s.root_key (p.kem_encaps s.peer_ratchet_pub coins.encaps).1 in
      record s {
        prev_send_count = s.send_msg_num;
        send_msg_num = 0;
        send_epoch = inc32 s.send_epoch;
        send_chain_key = send_chain new_root;
        root_key = new_root;
        my_ratchet_kem = mlkem_keygen coins.keygen;
        need_kem_step = false;
      }

  unfoldable pub kem_step_send : Coins → Exec State (Option Bytes)
  kem_step_send coins s =
      if s.need_kem_step
      then (ok (some (p.kem_encaps s.peer_ratchet_pub coins.encaps).0), stepped coins s)
      else (ok none, s)

  -- `chain_step` on the sending chain, with the counter.
  unfoldable pub advance_send : State → State
  advance_send s = record s {
    send_chain_key = next_chain_key s.send_chain_key;
    send_msg_num = inc32 s.send_msg_num;
  }

  unfoldable pub seal_next : Bytes → Bytes → Option Bytes → Exec State Message
  seal_next plaintext nonce kem_ct s =
      (do
        modify advance_send
        e ← lift (aes_encrypt p (message_key s.send_chain_key) plaintext [] nonce)
        pure (message_of (next_header kem_ct s) e))
        s

  unfoldable pub encrypt : Bytes → Coins → Exec State Message
  encrypt plaintext coins = do kem_ct ← kem_step_send coins; seal_next plaintext coins.nonce kem_ct

  unfoldable pub open_with : Bytes → Message → Exec State Bytes
  open_with key msg = lift (aes_decrypt p key msg.nonce msg.ciphertext msg.tag [])

  -- The KEM ratchet step at the head of `decrypt`, for an epoch that is new.
  unfoldable pub enter_epoch : Header → Exec State (Unit {0})
  enter_epoch hdr s =
      if ltb s.recv_epoch hdr.epoch
      then elim hdr.kem_ct [
        | none ↦ (err "Missing kem_ct for new ratchet epoch", s)
        | some kem_ct ↦ apply_kem_step_recv kem_ct hdr s
      ]
      else (ok tt, s)

  -- `chain_step` on the receiving chain, with the counter.
  unfoldable pub advance_recv : State → State
  advance_recv s = record s {
    recv_chain_key = next_chain_key s.recv_chain_key;
    recv_msg_num = inc32 s.recv_msg_num;
  }

  -- The chain has moved on before the message is authenticated.
  unfoldable pub open_next : Message → Exec State Bytes
  open_next msg s = (do modify advance_recv; open_with (message_key s.recv_chain_key) msg) s

  unfoldable pub decrypt_fresh : Message → Exec State Bytes
  decrypt_fresh msg = do
    enter_epoch msg.header
    reject_past msg.header
    advance_recv_chain msg.header.epoch msg.header.msg_num
    open_next msg

  -- The cached key is erased before the message is authenticated.
  unfoldable pub decrypt_cached : Bytes → Message → Exec State Bytes
  decrypt_cached key msg = do
    modify (forget_key (skip_key msg.header.epoch msg.header.msg_num))
    open_with key msg

  unfoldable pub decrypt : Message → Exec State Bytes
  decrypt msg s = elim (lookup (skip_key msg.header.epoch msg.header.msg_num) s.skipped_keys) [
    | some key ↦ decrypt_cached key msg s
    | none ↦ decrypt_fresh msg s
  ]
