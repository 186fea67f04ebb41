-- ===== src/Ratchet/Steps.antt =====
-- What one call of `encrypt` or `decrypt` of ratchet.cpp does, in closed form.
use scatter_web_project.Common.{
  ℕ, ◌-◌, ◌^◌, ◌≤◌, ◌<◌, ◌≡◌, refl, Bytes, Option, none, some, [], ok, lookup, nat_eq, arith,
}
use scatter_web_project.Crypto.{Provider, AesEncrypted, aes_encrypt, aes_decrypt}
use scatter_web_project.Ratchet.{
  State, Message, Coins, skip_key, message_key, install_step, apply_kem_step_recv,
  advance_recv_chain, skip_until, kem_step_send, next_header, message_of, advance_send, seal_next,
  encrypt, open_with, enter_epoch, reject_past, advance_recv, open_next, decrypt_fresh, decrypt,
}

-- No key is cached for the next message or for one after it, in this epoch or a later one.
pub record IsFresh (s : State) : Type 0 where
  pub none_ahead :
      (k : ℕ) → skip_key s.recv_epoch s.recv_msg_num ≤ k → lookup k s.skipped_keys ≡ none
  pub in_range : s.recv_msg_num < 2 ^ 32

skip_key_mono : (d e n : ℕ) → n < 2 ^ 32 → d < e → skip_key d n ≤ skip_key e 0
unfolding skip_key
skip_key_mono d e n h lt = omega arith

module _ (p : Provider) where
  pub encrypt_lem :
      (text : Bytes) (coins : Coins) (s t : State) (kem_ct : Option Bytes) (e : AesEncrypted)
      → kem_step_send p coins s ≡ (ok kem_ct, t)
      → aes_encrypt p (message_key p t.send_chain_key) text [] coins.nonce ≡ ok e
      → encrypt p text coins s ≡ (ok (message_of (next_header kem_ct t) e), advance_send p t)
  unfolding encrypt seal_next
  encrypt_lem text coins s t kem_ct e stepped sealed = rw (stepped, sealed) refl

  pub advance_idle :
      (epoch target : ℕ) (s : State)
      → target ≤ s.recv_msg_num
      → advance_recv_chain p epoch target s ≡ (ok tt, s)
  unfolding advance_recv_chain skip_until
  advance_idle epoch target s h =
      let none_left : target - s.recv_msg_num ≡ 0 = omega arith in rw none_left refl

  -- The next message of the epoch: the chain moves on by one.
  pub decrypt_next :
      (msg : Message) (s : State) (text : Bytes)
      → msg.header.epoch ≡ s.recv_epoch
      → msg.header.msg_num ≡ s.recv_msg_num
      → IsFresh s
      → aes_decrypt p (message_key p s.recv_chain_key) msg.nonce msg.ciphertext msg.tag [] ≡ ok text
      → decrypt p msg s ≡ (ok text, advance_recv p s)
  unfolding decrypt decrypt_fresh enter_epoch reject_past open_next open_with
  decrypt_next msg s text e n fresh opened = ground (
    arith,
    fresh.none_ahead (skip_key s.recv_epoch s.recv_msg_num),
    advance_idle s.recv_epoch s.recv_msg_num s,
    opened,
  )

  -- The first message of a newer epoch, with nothing of the old one outstanding.
  pub decrypt_step :
      (msg : Message) (s : State) (text kem_ct : Bytes)
      → s.recv_epoch < msg.header.epoch
      → msg.header.msg_num ≡ 0
      → msg.header.prev_count ≤ s.recv_msg_num
      → msg.header.kem_ct ≡ some kem_ct
      → IsFresh s
      → aes_decrypt p
          (message_key p (install_step p kem_ct msg.header s).recv_chain_key)
          msg.nonce
          msg.ciphertext
          msg.tag
          []
        ≡ ok text
      → decrypt p msg s ≡ (ok text, advance_recv p (install_step p kem_ct msg.header s))
  unfolding decrypt decrypt_fresh enter_epoch reject_past open_next open_with apply_kem_step_recv
      install_step
  decrypt_step msg s text kem_ct e n drained present fresh opened = ground (
    arith,
    fresh.none_ahead (skip_key msg.header.epoch 0),
    skip_key_mono s.recv_epoch msg.header.epoch s.recv_msg_num fresh.in_range,
    advance_idle s.recv_epoch msg.header.prev_count s,
    advance_idle msg.header.epoch 0 (install_step p kem_ct msg.header s),
    opened,
  )
