-- ===== src/Ratchet/Bounds.antt =====
-- The cache of message keys in ratchet.cpp never outgrows its limit, on success or on a throw.
use scatter_web_project.Common.{
  ℕ, zero, suc, ◌-◌, ◌≤◌, length, nat_eq, arith, length-assign-le, length-erase-le,
}
use scatter_web_project.Crypto.{Provider}
use scatter_web_project.Ratchet.{
  State, Header, Message, skip_key, message_key, skip_one, skip_until, advance_recv_chain,
  max_skipped_keys, apply_kem_step_recv, install_step, open_with, enter_epoch, reject_past,
  advance_recv, open_next, decrypt_fresh, decrypt_cached, forget_key, decrypt,
}

abbrev pub Fits : State → Type 0
Fits s = length s.skipped_keys ≤ max_skipped_keys

module _ (p : Provider) where
  length-skip_one :
      (epoch : ℕ) (s : State)
      → length (skip_one p epoch s).skipped_keys ≤ suc (length s.skipped_keys)
  unfolding skip_one
  length-skip_one epoch s =
      length-assign-le (skip_key epoch s.recv_msg_num) (message_key p s.recv_chain_key)
        s.skipped_keys

  skip_until-Fits :
      (fuel epoch target : ℕ) (s : State) → Fits s → Fits (skip_until p fuel epoch target s).1
  unfolding skip_until
  skip_until-Fits zero epoch target s h = h
  skip_until-Fits (suc fuel) epoch target s h =
      ground
        (arith, skip_until-Fits fuel epoch target (skip_one p epoch s), length-skip_one epoch s)

  advance-Fits :
      (epoch target : ℕ) (s : State) → Fits s → Fits (advance_recv_chain p epoch target s).1
  unfolding advance_recv_chain
  advance-Fits epoch target s h = skip_until-Fits (target - s.recv_msg_num) epoch target s h

  enter_epoch-Fits : (hdr : Header) (s : State) → Fits s → Fits (enter_epoch p hdr s).1
  unfolding enter_epoch apply_kem_step_recv install_step
  enter_epoch-Fits hdr s h = ground (arith, advance-Fits s.recv_epoch hdr.prev_count s h)

  decrypt_fresh-Fits : (msg : Message) (s : State) → Fits s → Fits (decrypt_fresh p msg s).1
  unfolding decrypt_fresh reject_past open_next open_with advance_recv
  decrypt_fresh-Fits msg s h =
      let entered = enter_epoch-Fits msg.header s h in
      ground (
        arith,
        entered,
        advance-Fits msg.header.epoch msg.header.msg_num (enter_epoch p msg.header s).1 entered,
      )

  -- Whatever message arrives, and whether `decrypt` returns or throws, the cache stays within
  -- its limit.
  pub decrypt-Fits : (msg : Message) (s : State) → Fits s → Fits (decrypt p msg s).1
  unfolding decrypt decrypt_cached forget_key open_with
  decrypt-Fits msg s h = ground (
    arith,
    decrypt_fresh-Fits msg s h,
    length-erase-le (skip_key msg.header.epoch msg.header.msg_num) s.skipped_keys,
  )
