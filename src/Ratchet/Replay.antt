-- ===== src/Ratchet/Replay.antt =====
-- A message of the current epoch that reaches `decrypt` of ratchet.cpp a second time.
use scatter_web_project.Common.{
  ◌+◌, ◌^◌, ◌≤◌, ◌<◌, ◌≡◌, refl, ap, Result, Bytes, none, [], lookup, nat_eq, arith,
}
use scatter_web_project.Crypto.{Provider, aes_decrypt}
use scatter_web_project.Ratchet.Steps.{IsFresh, advance_idle}
use scatter_web_project.Ratchet.{
  State, Message, inc32, skip_key, message_key, next_chain_key, open_with, enter_epoch, reject_past,
  advance_recv, open_next, decrypt_fresh, decrypt,
}

module _ (p : Provider) where
  -- A message behind the counter whose key is gone is tried under the key of the next message,
  -- and moves the chain on whether it opens or not.
  decrypt_behind :
      (msg : Message) (s : State)
      → msg.header.epoch ≡ s.recv_epoch
      → msg.header.msg_num ≤ s.recv_msg_num
      → lookup (skip_key msg.header.epoch msg.header.msg_num) s.skipped_keys ≡ none
      → decrypt p msg s ≡ (
        aes_decrypt p (message_key p s.recv_chain_key) msg.nonce msg.ciphertext msg.tag [],
        advance_recv p s,
      )
  unfolding decrypt decrypt_fresh enter_epoch reject_past open_next open_with
  decrypt_behind msg s e n gone =
      ground (arith, advance_idle p msg.header.epoch msg.header.msg_num s)

  second :
      (msg : Message) (s : State)
      → IsFresh s
      → s.recv_msg_num + 1 < 2 ^ 32
      → msg.header.epoch ≡ s.recv_epoch
      → msg.header.msg_num ≡ s.recv_msg_num
      → decrypt p msg (advance_recv p s) ≡ (
        aes_decrypt p
            (message_key p (next_chain_key p s.recv_chain_key))
            msg.nonce
            msg.ciphertext
            msg.tag
            [],
        advance_recv p (advance_recv p s),
      )
  unfolding advance_recv inc32
  second msg s fresh room e n =
      decrypt_behind msg (advance_recv p s) e (omega arith)
        (fresh.none_ahead (skip_key msg.header.epoch msg.header.msg_num) (rw (e, n) (omega arith)))

  -- After a duplicate, the receiver's chain is one message ahead of the sender's: the honest next
  -- message is tried under the key of its successor.
  pub duplicate_desyncs :
      (old msg : Message) (s : State)
      → IsFresh s
      → s.recv_msg_num + 1 < 2 ^ 32
      → old.header.epoch ≡ s.recv_epoch
      → old.header.msg_num < s.recv_msg_num
      → lookup (skip_key old.header.epoch old.header.msg_num) s.skipped_keys ≡ none
      → msg.header.epoch ≡ s.recv_epoch
      → msg.header.msg_num ≡ s.recv_msg_num
      → ((decrypt p old s).1 ≡ advance_recv p s)
        × ((decrypt p msg (decrypt p old s).1).0
            ≡ aes_decrypt p
                (message_key p (next_chain_key p s.recv_chain_key))
                msg.nonce
                msg.ciphertext
                msg.tag
                [])
  duplicate_desyncs old msg s fresh room e n gone e' n' =
      let first = decrypt_behind old s e (omega arith) gone in
      rw first (refl, ap (λ (r : Result Bytes × State). r.0) (second msg s fresh room e' n'))
