-- ===== src/Ratchet/OutOfOrder.antt =====
-- Messages of ratchet.cpp that arrive in another order than they were sent in.
use scatter_web_project.Common.{
  ℕ, zero, suc, ◌+◌, ◌-◌, ◌^◌, ◌≤◌, ◌<◌, ◌≡◌, refl, sym, ap, ◌∙◌, Bytes, false, none, some, [],
  Result, ok, err, length, lookup, nat_eq, leb, arith, lookup-erase_self, if◌then◌else◌,
}
use scatter_web_project.Crypto.{
  Provider, IsSound, AesEncrypted, aes_encrypt, aes_decrypt, aes_decrypt-encrypt,
}
use scatter_web_project.Ratchet.Steps.{IsFresh}
use scatter_web_project.Ratchet.Session.{Live, Link}
use scatter_web_project.Ratchet.Skipping.{
  chain_after, chain_after-next, chain_after-zero, chain_after-suc, skipped_by, Skipped,
  skipped_by-Skipped, catch_up, overflow,
}
use scatter_web_project.Ratchet.{
  State, Message, Coins, inc32, skip_key, message_key, next_chain_key, advance_recv_chain,
  max_skipped_keys, kem_step_send, next_header, message_of, advance_send, seal_next, encrypt,
  open_with, enter_epoch, reject_past, advance_recv, open_next, decrypt_fresh, decrypt_cached,
  forget_key, decrypt,
}

module _ (p : Provider) where
  -- Advancing by `gap` messages of the current epoch succeeds exactly when the cache, with the
  -- overtaken keys added, stays within its limit; otherwise it throws.
  pub advance_recv_chain_exact :
      (gap : ℕ) (s : State)
      → IsFresh s
      → s.recv_msg_num + gap < 2 ^ 32
      → length s.skipped_keys ≤ max_skipped_keys
      → (advance_recv_chain p s.recv_epoch (s.recv_msg_num + gap) s).0 ≡ (
          if leb (length s.skipped_keys + gap) max_skipped_keys
          then ok tt
          else err "Too many skipped messages")
  unfolding advance_recv_chain
  advance_recv_chain_exact gap s fresh room fits =
      let fuel : s.recv_msg_num + gap - s.recv_msg_num ≡ gap = omega arith in
      rw fuel (ground (arith, catch_up p gap s fresh room, overflow p gap s fresh room fits))

  advance_gap :
      (gap : ℕ) (s : State)
      → IsFresh s
      → s.recv_msg_num + gap < 2 ^ 32
      → length s.skipped_keys + gap ≤ max_skipped_keys
      → advance_recv_chain p s.recv_epoch (s.recv_msg_num + gap) s ≡ (ok tt, skipped_by p gap s)
  unfolding advance_recv_chain
  advance_gap gap s fresh room space =
      let fuel : s.recv_msg_num + gap - s.recv_msg_num ≡ gap = omega arith in
      rw fuel (catch_up p gap s fresh room space)

  place_ahead :
      (s : State) (gap : ℕ)
      → skip_key s.recv_epoch s.recv_msg_num ≤ skip_key s.recv_epoch (s.recv_msg_num + gap)
  unfolding skip_key
  place_ahead s gap = omega arith

  -- A message that overtakes `gap` others opens under the key that the chain reaches.
  decrypt_ahead :
      (gap : ℕ) (msg : Message) (s : State) (text : Bytes)
      → IsFresh s
      → s.recv_msg_num + gap < 2 ^ 32
      → length s.skipped_keys + gap ≤ max_skipped_keys
      → msg.header.epoch ≡ s.recv_epoch
      → msg.header.msg_num ≡ s.recv_msg_num + gap
      → aes_decrypt p
          (message_key p (chain_after p gap s.recv_chain_key))
          msg.nonce
          msg.ciphertext
          msg.tag
          []
        ≡ ok text
      → decrypt p msg s ≡ (ok text, advance_recv p (skipped_by p gap s))
  unfolding decrypt decrypt_fresh enter_epoch reject_past open_next open_with
  decrypt_ahead gap msg s text fresh room space e n opened = ground (
    arith,
    fresh.none_ahead (skip_key s.recv_epoch (s.recv_msg_num + gap)) (place_ahead s gap),
    advance_gap gap s fresh room space,
    (skipped_by-Skipped p gap s fresh room).chain,
  )

  -- A message whose key is cached opens under it, and the key is forgotten.
  decrypt_late :
      (msg : Message) (s : State) (key text : Bytes)
      → lookup (skip_key msg.header.epoch msg.header.msg_num) s.skipped_keys ≡ some key
      → aes_decrypt p key msg.nonce msg.ciphertext msg.tag [] ≡ ok text
      → decrypt p msg s ≡ (ok text, forget_key (skip_key msg.header.epoch msg.header.msg_num) s)
  unfolding decrypt decrypt_cached open_with
  decrypt_late msg s key text cached opened = ground arith

  -- The sender's state after some messages of one epoch.
  unfoldable pub sent_after : ℕ → State → State
  sent_after zero s = s
  sent_after (suc n) s = advance_send p (sent_after n s)

  record SentAfter (n : ℕ) (s t : State) : Type 0 where
    chain : t.send_chain_key ≡ chain_after p n s.send_chain_key
    number : t.send_msg_num ≡ s.send_msg_num + n
    epoch : t.send_epoch ≡ s.send_epoch
    idle : t.need_kem_step ≡ false

  sent_after-SentAfter :
      (n : ℕ) (s : State)
      → s.need_kem_step ≡ false
      → s.send_msg_num + n < 2 ^ 32
      → SentAfter n s (sent_after n s)
  unfolding sent_after advance_send inc32
  sent_after-SentAfter zero s idle room = record {
    chain = chain_after-zero p s.send_chain_key;
    number = omega arith;
    epoch = refl;
    idle = idle;
  }
  sent_after-SentAfter (suc n) s idle room =
      let before = sent_after-SentAfter n s idle (omega arith) in
      record {
        chain =
            ap (next_chain_key p) before.chain
            ∙ sym (chain_after-next p n s.send_chain_key)
            ∙ sym (chain_after-suc p n s.send_chain_key);
        number = omega (arith, before.number);
        epoch = before.epoch;
        idle = before.idle;
      }

  cached_late :
      (i gap : ℕ) (b : State) (msg : Message)
      → Skipped p gap b (skipped_by p gap b)
      → i < gap
      → msg.header.epoch ≡ b.recv_epoch
      → msg.header.msg_num ≡ b.recv_msg_num + i
      → lookup
          (skip_key msg.header.epoch msg.header.msg_num)
          (advance_recv p (skipped_by p gap b)).skipped_keys
        ≡ some (message_key p (chain_after p i b.recv_chain_key))
  unfolding advance_recv
  cached_late i gap b msg reach h e n = rw (e, n) (reach.cached i h)

  forgotten :
      (msg : Message) (s : State)
      → lookup
          (skip_key msg.header.epoch msg.header.msg_num)
          (forget_key (skip_key msg.header.epoch msg.header.msg_num) s).skipped_keys
        ≡ none
  unfolding forget_key
  forgotten msg s = lookup-erase_self _ s.skipped_keys

  -- What `encrypt` returns from such a state, when it returns.
  record Sends (n : ℕ) (a : State) (text : Bytes) (msg : Message) : Type 0 where
    epoch : msg.header.epoch ≡ a.send_epoch
    number : msg.header.msg_num ≡ a.send_msg_num + n
    opens :
        aes_decrypt p
          (message_key p (chain_after p n a.send_chain_key))
          msg.nonce
          msg.ciphertext
          msg.tag
          []
        ≡ ok text

  -- Inversion of an `encrypt` that returned and made no KEM step.
  encrypt_ok :
      (t next : State) (text : Bytes) (coins : Coins) (msg : Message)
      → t.need_kem_step ≡ false
      → encrypt p text coins t ≡ (ok msg, next)
      → (e : AesEncrypted) × (aes_encrypt p (message_key p t.send_chain_key) text [] coins.nonce
          ≡ ok e)
        × (msg ≡ message_of (next_header none t) e)
        × (next ≡ advance_send p t)
  unfolding encrypt kem_step_send seal_next
  encrypt_ok t next text coins msg idle h =
      go (aes_encrypt p (message_key p t.send_chain_key) text [] coins.nonce) refl
    where
      go :
          (r : Result AesEncrypted)
          → aes_encrypt p (message_key p t.send_chain_key) text [] coins.nonce ≡ r
          → (e : AesEncrypted) × (aes_encrypt p (message_key p t.send_chain_key) text [] coins.nonce
              ≡ ok e)
            × (msg ≡ message_of (next_header none t) e)
            × (next ≡ advance_send p t)
      go (ok e) q = (e, q, ground (arith, q), ground (arith, q))
      go (err e) q = absurd (ground (arith, q))

  encrypt-Sends :
      (n : ℕ) (a next : State) (text : Bytes) (coins : Coins) (msg : Message)
      → IsSound p
      → a.need_kem_step ≡ false
      → a.send_msg_num + n < 2 ^ 32
      → encrypt p text coins (sent_after n a) ≡ (ok msg, next)
      → Sends n a text msg
  unfolding next_header message_of
  encrypt-Sends n a next text coins msg sound idle room h =
      let s = sent_after-SentAfter n a idle room in
      let (e, sealed, is_msg, is_next) = encrypt_ok (sent_after n a) next text coins msg s.idle h in
      let opened = aes_decrypt-encrypt p _ text [] coins.nonce e sound sealed in
      rw is_msg (record { epoch = s.epoch; number = s.number; opens = rw (← s.chain) opened })

  -- Of the messages that `a` sends in one epoch, number `gap` may reach `b` first, while the cache
  -- has room for the overtaken ones; `b` reads it, and then it reads any overtaken one as well, once:
  -- its key is forgotten.
  pub overtaken_arrive :
      (gap i : ℕ) (a b : State) (text late : Bytes) (coins coins' : Coins) (msg msg' : Message)
      (next next' : State)
      → IsSound p
      → Live a b
      → Link p a b
      → i < gap
      → a.send_msg_num + gap < 2 ^ 32
      → length b.skipped_keys + gap ≤ max_skipped_keys
      → encrypt p text coins (sent_after gap a) ≡ (ok msg, next)
      → encrypt p late coins' (sent_after i a) ≡ (ok msg', next')
      → let c = (decrypt p msg b).1 in
        let d = (decrypt p msg' c).1 in
        ((decrypt p msg b).0 ≡ ok text)
        × ((decrypt p msg' c).0 ≡ ok late)
        × (lookup (skip_key msg'.header.epoch msg'.header.msg_num) d.skipped_keys ≡ none)
  overtaken_arrive gap i a b text late coins coins' msg msg' next next' sound live link h room space
        e e' =
      let m = encrypt-Sends gap a next text coins msg sound live.idle room e in
      let l = encrypt-Sends i a next' late coins' msg' sound live.idle (omega arith) e' in
      let reach = skipped_by-Skipped p gap b link.fresh (omega (arith, link.number)) in
      let first =
        decrypt_ahead gap msg b text link.fresh (omega (arith, link.number)) space
          (m.epoch ∙ link.epoch) (m.number ∙ ap (λ (k : ℕ). k + gap) link.number)
          (rw (← live.chains) m.opens) in
      let kept =
        cached_late i gap b msg' reach h (l.epoch ∙ link.epoch)
          (l.number ∙ ap (λ (k : ℕ). k + i) link.number) in
      let second =
        decrypt_late msg' (advance_recv p (skipped_by p gap b)) _ late kept
          (rw (← live.chains) l.opens) in
      rw (first, second) (refl, refl, forgotten msg' _)
