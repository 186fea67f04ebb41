-- ===== src/Ratchet/Session.antt =====
-- Two parties that talk over ratchet.cpp: what keeps them in step, turn after turn.
use scatter_web_project.Common.{
  ℕ, suc, ◌+◌, ◌^◌, ◌≤◌, ◌<◌, ◌≡◌, refl, ap, ◌⊎◌, inl, inr, Bytes, true, false, none, some, [],
  Result, ok, err, nat_eq, arith,
}
use scatter_web_project.Crypto.{
  Provider, IsSound, CanSeal, AesEncrypted, aes_encrypt, aes_decrypt, aes_encrypt-CanSeal,
  aes_decrypt-encrypt,
}
use scatter_web_project.Ratchet.Steps.{IsFresh, encrypt_lem, decrypt_next, decrypt_step}
use scatter_web_project.Ratchet.{
  State, Header, Message, Coins, inc32, skip_key, message_key, next_chain_key, mlkem_keygen,
  install_step, stepped, kem_step_send, next_header, message_of, advance_send, encrypt,
  advance_recv, decrypt,
}

-- `a` sends on the chain that `b` receives on.
pub record Live (a b : State) : Type 0 where
  pub idle : a.need_kem_step ≡ false
  pub chains : a.send_chain_key ≡ b.recv_chain_key

-- The counters fit with room for more.
pub record Within (n : ℕ) (s : State) : Type 0 where
  pub messages : s.send_msg_num ≤ n
  pub epochs : s.send_epoch ≤ n

-- A turn: the result of the receiver, then both states.
abbrev pub Turn : Type 0
Turn = Result Bytes × State × State

module _ (p : Provider) where
  -- `a` has to make a KEM step first, to the key pair that `b` holds.
  pub record Pending (a b : State) : Type 0 where
    pub due : a.need_kem_step ≡ true
    pub roots : a.root_key ≡ b.root_key
    pub peer : a.peer_ratchet_pub ≡ b.my_ratchet_kem.public
    pub seed : Bytes
    pub pair : b.my_ratchet_kem ≡ mlkem_keygen p seed

  -- The direction from `a` to `b` is in step.
  pub record Link (a b : State) : Type 0 where
    pub epoch : a.send_epoch ≡ b.recv_epoch
    pub number : a.send_msg_num ≡ b.recv_msg_num
    pub keys : Live a b ⊎ Pending a b
    pub fresh : IsFresh b

  advance_recv-IsFresh :
      (b : State) → IsFresh b → b.recv_msg_num + 1 < 2 ^ 32 → IsFresh (advance_recv p b)
  unfolding advance_recv inc32 skip_key
  advance_recv-IsFresh b fresh room = record {
    none_ahead = λ k h. fresh.none_ahead k (omega arith);
    in_range = omega arith;
  }

  install_step-IsFresh :
      (ct : Bytes) (hdr : Header) (b : State)
      → b.recv_epoch < hdr.epoch
      → IsFresh b
      → IsFresh (install_step p ct hdr b)
  unfolding install_step skip_key
  install_step-IsFresh ct hdr b newer fresh = record {
    none_ahead = λ k h. fresh.none_ahead k (omega (arith, fresh.in_range));
    in_range = omega arith;
  }

  Link-advance :
      (a b : State)
      → Live a b
      → Link a b
      → a.send_msg_num + 1 < 2 ^ 32
      → Link (advance_send p a) (advance_recv p b)
  unfolding advance_send advance_recv
  Link-advance a b live link room = record {
    epoch = link.epoch;
    number = ap inc32 link.number;
    keys = inl (record { idle = live.idle; chains = ap (next_chain_key p) live.chains });
    fresh = advance_recv-IsFresh b link.fresh (omega (arith, link.number));
  }

  advance_send-Within :
      (n : ℕ) (a : State) → Within n a → n + 1 < 2 ^ 32 → Within (suc n) (advance_send p a)
  unfolding advance_send inc32
  advance_send-Within n a w room = omega (arith, w.messages, w.epochs)

  advance_recv-Within : (n : ℕ) (b : State) → Within n b → Within (suc n) (advance_recv p b)
  unfolding advance_recv
  advance_recv-Within n b w = omega (arith, w.messages, w.epochs)

  -- A turn in one direction leaves the other direction in step.
  Link-back_live : (a b : State) → Link b a → Link (advance_recv p b) (advance_send p a)
  unfolding advance_send advance_recv
  Link-back_live a b back = record {
    epoch = back.epoch;
    number = back.number;
    keys = elim back.keys [
      | inl live ↦ inl (record { idle = live.idle; chains = live.chains })
      | inr wait ↦ inr (record {
        due = wait.due;
        roots = wait.roots;
        peer = wait.peer;
        seed = wait.seed;
        pair = wait.pair;
      })
    ];
    fresh = record { none_ahead = back.fresh.none_ahead; in_range = back.fresh.in_range };
  }

  seal_open :
      (key text nonce : Bytes)
      → IsSound p
      → CanSeal p
      → (e : AesEncrypted) × (aes_encrypt p key text [] nonce ≡ ok e)
        × (aes_decrypt p key e.nonce e.ciphertext e.tag [] ≡ ok text)
  seal_open key text nonce sound can =
      let (e, sealed) = aes_encrypt-CanSeal p key text [] nonce can in
      (e, sealed, aes_decrypt-encrypt p key text [] nonce e sound sealed)

  hand_over : Result Message → State → State → Turn
  hand_over (ok msg) a b = ((decrypt p msg b).0, a, (decrypt p msg b).1)
  hand_over (err e) a b = (err e, a, b)

  -- One message, sent by the first party and handed to the second at once.
  unfoldable pub deliver : Bytes → Coins → State → State → Turn
  unfolding hand_over
  deliver text coins a b = hand_over (encrypt p text coins a).0 (encrypt p text coins a).1 b

  -- The message arrived, and both directions are in step again.
  pub record Delivered (n : ℕ) (text : Bytes) (t : Turn) : Type 0 where
    pub arrives : t.0 ≡ ok text
    pub forth : Link t.1 t.2
    pub back : Link t.2 t.1
    pub speaker : Within (suc n) t.1
    pub listener : Within (suc n) t.2

  deliver-Live :
      (n : ℕ) (text : Bytes) (coins : Coins) (a b : State)
      → IsSound p
      → CanSeal p
      → Live a b
      → Link a b
      → Link b a
      → Within n a
      → Within n b
      → n + 1 < 2 ^ 32
      → Delivered n text (deliver text coins a b)
  unfolding deliver kem_step_send next_header message_of
  deliver-Live n text coins a b sound can live forth back wa wb room =
      let (e, sealed, opened) =
        seal_open (message_key p a.send_chain_key) text coins.nonce sound can in
      let msg = message_of (next_header none a) e in
      let sent : encrypt p text coins a ≡ (ok msg, advance_send p a) =
        encrypt_lem p text coins a a none e (rw live.idle) sealed in
      let got : decrypt p msg b ≡ (ok text, advance_recv p b) =
        decrypt_next p msg b text forth.epoch forth.number forth.fresh
          (rw (← live.chains) opened) in
      rw (sent, got)
        (record {
          arrives = refl;
          forth = Link-advance a b live forth (omega (arith, wa.messages));
          back = Link-back_live a b back;
          speaker = advance_send-Within n a wa room;
          listener = advance_recv-Within n b wb;
        })

  shared_secret :
      (coins : Bytes) (a b : State)
      → IsSound p
      → Pending a b
      → p.kem_decaps b.my_ratchet_kem.private (p.kem_encaps a.peer_ratchet_pub coins).0
        ≡ (p.kem_encaps a.peer_ratchet_pub coins).1
  unfolding mlkem_keygen
  shared_secret coins a b sound wait = rw (wait.peer, wait.pair) (sound.agrees wait.seed coins)

  -- The header that goes with a KEM step.
  step_header : Coins → State → Header
  step_header coins a =
      next_header (some (p.kem_encaps a.peer_ratchet_pub coins.encaps).0) (stepped p coins a)

  -- The receiver's state once it has followed the step.
  followed : Coins → State → State → State
  followed coins a b =
      install_step p (p.kem_encaps a.peer_ratchet_pub coins.encaps).0 (step_header coins a) b

  Live-stepped :
      (coins : Coins) (a b : State)
      → IsSound p
      → Pending a b
      → Live (stepped p coins a) (followed coins a b)
  unfolding followed stepped install_step
  Live-stepped coins a b sound wait = record {
    idle = refl;
    chains = rw (shared_secret coins.encaps a b sound wait, wait.roots) refl;
  }

  newer_epoch :
      (n : ℕ) (coins : Coins) (a b : State)
      → Link a b
      → Within n a
      → n + 1 < 2 ^ 32
      → b.recv_epoch < (step_header coins a).epoch
  unfolding step_header next_header stepped inc32
  newer_epoch n coins a b forth wa room = omega (arith, wa.epochs, forth.epoch)

  Link-stepped :
      (n : ℕ) (coins : Coins) (a b : State)
      → IsSound p
      → Pending a b
      → Link a b
      → Within n a
      → n + 1 < 2 ^ 32
      → Link (stepped p coins a) (followed coins a b)
  unfolding followed stepped install_step step_header next_header
  Link-stepped n coins a b sound wait forth wa room = record {
    epoch = refl;
    number = refl;
    keys = inl (Live-stepped coins a b sound wait);
    fresh =
        install_step-IsFresh _ (step_header coins a) b (newer_epoch n coins a b forth wa room)
          forth.fresh;
  }

  -- The listener is now the one that owes a KEM step, to the speaker's new key pair.
  Link-back_stepped :
      (coins : Coins) (a b : State)
      → IsSound p
      → Pending a b
      → Link b a
      → Link (followed coins a b) (stepped p coins a)
  unfolding followed stepped install_step step_header next_header
  Link-back_stepped coins a b sound wait back = record {
    epoch = back.epoch;
    number = back.number;
    keys = inr (record {
      due = refl;
      roots = rw (shared_secret coins.encaps a b sound wait, wait.roots) refl;
      peer = refl;
      seed = coins.keygen;
      pair = refl;
    });
    fresh = record { none_ahead = back.fresh.none_ahead; in_range = back.fresh.in_range };
  }

  -- A KEM step starts a new count of messages and remembers the old one.
  counts-stepped :
      (coins : Coins) (a : State)
      → ((stepped p coins a).send_msg_num ≡ 0)
        × ((stepped p coins a).prev_send_count ≡ a.send_msg_num)
  unfolding stepped
  counts-stepped coins a = (refl, refl)

  speaker-Within :
      (n : ℕ) (coins : Coins) (a : State)
      → Within n a
      → n + 1 < 2 ^ 32
      → Within (suc n) (advance_send p (stepped p coins a))
  unfolding advance_send stepped inc32
  speaker-Within n coins a w room = omega (arith, w.epochs)

  listener-Within :
      (n : ℕ) (coins : Coins) (a b : State)
      → Within n b
      → Within (suc n) (advance_recv p (followed coins a b))
  unfolding advance_recv followed install_step
  listener-Within n coins a b w = omega (arith, w.epochs, w.messages)

  deliver-Pending :
      (n : ℕ) (text : Bytes) (coins : Coins) (a b : State)
      → IsSound p
      → CanSeal p
      → Pending a b
      → Link a b
      → Link b a
      → Within n a
      → Within n b
      → n + 1 < 2 ^ 32
      → Delivered n text (deliver text coins a b)
  unfolding deliver kem_step_send message_of followed step_header next_header
  deliver-Pending n text coins a b sound can wait forth back wa wb room =
      let t = stepped p coins a in
      let ct = (p.kem_encaps a.peer_ratchet_pub coins.encaps).0 in
      let counts = counts-stepped coins a in
      let live = Live-stepped coins a b sound wait in
      let link = Link-stepped n coins a b sound wait forth wa room in
      let (e, sealed, opened) =
        seal_open (message_key p t.send_chain_key) text coins.nonce sound can in
      let msg = message_of (step_header coins a) e in
      let sent : encrypt p text coins a ≡ (ok msg, advance_send p t) =
        encrypt_lem p text coins a t (some ct) e (rw wait.due) sealed in
      let got : decrypt p msg b ≡ (ok text, advance_recv p (followed coins a b)) =
        decrypt_step p msg b text ct (newer_epoch n coins a b forth wa room) counts.0
          (omega (arith, counts.1, forth.number)) refl forth.fresh (rw (← live.chains) opened) in
      rw (sent, got)
        (record {
          arrives = refl;
          forth = Link-advance t (followed coins a b) live link (omega (arith, counts.0));
          back =
              Link-back_live t (followed coins a b) (Link-back_stepped coins a b sound wait back);
          speaker = speaker-Within n coins a wa room;
          listener = listener-Within n coins a b wb;
        })

  -- Whoever speaks, the message arrives and the parties stay in step.
  pub deliver-Delivered :
      (n : ℕ) (text : Bytes) (coins : Coins) (a b : State)
      → IsSound p
      → CanSeal p
      → Link a b
      → Link b a
      → Within n a
      → Within n b
      → n + 1 < 2 ^ 32
      → Delivered n text (deliver text coins a b)
  deliver-Delivered n text coins a b sound can forth back wa wb room = elim forth.keys [
    | inl live ↦ deliver-Live n text coins a b sound can live forth back wa wb room
    | inr wait ↦ deliver-Pending n text coins a b sound can wait forth back wa wb room
  ]
