-- ===== src/Examples/Ratchets.antt =====
-- The theorems on ratchet.cpp at concrete states, with the computable provider.
use scatter_web_project.Common.{
  nat_eq, string_eq, inl, ℕ, ◌≡◌, ◌≤◌, refl, Bytes, false, none, List, [], ◌∷◌, ok, err, length,
  replicate, length-replicate, lookup, arith,
}
use scatter_web_project.Crypto.{AesEncrypted, aes_encrypt, aes_decrypt, aes_encrypt-CanSeal}
use scatter_web_project.Toy.{toy, toy-IsSound, toy-CanSeal, fixed, fixed-IsDefinite}
use scatter_web_project.Cbor.{Libcbor, null, Loads, add_pairs}
use scatter_web_project.Ratchet.Steps.{IsFresh}
use scatter_web_project.Ratchet.Conversation.{
  Setup, Utterance, first, second, converse, opened_by, answered_by, converse_delivers,
}
use scatter_web_project.Ratchet.OutOfOrder.{advance_recv_chain_exact, overtaken_arrive, sent_after}
use scatter_web_project.Ratchet.Bounds.{decrypt-Fits}
use scatter_web_project.Ratchet.Replay.{duplicate_desyncs}
use scatter_web_project.Ratchet.Storage.{stored_item, serialize, deserialize, deserialize-serialize}
use scatter_web_project.Ratchet.{
  State, Message, Coins, skip_key, message_key, next_chain_key, encrypt, decrypt, advance_recv,
  message_of, next_header, advance_send, kem_step_send, seal_next, advance_recv_chain,
}

abbrev pub some_coins : Coins
some_coins = record { encaps = 1 ∷ []; keygen = 2 ∷ []; nonce = replicate 12 3 }

abbrev some_setup : Setup
some_setup = record {
  prekey_seed = 5 ∷ [];
  first_key = 6 ∷ [];
  second_key = 7 ∷ [];
  first_coins = some_coins;
  second_coins = 8 ∷ [];
}

abbrev three_utterances : List Utterance
three_utterances =
    record { speaker = first; text = 10 ∷ []; coins = some_coins }
    ∷ record { speaker = second; text = 11 ∷ []; coins = some_coins }
    ∷ record { speaker = second; text = []; coins = some_coins }
    ∷ []

converse_delivers_example :
    converse toy three_utterances (opened_by toy some_setup).state (answered_by toy some_setup)
    ≡ ok (10 ∷ []) ∷ ok (11 ∷ []) ∷ ok [] ∷ []
converse_delivers_example =
    converse_delivers toy some_setup three_utterances toy-IsSound toy-CanSeal (omega arith)

-- A state in the middle of an epoch.
abbrev pub some_state : State
some_state = record {
  root_key = replicate 32 1;
  send_chain_key = replicate 32 2;
  recv_chain_key = replicate 32 2;
  send_epoch = 1;
  recv_epoch = 1;
  send_msg_num = 4;
  recv_msg_num = 4;
  prev_send_count = 0;
  need_kem_step = false;
  my_ratchet_kem = record { public = replicate 1184 3; private = replicate 2400 4 };
  peer_ratchet_pub = replicate 1184 5;
  skipped_keys = [];
}

some_state-IsFresh : IsFresh some_state
unfolding lookup
some_state-IsFresh = record { none_ahead = λ k h. refl; in_range = omega arith }

advance_recv_chain_exact_example :
    (advance_recv_chain toy 1 107 some_state).0 ≡ err "Too many skipped messages"
advance_recv_chain_exact_example =
    advance_recv_chain_exact toy 103 some_state some_state-IsFresh (omega arith) (omega arith)

abbrev pub a_message : ℕ → Message
a_message n = record {
  header = record {
    epoch = 1;
    msg_num = n;
    prev_count = 0;
    sender_ratchet_pub = replicate 1184 5;
    kem_ct = none;
  };
  nonce = replicate 12 0;
  ciphertext = 1 ∷ 2 ∷ [];
  tag = replicate 16 0;
}

decrypt-Fits_example : length (decrypt toy (a_message 7) some_state).1.skipped_keys ≤ 100
decrypt-Fits_example = decrypt-Fits toy (a_message 7) some_state (omega arith)

duplicate_desyncs_example :
    ((decrypt toy (a_message 3) some_state).1 ≡ advance_recv toy some_state)
    × ((decrypt toy (a_message 4) (decrypt toy (a_message 3) some_state).1).0
        ≡ aes_decrypt toy
            (message_key toy (next_chain_key toy (replicate 32 2)))
            (replicate 12 0)
            (1 ∷ 2 ∷ [])
            (replicate 16 0)
            [])
unfolding lookup
duplicate_desyncs_example =
    duplicate_desyncs toy (a_message 3) (a_message 4) some_state some_state-IsFresh (omega arith)
      refl (omega arith) refl refl refl

abbrev store : Libcbor
store = fixed (stored_item (fixed null) some_state)

store-Loads : Loads store (stored_item store some_state)
unfolding stored_item add_pairs
store-Loads = refl

deserialize-serialize_example : deserialize store (serialize store some_state) ≡ ok some_state
deserialize-serialize_example =
    deserialize-serialize store some_state (fixed-IsDefinite _)
      (record {
        root = refl;
        send = refl;
        recv = refl;
        public = length-replicate {A = ℕ} 1184 3;
        private = length-replicate {A = ℕ} 2400 4;
        peer = length-replicate {A = ℕ} 1184 5;
        send_epoch = omega arith;
        recv_epoch = omega arith;
        send_msg_num = omega arith;
        recv_msg_num = omega arith;
        prev_send_count = omega arith;
      })
      store-Loads

-- Two ends in step, both in `some_state`: the message after next arrives first.
abbrev sealed_text :
    (n : ℕ) (text : Bytes)
    → (e : AesEncrypted) × (aes_encrypt toy
          (message_key toy (sent_after toy n some_state).send_chain_key)
          text
          []
          (replicate 12 3)
        ≡ ok e)
sealed_text n text =
    aes_encrypt-CanSeal toy (message_key toy (sent_after toy n some_state).send_chain_key) text []
      (replicate 12 3) toy-CanSeal

abbrev sent_message : ℕ → Bytes → Message
sent_message n text =
    message_of (next_header none (sent_after toy n some_state)) (sealed_text n text).0

message_sent :
    (n : ℕ) (text : Bytes)
    → (sent_after toy n some_state).need_kem_step ≡ false
    → encrypt toy text some_coins (sent_after toy n some_state)
      ≡ (ok (sent_message n text), advance_send toy (sent_after toy n some_state))
unfolding encrypt kem_step_send seal_next
message_sent n text idle = rw (idle, (sealed_text n text).1) refl

one_sent_idle : (sent_after toy 1 some_state).need_kem_step ≡ false
unfolding sent_after advance_send
one_sent_idle = refl

none_sent_idle : (sent_after toy 0 some_state).need_kem_step ≡ false
unfolding sent_after
none_sent_idle = refl

overtaken_arrive_example :
    let c = (decrypt toy (sent_message 1 (10 ∷ [])) some_state).1 in
    let d = (decrypt toy (sent_message 0 (11 ∷ [])) c).1 in
    ((decrypt toy (sent_message 1 (10 ∷ [])) some_state).0 ≡ ok (10 ∷ []))
    × ((decrypt toy (sent_message 0 (11 ∷ [])) c).0 ≡ ok (11 ∷ []))
    × (lookup
          (skip_key
            (sent_message 0 (11 ∷ [])).header.epoch
            (sent_message 0 (11 ∷ [])).header.msg_num)
          d.skipped_keys
        ≡ none)
overtaken_arrive_example =
    overtaken_arrive toy 1 0 some_state some_state (10 ∷ []) (11 ∷ []) some_coins some_coins
      (sent_message 1 (10 ∷ [])) (sent_message 0 (11 ∷ [])) _ _ toy-IsSound
      (record { idle = refl; chains = refl })
      (record {
        epoch = refl;
        number = refl;
        keys = inl (record { idle = refl; chains = refl });
        fresh = some_state-IsFresh;
      })
      (omega arith) (omega arith) (omega arith) (message_sent 1 (10 ∷ []) one_sent_idle)
      (message_sent 0 (11 ∷ []) none_sent_idle)
