-- ===== src/Examples/Managers.antt =====
-- The refinement theorem on ratchet_manager.cpp: a new start between two calls of one conversation.
use scatter_web_project.Common.{
  ℕ, ◌≡◌, refl, none, some, List, [], ◌∷◌, length-replicate, lookup, bytes_beq, nat_eq, string_eq,
  arith,
}
use scatter_web_project.Toy.{toy, lettered, lettered-IsDefinite}
use scatter_web_project.Cbor.{Libcbor, c_str, add_pairs}
use scatter_web_project.Ratchet.{
  State, encrypt, decrypt, decrypt_fresh, enter_epoch, reject_past, advance_recv_chain, skip_until,
  open_next, open_with, advance_send, next_chain_key, inc32, kem_step_send, seal_next,
}
use scatter_web_project.Crypto.{shake256_32, aes_encrypt, aes_decrypt}
use scatter_web_project.Ratchet.Storage.{stored_item}
use scatter_web_project.Client.RatchetManager.{Manager, get_ratchet_state}
use scatter_web_project.Client.RatchetManager.Specification.{
  Operation, seal, open_message, restart, read_blob, ratchet_step, current, after_call, step_saves,
  saves_after, saves, specified, IsStorable, performed_all, specified_all, saves_all, world_of,
}
use scatter_web_project.Client.RatchetManager.Refinement.{manager_refines}
use scatter_web_project.Examples.Ratchets.{some_coins, some_state, a_message}

abbrev after_seal : State
after_seal = advance_send toy some_state

-- CBOR for the one state that is saved.
abbrev one_state : Libcbor
one_state = lettered (λ n. some (stored_item (lettered (λ k. none)) after_seal))

-- One conversation, which is not stored yet.
abbrev started : Manager
started = record { cache = ("a", some_state) ∷ []; key_e_ratchet = [] }

abbrev operations : List Operation
operations =
    open_message "b" (a_message 3)
    ∷ seal "a" (4 ∷ []) some_coins
    ∷ restart
    ∷ open_message "a" (a_message 3)
    ∷ []

after_seal-IsStorable : IsStorable one_state after_seal
unfolding stored_item add_pairs advance_send next_chain_key shake256_32 inc32
after_seal-IsStorable = record {
  sized = record {
    root = refl;
    send = refl;
    recv = refl;
    public = length-replicate {A = ℕ} 1184 3;
    private = length-replicate {A = ℕ} 2400 4;
    peer = length-replicate {A = ℕ} 1184 5;
    send_epoch = omega arith;
    recv_epoch = omega arith;
    send_msg_num = omega arith;
    recv_msg_num = omega arith;
    prev_send_count = omega arith;
  };
  loads = refl;
}

saved_once : saves_all toy one_state operations (world_of one_state started) ≡ after_seal ∷ []
unfolding saves_all saves specified world_of current step_saves saves_after ratchet_step after_call
    encrypt kem_step_send seal_next aes_encrypt decrypt lookup read_blob get_ratchet_state
    decrypt_fresh enter_epoch advance_send reject_past advance_recv_chain skip_until open_next
    open_with aes_decrypt bytes_beq
saved_once = refl

manager_refines_example :
    performed_all toy one_state operations started
    ≡ specified_all toy one_state operations (world_of one_state started)
unfolding c_str
manager_refines_example =
    manager_refines toy one_state (lettered-IsDefinite _) refl operations started
      (refl, (refl, (tt, (refl, tt)))) (rw saved_once (after_seal-IsStorable, tt))
