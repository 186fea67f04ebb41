-- ===== src/Ratchet/Conversation.antt =====
-- A whole conversation over ratchet.cpp, from the two `init_as_` calls on.
use scatter_web_project.Common.{
  ℕ, suc, ◌+◌, ◌^◌, ◌<◌, ◌≡◌, refl, ap, ap₂, inl, inr, Bytes, List, [], ◌∷◌, map, Result, ok,
  length, arith, lookup, sym, Bool, nat_eq,
}
use scatter_web_project.Crypto.{Provider, IsSound, CanSeal}
use scatter_web_project.Ratchet.Steps.{IsFresh}
use scatter_web_project.Ratchet.Session.{Turn, Link, Within, Delivered, deliver, deliver-Delivered}
use scatter_web_project.Ratchet.{
  State, Coins, InitResult, initial_state, mlkem_keygen, send_chain, init_as_sender,
  init_as_receiver,
}

pub data Speaker : Type 0 where
  first second : Speaker

pub record Utterance : Type 0 where
  pub speaker : Speaker
  pub text : Bytes
  pub coins : Coins

-- What the two parties start from: the seed of the second party's prekey, the long-term public
-- keys, and the random bytes that each draws.
pub record Setup : Type 0 where
  pub prekey_seed : Bytes
  pub first_key : Bytes
  pub second_key : Bytes
  pub first_coins : Coins
  pub second_coins : Bytes

module _ (p : Provider) where
  -- The result, then the states of the first and of the second party.
  speak : Speaker → Bytes → Coins → State → State → Turn
  speak first text coins a b = deliver p text coins a b
  speak second text coins a b = let t = deliver p text coins b a in (t.0, t.2, t.1)

  -- A conversation in which every message is delivered before the next is written.
  unfoldable pub converse : List Utterance → State → State → List (Result Bytes)
  unfolding speak
  converse [] a b = []
  converse (u ∷ us) a b = let t = speak u.speaker u.text u.coins a b in t.0 ∷ converse us t.1 t.2

  module _ (sound : IsSound p) (can : CanSeal p) where
    speak-Delivered :
        (s : Speaker) (n : ℕ) (text : Bytes) (coins : Coins) (a b : State)
        → Link p a b
        → Link p b a
        → Within n a
        → Within n b
        → n + 1 < 2 ^ 32
        → Delivered p n text (speak s text coins a b)
    unfolding speak
    speak-Delivered first n text coins a b forth back wa wb room =
        deliver-Delivered p n text coins a b sound can forth back wa wb room
    speak-Delivered second n text coins a b forth back wa wb room =
        let d = deliver-Delivered p n text coins b a sound can back forth wb wa room in
        record {
          arrives = d.arrives;
          forth = d.back;
          back = d.forth;
          speaker = d.listener;
          listener = d.speaker;
        }

    converse_lem :
        (n : ℕ) (us : List Utterance) (a b : State)
        → Link p a b
        → Link p b a
        → Within n a
        → Within n b
        → n + length us < 2 ^ 32
        → converse us a b ≡ map (λ u. ok u.text) us
    unfolding converse
    converse_lem n [] a b forth back wa wb room = refl
    converse_lem n (u ∷ us) a b forth back wa wb room =
        let d = speak-Delivered u.speaker n u.text u.coins a b forth back wa wb (omega arith) in
        ap₂ ◌∷◌ d.arrives
          (converse_lem (suc n) us _ _ d.forth d.back d.speaker d.listener (omega arith))

  IsFresh-initial :
      (root send recv : Bytes) (need : Bool) (coins peer : Bytes)
      → IsFresh (initial_state p root send recv need coins peer)
  unfolding initial_state lookup
  IsFresh-initial root send recv need coins peer = record {
    none_ahead = λ k h. refl;
    in_range = omega arith;
  }

  -- `first` holds the second party's prekey and both long-term keys; `second` gets what it sent.
  abbrev pub opened_by : Setup → InitResult
  opened_by x =
      init_as_sender p (mlkem_keygen p x.prekey_seed).public x.first_key x.second_key x.first_coins

  abbrev pub answered_by : Setup → State
  answered_by x =
      let a = opened_by x in
      init_as_receiver p (mlkem_keygen p x.prekey_seed).private a.prekey_ct x.first_key x.second_key
        a.my_ratchet_pub x.second_coins

  module _ (x : Setup) (sound : IsSound p) where
    roots_agree : (answered_by x).root_key ≡ (opened_by x).state.root_key
    unfolding init_as_sender init_as_receiver initial_state mlkem_keygen
    roots_agree = rw (sound.agrees x.prekey_seed x.first_coins.encaps) refl

    Link-forth : Link p (opened_by x).state (answered_by x)
    unfolding init_as_sender init_as_receiver initial_state
    Link-forth = record {
      epoch = refl;
      number = refl;
      keys = inl (record { idle = refl; chains = ap (send_chain p) (sym roots_agree) });
      fresh = IsFresh-initial _ _ _ _ _ _;
    }

    Link-back : Link p (answered_by x) (opened_by x).state
    unfolding init_as_sender init_as_receiver initial_state
    Link-back = record {
      epoch = refl;
      number = refl;
      keys = inr (record {
        due = refl;
        roots = roots_agree;
        peer = refl;
        seed = x.first_coins.keygen;
        pair = refl;
      });
      fresh = IsFresh-initial _ _ _ _ _ _;
    }

    Within-first : Within 0 (opened_by x).state
    unfolding init_as_sender initial_state
    Within-first = omega arith

    Within-second : Within 0 (answered_by x)
    unfolding init_as_receiver initial_state
    Within-second = omega arith

  -- From the two initial states, in whatever order the two parties speak, each of fewer than 2^32
  -- messages that is delivered before the next is written comes out as it was written.
  pub converse_delivers :
      (x : Setup) (us : List Utterance)
      → IsSound p
      → CanSeal p
      → length us < 2 ^ 32
      → converse us (opened_by x).state (answered_by x) ≡ map (λ u. ok u.text) us
  converse_delivers x us sound can room =
      converse_lem sound can 0 us _ _ (Link-forth x sound) (Link-back x sound)
        (Within-first x sound) (Within-second x sound) (omega arith)
