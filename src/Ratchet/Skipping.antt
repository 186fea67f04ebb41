-- ===== src/Ratchet/Skipping.antt =====
-- `advance_recv_chain` of ratchet.cpp: which keys are cached when messages are overtaken.
use scatter_web_project.Common.{
  ℕ, zero, suc, ◌+◌, ◌^◌, ◌≤◌, ◌<◌, ◌≡◌, refl, ◌∙◌, Bytes, some, ok, err, length, lookup, nat_eq,
  arith, length-assign_new, lookup-assign, lookup-assign_self, lookup-assign_ne, ◌%◌,
}
use scatter_web_project.Crypto.{Provider}
use scatter_web_project.Ratchet.Steps.{IsFresh}
use scatter_web_project.Ratchet.{
  State, inc32, skip_key, message_key, next_chain_key, skip_one, skip_until, max_skipped_keys,
}

module _ (p : Provider) where
  -- The chain key after some messages.
  pub chain_after : ℕ → Bytes → Bytes
  chain_after zero chain = chain
  chain_after (suc n) chain = chain_after n (next_chain_key p chain)

  pub chain_after-zero : (chain : Bytes) → chain ≡ chain_after zero chain
  unfolding chain_after
  chain_after-zero chain = refl

  pub chain_after-suc :
      (n : ℕ) (chain : Bytes) → chain_after (suc n) chain ≡ chain_after n (next_chain_key p chain)
  unfolding chain_after
  chain_after-suc n chain = refl

  pub chain_after-next :
      (n : ℕ) (chain : Bytes)
      → chain_after n (next_chain_key p chain) ≡ next_chain_key p (chain_after n chain)
  unfolding chain_after
  chain_after-next zero chain = refl
  chain_after-next (suc n) chain = chain_after-next n (next_chain_key p chain)

  -- The state after the keys of some messages are put aside.
  pub skipped_by : ℕ → State → State
  skipped_by zero s = s
  skipped_by (suc gap) s = skipped_by gap (skip_one p s.recv_epoch s)

  skip_one-IsFresh :
      (s : State) → IsFresh s → s.recv_msg_num + 1 < 2 ^ 32 → IsFresh (skip_one p s.recv_epoch s)
  unfolding skip_one inc32 skip_key
  skip_one-IsFresh s fresh room = record {
    none_ahead = λ k h. ground (
      arith,
      fresh.none_ahead k,
      lookup-assign (skip_key s.recv_epoch s.recv_msg_num) k (message_key p s.recv_chain_key)
          s.skipped_keys,
    );
    in_range = omega arith;
  }

  recv_msg_num-skip_one :
      (s : State)
      → s.recv_msg_num + 1 < 2 ^ 32
      → (skip_one p s.recv_epoch s).recv_msg_num ≡ s.recv_msg_num + 1
  unfolding skip_one inc32
  recv_msg_num-skip_one s room = omega arith

  length-skip_one :
      (s : State)
      → IsFresh s
      → length (skip_one p s.recv_epoch s).skipped_keys ≡ suc (length s.skipped_keys)
  unfolding skip_one
  length-skip_one s fresh = length-assign_new _ _ s.skipped_keys (fresh.none_ahead _ (omega arith))

  recv_epoch-skip_one : (e : ℕ) (s : State) → (skip_one p e s).recv_epoch ≡ s.recv_epoch
  unfolding skip_one
  recv_epoch-skip_one e s = refl

  -- With room in the cache the loop puts every overtaken key aside.
  pub catch_up :
      (gap : ℕ) (s : State)
      → IsFresh s
      → s.recv_msg_num + gap < 2 ^ 32
      → length s.skipped_keys + gap ≤ max_skipped_keys
      → skip_until p gap s.recv_epoch (s.recv_msg_num + gap) s ≡ (ok tt, skipped_by gap s)
  unfolding skip_until skipped_by
  catch_up zero s fresh room space = refl
  catch_up (suc gap) s fresh room space =
      let t = skip_one p s.recv_epoch s in
      let same : t.recv_epoch ≡ s.recv_epoch = recv_epoch-skip_one s.recv_epoch s in
      let num = recv_msg_num-skip_one s (omega arith) in
      let longer = length-skip_one s fresh in
      let goal : s.recv_msg_num + suc gap ≡ t.recv_msg_num + gap = omega (arith, num) in
      ground (
        arith,
        same,
        goal,
        catch_up gap t (skip_one-IsFresh s fresh (omega arith)) (omega (arith, num))
            (omega (arith, longer)),
      )

  -- Without room the loop throws.
  pub overflow :
      (gap : ℕ) (s : State)
      → IsFresh s
      → s.recv_msg_num + gap < 2 ^ 32
      → length s.skipped_keys ≤ max_skipped_keys
      → max_skipped_keys < length s.skipped_keys + gap
      → (skip_until p gap s.recv_epoch (s.recv_msg_num + gap) s).0 ≡ err "Too many skipped messages"
  unfolding skip_until
  overflow zero s fresh room fits full = absurd (omega arith)
  overflow (suc gap) s fresh room fits full =
      let t = skip_one p s.recv_epoch s in
      let same : t.recv_epoch ≡ s.recv_epoch = recv_epoch-skip_one s.recv_epoch s in
      let num = recv_msg_num-skip_one s (omega arith) in
      let longer = length-skip_one s fresh in
      let goal : s.recv_msg_num + suc gap ≡ t.recv_msg_num + gap = omega (arith, num) in
      ground (
        arith,
        same,
        goal,
        longer,
        overflow gap t (skip_one-IsFresh s fresh (omega arith)) (omega (arith, num)),
      )

  -- What the loop leaves: every overtaken key at its place, everything older untouched.
  pub record Skipped (gap : ℕ) (s t : State) : Type 0 where
    pub chain : t.recv_chain_key ≡ chain_after gap s.recv_chain_key
    pub number : t.recv_msg_num ≡ s.recv_msg_num + gap
    pub epoch : t.recv_epoch ≡ s.recv_epoch
    pub fresh : IsFresh t
    pub cached :
        (i : ℕ)
        → i < gap
        → lookup (skip_key s.recv_epoch (s.recv_msg_num + i)) t.skipped_keys
          ≡ some (message_key p (chain_after i s.recv_chain_key))
    pub older :
        (k : ℕ)
        → k < skip_key s.recv_epoch s.recv_msg_num
        → lookup k t.skipped_keys ≡ lookup k s.skipped_keys

  first_cached :
      (gap : ℕ) (s t : State)
      → s.recv_msg_num + 1 < 2 ^ 32
      → Skipped gap (skip_one p s.recv_epoch s) t
      → lookup (skip_key s.recv_epoch s.recv_msg_num) t.skipped_keys
        ≡ some (message_key p s.recv_chain_key)
  unfolding skip_one inc32 skip_key
  first_cached gap s t room rest =
      rest.older (skip_key s.recv_epoch s.recv_msg_num) (omega arith)
      ∙ lookup-assign_self (skip_key s.recv_epoch s.recv_msg_num) (message_key p s.recv_chain_key)
          s.skipped_keys

  later_cached :
      (gap i : ℕ) (s t : State)
      → s.recv_msg_num + 1 < 2 ^ 32
      → i < gap
      → Skipped gap (skip_one p s.recv_epoch s) t
      → lookup (skip_key s.recv_epoch (s.recv_msg_num + suc i)) t.skipped_keys
        ≡ some (message_key p (chain_after i (next_chain_key p s.recv_chain_key)))
  unfolding skip_one inc32
  later_cached gap i s t room h rest =
      let place : (s.recv_msg_num + 1) % 2 ^ 32 + i ≡ s.recv_msg_num + suc i = omega arith in
      rw (← place) (rest.cached i h)

  older_kept :
      (gap k : ℕ) (s t : State)
      → s.recv_msg_num + 1 < 2 ^ 32
      → k < skip_key s.recv_epoch s.recv_msg_num
      → Skipped gap (skip_one p s.recv_epoch s) t
      → lookup k t.skipped_keys ≡ lookup k s.skipped_keys
  unfolding skip_one inc32 skip_key
  older_kept gap k s t room h rest =
      rest.older k (omega arith)
      ∙ lookup-assign_ne (skip_key s.recv_epoch s.recv_msg_num) k (message_key p s.recv_chain_key)
          s.skipped_keys (omega arith)

  cached_at :
      (gap : ℕ) (s t : State)
      → s.recv_msg_num + 1 < 2 ^ 32
      → Skipped gap (skip_one p s.recv_epoch s) t
      → (i : ℕ) → i < suc gap
      → lookup (skip_key s.recv_epoch (s.recv_msg_num + i)) t.skipped_keys
        ≡ some (message_key p (chain_after i s.recv_chain_key))
  unfolding chain_after
  cached_at gap s t room rest zero h =
      let place : s.recv_msg_num + 0 ≡ s.recv_msg_num = omega arith in
      rw place (first_cached gap s t room rest)
  cached_at gap s t room rest (suc i) h = later_cached gap i s t room (omega arith) rest

  pub skipped_by-Skipped :
      (gap : ℕ) (s : State)
      → IsFresh s
      → s.recv_msg_num + gap < 2 ^ 32
      → Skipped gap s (skipped_by gap s)
  unfolding skipped_by
  skipped_by-Skipped zero s fresh room = record {
    chain = unfold chain_after in refl;
    number = omega arith;
    epoch = refl;
    fresh = fresh;
    cached = λ i h. elim h [ ];
    older = λ k h. refl;
  }
  skipped_by-Skipped (suc gap) s fresh room =
      let t = skip_one p s.recv_epoch s in
      let num = recv_msg_num-skip_one s (omega arith) in
      let rest =
        skipped_by-Skipped gap t (skip_one-IsFresh s fresh (omega arith)) (omega (arith, num)) in
      record {
        chain = rest.chain ∙ unfold chain_after skip_one in refl;
        number = omega (arith, rest.number, num);
        epoch = rest.epoch ∙ recv_epoch-skip_one s.recv_epoch s;
        fresh = rest.fresh;
        cached = cached_at gap s _ (omega arith) rest;
        older = λ k h. older_kept gap k s _ (omega arith) h rest;
      }
