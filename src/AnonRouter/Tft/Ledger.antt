-- ===== src/AnonRouter/Tft/Ledger.antt =====
-- The credits that tft.cpp keeps, through any transfers, and their decay.
use text.Mathlib.TextEquality.{eq_iff}
use scatter_web_project.Common.{
  ℕ, ◌+◌, ◌≡◌, refl, String, Option, none, some, List, [], ◌∷◌, Assoc, lookup, string_eq, Unique,
  ◌==◌, if◌then◌else◌, arith, lookup-assign,
}
use scatter_web_project.Int.{
  ℤ, pos, pos_part, neg_part, ◌+ℤ◌, ◌-ℤ◌, ltb_ℤ, +ℤ_parts, -ℤ_parts, ℤ_eq_of_parts,
}
use scatter_web_project.AnonRouter.Tft.{
  TftConfig, TftEngine, balance, record_forwarded_for, record_used_from, abs_ℤ, decay_loop,
  decay_credits,
}

-- Bytes that this node forwarded for a peer, or had forwarded by it.
pub data Transfer : Type 0 where
  forwarded used : String → ℕ → Transfer

unfoldable pub record_transfer : Transfer → TftEngine → TftEngine
record_transfer (forwarded peer n) t = record_forwarded_for peer (pos n) t
record_transfer (used peer n) t = record_used_from peer (pos n) t

unfoldable pub record_transfers : List Transfer → TftEngine → TftEngine
record_transfers [] t = t
record_transfers (x ∷ xs) t = record_transfers xs (record_transfer x t)

-- The bytes forwarded for one peer.
unfoldable pub total_forwarded : String → List Transfer → ℕ
total_forwarded who [] = 0
total_forwarded who (forwarded peer n ∷ xs) =
    (if peer == who then n else 0) + total_forwarded who xs
total_forwarded who (used peer n ∷ xs) = total_forwarded who xs

-- The bytes that one peer forwarded.
unfoldable pub total_used : String → List Transfer → ℕ
total_used who [] = 0
total_used who (forwarded peer n ∷ xs) = total_used who xs
total_used who (used peer n ∷ xs) = (if peer == who then n else 0) + total_used who xs

balance-forwarded :
    (who peer : String) (n : ℕ) (t : TftEngine)
    → balance who (record_forwarded_for peer (pos n) t)
      ≡ (if peer == who then balance who t +ℤ pos n else balance who t)
unfolding balance record_forwarded_for
balance-forwarded who peer n t =
    ground (arith, lookup-assign peer who (balance peer t +ℤ pos n) t.ledger, eq_iff peer who)

balance-used :
    (who peer : String) (n : ℕ) (t : TftEngine)
    → balance who (record_used_from peer (pos n) t)
      ≡ (if peer == who then balance who t -ℤ pos n else balance who t)
unfolding balance record_used_from
balance-used who peer n t =
    ground (arith, lookup-assign peer who (balance peer t -ℤ pos n) t.ledger, eq_iff peer who)

balance_parts :
    (who : String) (xs : List Transfer) (t : TftEngine)
    → let b = balance who t in
      let c = balance who (record_transfers xs t) in
      pos_part c + neg_part b + total_used who xs ≡ neg_part c + pos_part b + total_forwarded who xs
unfolding record_transfers total_used total_forwarded record_transfer
balance_parts who [] t = omega arith
balance_parts who (forwarded peer n ∷ xs) t = ground (
  arith,
  balance_parts who xs (record_forwarded_for peer (pos n) t),
  balance-forwarded who peer n t,
  +ℤ_parts (balance who t) (pos n),
)
balance_parts who (used peer n ∷ xs) t = ground (
  arith,
  balance_parts who xs (record_used_from peer (pos n) t),
  balance-used who peer n t,
  -ℤ_parts (balance who t) (pos n),
)

-- Through any transfers, in any order and with any peers, a peer's balance is what it was, or the
-- balance of a new peer, plus what was forwarded for it, minus what it forwarded.
pub balance-transfers :
    (who : String) (xs : List Transfer) (t : TftEngine)
    → balance who (record_transfers xs t)
      ≡ balance who t +ℤ pos (total_forwarded who xs) -ℤ pos (total_used who xs)
balance-transfers who xs t =
    let b = balance who t in
    ℤ_eq_of_parts _ _ (
      omega (
        arith,
        balance_parts who xs t,
        +ℤ_parts b (pos (total_forwarded who xs)),
        -ℤ_parts (b +ℤ pos (total_forwarded who xs)) (pos (total_used who xs)),
      ))

abbrev pub decayed : TftConfig → Option ℤ → Option ℤ
decayed cfg none = none
decayed cfg (some c) =
    if ltb_ℤ (abs_ℤ (cfg.decay c)) cfg.credit_prune_min_bytes then none else some (cfg.decay c)

lookup-decay_loop :
    (cfg : TftConfig) (x : String) (m : Assoc String ℤ)
    → Unique m
    → lookup x (decay_loop cfg m) ≡ decayed cfg (lookup x m)
unfolding decay_loop lookup
lookup-decay_loop cfg x [] u = refl
lookup-decay_loop cfg x ((y, c) ∷ m) u =
    ground (arith, lookup-decay_loop cfg x m u.1, eq_iff y x, u.0)

-- Decay scales every credit, and forgets exactly the peers whose scaled credit is below the
-- threshold in absolute value.
pub decay_credits_exact :
    (t : TftEngine) (x : String)
    → Unique t.ledger
    → lookup x (decay_credits t).ledger ≡ decayed t.cfg (lookup x t.ledger)
unfolding decay_credits
decay_credits_exact t x u = lookup-decay_loop t.cfg x t.ledger u
