-- ===== src/AnonRouter/Tft.antt =====
-- anonrouter/src/tft.cpp and tft.hpp: the tit-for-tat credit ledger and its rounds.
-- The order of the ledger's list is the iteration order of the unordered_map. The decay of a credit,
-- `static_cast<int64_t>(credit * factor)` on a double, is the field `decay` of the configuration.
pub mod Sorting
pub mod Ledger
pub mod Rounds
pub mod Optimistic
use Prim.Native.Nat.{Ordering}
use Prim.Native.String.{compare as text_compare}
use scatter_web_project.Common.{
  ℕ, suc, ◌+◌, String, Bool, true, false, ◌&&◌, ◌||◌, not, Option, none, some, List, [], ◌∷◌,
  length, take, Assoc, lookup, assign, string_eq, ◌==◌, if◌then◌else◌,
}
use scatter_web_project.Int.{ℤ, pos, negsuc, ◌+ℤ◌, ◌-ℤ◌, leb_ℤ, ltb_ℤ}

pub record TftConfig : Type 0 where
  pub unchoke_slots : ℕ
  pub max_debt_bytes : ℤ
  pub new_peer_balance : ℤ
  pub opt_unchoke_interval : ℤ
  pub decay : ℤ → ℤ
  pub credit_prune_min_bytes : ℤ

pub record TftEngine : Type 0 where
  pub cfg : TftConfig
  pub ledger : Assoc String ℤ
  pub unchoked : List String
  pub opt_unchoked : String
  pub round_number : ℕ
  pub opt_rounds_left : ℤ

unfoldable pub new_engine : TftConfig → TftEngine
new_engine cfg = record {
  cfg = cfg;
  ledger = [];
  unchoked = [];
  opt_unchoked = "";
  round_number = 0;
  opt_rounds_left = pos 0;
}

unfoldable pub contains : String → List String → Bool
contains x [] = false
contains x (y ∷ ys) = y == x || contains x ys

-- What the ledger holds for a peer, once the peer has been entered.
unfoldable pub balance : String → TftEngine → ℤ
balance peer t = elim (lookup peer t.ledger) [ none ↦ t.cfg.new_peer_balance | some c ↦ c ]

unfoldable pub record_forwarded_for : String → ℤ → TftEngine → TftEngine
record_forwarded_for peer bytes t = record t {
  ledger = assign peer (balance peer t +ℤ bytes) t.ledger;
}

unfoldable pub record_used_from : String → ℤ → TftEngine → TftEngine
record_used_from peer bytes t = record t { ledger = assign peer (balance peer t -ℤ bytes) t.ledger }

unfoldable pub is_unchoked : String → TftEngine → Bool
is_unchoked peer t = contains peer t.unchoked || peer == t.opt_unchoked

unfoldable pub is_choked_permanent : String → TftEngine → Bool
is_choked_permanent peer t = elim (lookup peer t.ledger) [
  | none ↦ false
  | some c ↦ ltb_ℤ t.cfg.max_debt_bytes c
]

unfoldable pub credits : String → TftEngine → ℤ
credits peer t = elim (lookup peer t.ledger) [ none ↦ pos 0 | some c ↦ c ]

-- `operator<` of std::pair<int64_t, std::string>
abbrev text_less : String → String → Bool
text_less s t = elim (text_compare s t) [ Ordering.lt ↦ true | _ ↦ false ]

unfoldable pub less : ℤ × String → ℤ × String → Bool
less a b = ltb_ℤ a.0 b.0 || (not (ltb_ℤ b.0 a.0) && text_less a.1 b.1)

-- std::sort; the pairs are distinct, so every sorting of them is the same list.
unfoldable pub sorted_insert : ℤ × String → List (ℤ × String) → List (ℤ × String)
sorted_insert x [] = x ∷ []
sorted_insert x (y ∷ ys) = if less y x then y ∷ sorted_insert x ys else x ∷ y ∷ ys

unfoldable pub sort : List (ℤ × String) → List (ℤ × String)
sort [] = []
sort (x ∷ xs) = sorted_insert x (sort xs)

-- The peers of the ledger that are not over the ceiling, with their credits.
unfoldable pub candidates : ℤ → Assoc String ℤ → List (ℤ × String)
candidates ceiling [] = []
candidates ceiling ((peer, c) ∷ r) =
    let rest = candidates ceiling r in if leb_ℤ c ceiling then (c, peer) ∷ rest else rest

unfoldable pub peers : List (ℤ × String) → List String
peers [] = []
peers ((c, peer) ∷ r) = peer ∷ peers r

pick_from : List String → String → Assoc String ℤ → String
pick_from unchoked opt [] = ""
pick_from unchoked opt ((peer, c) ∷ r) =
    let rest = pick_from unchoked opt r in
    if not (contains peer unchoked) && not (peer == opt) then peer else rest

unfoldable pub pick_opt_unchoke : TftEngine → String
unfolding pick_from
pick_opt_unchoke t = pick_from t.unchoked t.opt_unchoked t.ledger

-- The first part of `run_round`: the regular slots.
unfoldable pub fill_slots : TftEngine → TftEngine
fill_slots t = record t {
  round_number = t.round_number + 1;
  unchoked = peers (take t.cfg.unchoke_slots (sort (candidates t.cfg.max_debt_bytes t.ledger)));
}

-- The second part: the optimistic slot.
unfoldable pub rotate_optimistic : TftEngine → TftEngine
rotate_optimistic t =
    let left = t.opt_rounds_left -ℤ pos 1 in
    if leb_ℤ left (pos 0)
    then record t {
      opt_unchoked = pick_opt_unchoke t;
      opt_rounds_left = t.cfg.opt_unchoke_interval;
    }
    else record t { opt_rounds_left = left }

unfoldable pub run_round : TftEngine → TftEngine
run_round t = rotate_optimistic (fill_slots t)

-- std::abs
abbrev pub abs_ℤ : ℤ → ℤ
abs_ℤ (pos n) = pos n
abs_ℤ (negsuc n) = pos (suc n)

unfoldable pub decay_loop : TftConfig → Assoc String ℤ → Assoc String ℤ
decay_loop cfg [] = []
decay_loop cfg ((peer, c) ∷ r) =
    let rest = decay_loop cfg r in
    if ltb_ℤ (abs_ℤ (cfg.decay c)) cfg.credit_prune_min_bytes
    then rest
    else (peer, cfg.decay c) ∷ rest

unfoldable pub decay_credits : TftEngine → TftEngine
decay_credits t = record t { ledger = decay_loop t.cfg t.ledger }

pub record TftState : Type 0 where
  pub unchoked_peers : List String
  pub opt_unchoked_peer : String
  pub unchoked_count : ℕ
  pub known_peers_count : ℕ
  pub round_number : ℕ
  pub top_peers : List (ℤ × String)

all_peers : Assoc String ℤ → List (ℤ × String)
all_peers [] = []
all_peers ((peer, c) ∷ r) = (c, peer) ∷ all_peers r

unfoldable pub state : TftEngine → TftState
unfolding all_peers
state t = record {
  unchoked_peers = t.unchoked;
  opt_unchoked_peer = t.opt_unchoked;
  unchoked_count = length t.unchoked;
  known_peers_count = length t.ledger;
  round_number = t.round_number;
  top_peers = take 5 (sort (all_peers t.ledger));
}
