-- ===== src/AnonRouter/Tft/Optimistic.antt =====
-- The optimistic slot of tft.cpp.
use scatter_web_project.Common.{
  ℕ, zero, suc, beq_refl, beq-eq-false, lt→ltb, ◌≡◌, ◌≢◌, refl, String, true, false, none, some, [],
  ◌∷◌, take, Assoc, lookup, string_eq, arith,
}
use scatter_web_project.Int.{ℤ, pos, ◌-ℤ◌, ◌≤ℤ◌, ◌<ℤ◌, leb_ℤ, ltb_ℤ}
use scatter_web_project.AnonRouter.Tft.{
  TftEngine, contains, sort, candidates, peers, pick_from, pick_opt_unchoke, fill_slots,
  rotate_optimistic, run_round, is_unchoked, is_choked_permanent,
}

-- Every credit is over the ceiling.
abbrev pub AllOver : ℤ → Assoc String ℤ → Type 0
AllOver ceiling [] = Unit
AllOver ceiling ((x, c) ∷ m) = (ceiling <ℤ c) × AllOver ceiling m

candidates-AllOver :
    (ceiling : ℤ) (m : Assoc String ℤ) → AllOver ceiling m → candidates ceiling m ≡ []
unfolding candidates
candidates-AllOver ceiling [] h = refl
candidates-AllOver ceiling ((x, c) ∷ m) h = ground (arith, candidates-AllOver ceiling m h.1)

no_slots : (n : ℕ) → peers (take n (sort [])) ≡ []
unfolding peers sort
no_slots zero = refl
no_slots (suc n) = refl

due_now : (left : ℤ) → left ≤ℤ pos 1 → leb_ℤ (left -ℤ pos 1) (pos 0) ≡ true
unfolding ◌-ℤ◌
due_now left h = ground arith

first_picked :
    (x opt : String) (c : ℤ) (m : Assoc String ℤ) → x ≢ opt → pick_from [] opt ((x, c) ∷ m) ≡ x
unfolding pick_from contains
first_picked x opt c m h = rw (beq-eq-false x opt h) refl

slot_given :
    (t : TftEngine) (x : String) (c : ℤ) (m : Assoc String ℤ)
    → t.ledger ≡ (x, c) ∷ m
    → AllOver t.cfg.max_debt_bytes t.ledger
    → x ≢ t.opt_unchoked
    → t.opt_rounds_left ≤ℤ pos 1
    → (run_round t).opt_unchoked ≡ x
unfolding run_round rotate_optimistic fill_slots pick_opt_unchoke
slot_given t x c m e over differ due =
    rw
      (
        due_now t.opt_rounds_left due,
        candidates-AllOver t.cfg.max_debt_bytes t.ledger over,
        no_slots t.cfg.unchoke_slots,
        e,
      )
      (first_picked x t.opt_unchoked c m differ)

ledger-run_round : (t : TftEngine) → (run_round t).ledger ≡ t.ledger
unfolding run_round rotate_optimistic fill_slots
ledger-run_round t = ground arith

cfg-run_round : (t : TftEngine) → (run_round t).cfg ≡ t.cfg
unfolding run_round rotate_optimistic fill_slots
cfg-run_round t = ground arith

over_first :
    (ceiling : ℤ) (x : String) (c : ℤ) (m : Assoc String ℤ)
    → AllOver ceiling ((x, c) ∷ m)
    → (elim (lookup x ((x, c) ∷ m)) [ none ↦ false | some d ↦ ltb_ℤ ceiling d ]) ≡ true
unfolding lookup
over_first ceiling x c m h = rw (beq_refl x) (lt→ltb _ _ h.0)

-- When every known peer is over the ceiling and the optimistic slot is due, the first peer of the
-- ledger, unless it holds the slot already, gets it: it is unchoked, though it is permanently choked.
pub optimistic_over_ceiling :
    (t : TftEngine) (x : String) (c : ℤ) (m : Assoc String ℤ)
    → t.ledger ≡ (x, c) ∷ m
    → AllOver t.cfg.max_debt_bytes t.ledger
    → x ≢ t.opt_unchoked
    → t.opt_rounds_left ≤ℤ pos 1
    → (is_unchoked x (run_round t) ≡ true) × (is_choked_permanent x (run_round t) ≡ true)
unfolding is_unchoked is_choked_permanent lookup
optimistic_over_ceiling t x c m e over differ due = (
  ground (arith, slot_given t x c m e over differ due, beq_refl x),
  rw (ledger-run_round t, cfg-run_round t, e)
      (over_first t.cfg.max_debt_bytes x c m (rw e at over)),
)
