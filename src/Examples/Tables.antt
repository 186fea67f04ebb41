-- ===== src/Examples/Tables.antt =====
-- The theorems on guard.cpp and tft.cpp at concrete tables.
use scatter_web_project.Common.{
  ℕ, ◌+◌, ◌≡◌, ◌≢◌, refl, Bytes, String, true, some, [], ◌∷◌, length, replicate, AreBytes, lookup,
  Unique, string_eq, ◌==◌, arith, if◌then◌else◌, ltb, false≢true, sym, ap,
}
use scatter_web_project.Int.{ℤ, pos, negsuc, ◌+ℤ◌, ◌-ℤ◌}
use scatter_web_project.Hex.{to_hex}
use scatter_web_project.AnonRouter.Guard.{
  GuardEntry, outbound, GuardTable, new_table, add, find_guard, evict_expired, size,
}
use scatter_web_project.AnonRouter.Guard.Capacity.{
  adds, forwards, evicts, calls, IsValid, calls-new_table, add_exact,
}
use scatter_web_project.AnonRouter.Guard.Expiry.{Evicted, evict_expired_exact}
use scatter_web_project.AnonRouter.Tft.{
  TftConfig, TftEngine, new_engine, balance, run_round, is_unchoked, is_choked_permanent,
}
use scatter_web_project.AnonRouter.Tft.Ledger.{
  forwarded, used, record_transfers, total_forwarded, total_used, balance-transfers,
}
use scatter_web_project.AnonRouter.Tft.Optimistic.{optimistic_over_ceiling}

abbrev a_guard : ℕ → ℤ → GuardEntry
a_guard n ttl = record {
  session_tok = replicate 32 n;
  forward_addr = "10.0.0.2:9000";
  recruiter_node_id = "";
  guard_type = outbound;
  bytes_fwd = pos 0;
  created_at_s = pos 1000;
  ttl_s = ttl;
}

calls-new_table_example : IsValid 1 (
    calls
      (adds (a_guard 1 (pos 60))
        ∷ adds (a_guard 2 (pos 60))
        ∷ forwards (replicate 32 1) (pos 557)
        ∷ evicts (pos 2000)
        ∷ [])
      (new_table 1))
calls-new_table_example = calls-new_table 1 (
    adds (a_guard 1 (pos 60))
    ∷ adds (a_guard 2 (pos 60))
    ∷ forwards (replicate 32 1) (pos 557)
    ∷ evicts (pos 2000)
    ∷ [])

abbrev two_guards : GuardTable
two_guards = record {
  max_slots = 2;
  table =
      (to_hex (replicate 32 1), a_guard 1 (pos 60))
      ∷ (to_hex (replicate 32 2), a_guard 2 (negsuc 0))
      ∷ [];
}

two_guards-Unique : Unique two_guards.table
unfolding to_hex lookup
two_guards-Unique = (refl, (refl, tt))

a_token-AreBytes : AreBytes (replicate 32 3)
a_token-AreBytes = ground arith

add_exact_example :
    ((add (a_guard 3 (pos 60)) two_guards).0 ≡ ltb (size two_guards) 2)
    × (find_guard (replicate 32 3) (add (a_guard 3 (pos 60)) two_guards).1 ≡ (
        if ltb (size two_guards) 2
        then some (a_guard 3 (pos 60))
        else find_guard (replicate 32 3) two_guards))
    × ((tok : Bytes)
        → AreBytes tok
        → length tok ≡ 32
        → tok ≢ replicate 32 3
        → find_guard tok (add (a_guard 3 (pos 60)) two_guards).1 ≡ find_guard tok two_guards)
add_exact_example = add_exact (a_guard 3 (pos 60)) two_guards a_token-AreBytes

evict_expired_exact_example :
    Evicted
      (pos 2000)
      (find_guard (replicate 32 1) two_guards)
      (find_guard (replicate 32 1) (evict_expired (pos 2000) two_guards).1)
    × ((evict_expired (pos 2000) two_guards).0 + size (evict_expired (pos 2000) two_guards).1
        ≡ size two_guards)
evict_expired_exact_example =
    evict_expired_exact (pos 2000) two_guards (replicate 32 1) two_guards-Unique

abbrev a_config : TftConfig
a_config = record {
  unchoke_slots = 2;
  max_debt_bytes = pos 1000;
  new_peer_balance = pos 100;
  opt_unchoke_interval = pos 3;
  decay = λ c. c;
  credit_prune_min_bytes = pos 10;
}

balance-transfers_example :
    balance "a"
      (record_transfers (forwarded "a" 50 ∷ used "b" 7 ∷ used "a" 20 ∷ []) (new_engine a_config))
    ≡ balance "a" (new_engine a_config)
      +ℤ pos (total_forwarded "a" (forwarded "a" 50 ∷ used "b" 7 ∷ used "a" 20 ∷ []))
      -ℤ pos (total_used "a" (forwarded "a" 50 ∷ used "b" 7 ∷ used "a" 20 ∷ []))
balance-transfers_example =
    balance-transfers "a" (forwarded "a" 50 ∷ used "b" 7 ∷ used "a" 20 ∷ []) (new_engine a_config)

abbrev an_engine : TftEngine
an_engine = record (new_engine a_config) {
  ledger = ("a", pos 5) ∷ ("b", pos 700) ∷ ("c", pos 4000) ∷ ("d", pos 20) ∷ [];
}

c-ne : ◌≢◌ {A = String} "c" ""
c-ne e = false≢true (ap (λ (s : String). s == "c") (sym e))

abbrev all_over : TftEngine
all_over = record (new_engine a_config) { ledger = ("c", pos 4000) ∷ [] }

optimistic_over_ceiling_example :
    (is_unchoked "c" (run_round all_over) ≡ true)
    × (is_choked_permanent "c" (run_round all_over) ≡ true)
unfolding new_engine
optimistic_over_ceiling_example =
    optimistic_over_ceiling all_over "c" (pos 4000) [] refl (omega arith, tt) c-ne (omega arith)
