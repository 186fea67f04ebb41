-- ===== src/AnonRouter/Tft/Rounds.antt =====
-- Who is unchoked after `run_round` of tft.cpp.
use scatter_web_project.Common.{
  String, Option, none, some, List, take, Unique, string_eq, if◌then◌else◌,
}
use scatter_web_project.Int.{ℤ, leb_ℤ}
use scatter_web_project.AnonRouter.Tft.{TftEngine, sort, candidates}

abbrev within : ℤ → Option ℤ → Option ℤ
within ceiling none = none
within ceiling (some c) = if leb_ℤ c ceiling then some c else none

module _ (t : TftEngine) (u : Unique t.ledger) where
  abbrev ranked : List (ℤ × String)
  ranked = sort (candidates t.cfg.max_debt_bytes t.ledger)

  abbrev slots : List (ℤ × String)
  slots = take t.cfg.unchoke_slots ranked
