-- ===== src/AnonRouter/Guard.antt =====
-- anonrouter/src/guard.cpp and guard.hpp: the table of the peers that this node relays for.
-- Each call of the source runs under the table's mutex, so a call is one step.
pub mod Capacity
pub mod Expiry
use scatter_web_project.Common.{
  ℕ, suc, Bytes, String, Bool, true, false, ◌&&◌, Option, none, some, List, [], ◌∷◌, map, length,
  Assoc, lookup, assign, erase, string_eq, ltb, leb, if◌then◌else◌,
}
use scatter_web_project.Int.{ℤ, pos, ◌+ℤ◌, ◌-ℤ◌, leb_ℤ, ltb_ℤ}
use scatter_web_project.Hex.{to_hex}

pub data GuardType : Type 0 where
  inbound_public inbound_private outbound rendezvous : GuardType

pub record GuardEntry : Type 0 where
  pub session_tok : Bytes
  pub forward_addr : String
  pub recruiter_node_id : String
  pub guard_type : GuardType
  pub bytes_fwd : ℤ
  pub created_at_s : ℤ
  -- Seconds, or negative for no limit.
  pub ttl_s : ℤ

pub record GuardTable : Type 0 where
  pub max_slots : ℕ
  pub table : Assoc String GuardEntry

unfoldable pub new_table : ℕ → GuardTable
new_table max_slots = record { max_slots = max_slots; table = [] }

unfoldable pub add : GuardEntry → GuardTable → Bool × GuardTable
add entry g =
    if leb g.max_slots (length g.table)
    then (false, g)
    else (true, record g { table = assign (to_hex entry.session_tok) entry g.table })

unfoldable pub remove : Bytes → GuardTable → GuardTable
remove tok g = record g { table = erase (to_hex tok) g.table }

unfoldable pub find_guard : Bytes → GuardTable → Option GuardEntry
find_guard tok g = lookup (to_hex tok) g.table

credit : Bytes → ℤ → GuardTable → Option GuardEntry → GuardTable
credit tok n g none = g
credit tok n g (some e) = record g {
  table = assign (to_hex tok) (record e { bytes_fwd = e.bytes_fwd +ℤ n }) g.table;
}

unfoldable pub add_forwarded : Bytes → ℤ → GuardTable → GuardTable
unfolding credit
add_forwarded tok n g = credit tok n g (find_guard tok g)

unfoldable pub is_expired : ℤ → GuardEntry → Bool
is_expired now_s e = leb_ℤ (pos 0) e.ttl_s && ltb_ℤ e.ttl_s (now_s -ℤ e.created_at_s)

-- The loop of `evict_expired`: the entries that stay, and how many went.
unfoldable pub evict_loop : ℤ → Assoc String GuardEntry → Assoc String GuardEntry × ℕ
evict_loop now_s [] = ([], 0)
evict_loop now_s ((k, e) ∷ r) =
    let (kept, removed) = evict_loop now_s r in
    if is_expired now_s e then (kept, suc removed) else ((k, e) ∷ kept, removed)

unfoldable pub evict_expired : ℤ → GuardTable → ℕ × GuardTable
evict_expired now_s g =
    let (kept, removed) = evict_loop now_s g.table in (removed, record g { table = kept })

unfoldable pub size : GuardTable → ℕ
size g = length g.table

values : Assoc String GuardEntry → List GuardEntry
values [] = []
values ((k, e) ∷ r) = e ∷ values r

unfoldable pub snapshot : GuardTable → List GuardEntry
unfolding values
snapshot g = values g.table
