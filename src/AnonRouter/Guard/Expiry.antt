-- ===== src/AnonRouter/Guard/Expiry.antt =====
-- Which entries `evict_expired` of guard.cpp drops.
use scatter_web_project.Common.{
  ◌+◌, ◌≡◌, refl, ◌⊎◌, Bytes, String, Option, none, some, [], ◌∷◌, length, Assoc, lookup, string_eq,
  Unique, if◌then◌else◌, arith,
}
use text.Mathlib.TextEquality.{eq_iff}
use scatter_web_project.Int.{ℤ, pos, ◌+ℤ◌, ◌≤ℤ◌, ◌<ℤ◌, +ℤ_parts, -ℤ_parts}
use scatter_web_project.Hex.{to_hex}
use scatter_web_project.AnonRouter.Guard.{
  GuardEntry, GuardTable, find_guard, is_expired, evict_loop, evict_expired, size,
}

-- What an entry becomes.
abbrev pub unless_expired : ℤ → Option GuardEntry → Option GuardEntry
unless_expired now none = none
unless_expired now (some e) = if is_expired now e then none else some e

lookup-evict_loop :
    (now : ℤ) (k : String) (m : Assoc String GuardEntry)
    → Unique m
    → lookup k (evict_loop now m).0 ≡ unless_expired now (lookup k m)
unfolding evict_loop lookup
lookup-evict_loop now k [] u = refl
lookup-evict_loop now k ((j, e) ∷ m) u =
    ground (arith, lookup-evict_loop now k m u.1, eq_iff j k, u.0)

evict_loop-count :
    (now : ℤ) (m : Assoc String GuardEntry)
    → (evict_loop now m).1 + length (evict_loop now m).0 ≡ length m
unfolding evict_loop
evict_loop-count now [] = refl
evict_loop-count now ((j, e) ∷ m) = ground (arith, evict_loop-count now m)

pub evict_loop-Unique :
    (now : ℤ) (m : Assoc String GuardEntry) → Unique m → Unique (evict_loop now m).0
unfolding evict_loop
evict_loop-Unique now [] u = tt
evict_loop-Unique now ((j, e) ∷ m) u =
    ground (arith, evict_loop-Unique now m u.1, lookup-evict_loop now j m u.1, u.0)

-- The entry has a limit, and the time of its creation and the limit together are past.
abbrev pub IsOver : ℤ → GuardEntry → Type 0
IsOver now e = (pos 0 ≤ℤ e.ttl_s) × (e.created_at_s +ℤ e.ttl_s <ℤ now)

-- The entry has no limit, or its last second is not past.
abbrev pub InForce : ℤ → GuardEntry → Type 0
InForce now e = (e.ttl_s <ℤ pos 0) ⊎ (now ≤ℤ e.created_at_s +ℤ e.ttl_s)

-- What stands under a token before and after an eviction.
abbrev pub Evicted : ℤ → (before after : Option GuardEntry) → Type 0
Evicted now none after = after ≡ none
Evicted now (some e) after = (IsOver now e × (after ≡ none)) ⊎ (InForce now e × (after ≡ some e))

unless_expired-Evicted : (now : ℤ) (o : Option GuardEntry) → Evicted now o (unless_expired now o)
unfolding is_expired
unless_expired-Evicted now none = refl
unless_expired-Evicted now (some e) =
    ground (arith, +ℤ_parts e.created_at_s e.ttl_s, -ℤ_parts now e.created_at_s)

-- In a table with distinct keys, eviction takes exactly the entries that have a limit and were
-- created longer ago than that: every other token's entry stays as it was, an entry without a limit
-- included, and the number that is returned is the number of entries that went.
pub evict_expired_exact :
    (now : ℤ) (g : GuardTable) (tok : Bytes)
    → Unique g.table
    → Evicted now (find_guard tok g) (find_guard tok (evict_expired now g).1)
      × ((evict_expired now g).0 + size (evict_expired now g).1 ≡ size g)
unfolding evict_expired find_guard size
evict_expired_exact now g tok u = (
  rw (lookup-evict_loop now (to_hex tok) g.table u)
      (unless_expired-Evicted now (lookup (to_hex tok) g.table)),
  evict_loop-count now g.table,
)
