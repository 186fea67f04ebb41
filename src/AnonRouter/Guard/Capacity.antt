-- ===== src/AnonRouter/Guard/Capacity.antt =====
-- The table of guard.cpp stays within its slots, through any calls, and a token finds its entry.
use scatter_web_project.Common.{
  ltb, if◌then◌else◌, ℕ, ◌≤◌, ◌≡◌, ◌≢◌, refl, sym, Bytes, Option, none, some, List, [], ◌∷◌, length,
  string_eq, Unique, if◌then◌else◌, arith, AreBytes, assign-Unique, erase-Unique, length-assign-le,
  length-erase-le, length-assign_old, lookup-assign_self, lookup-assign_ne,
}
use scatter_web_project.Int.{ℤ}
use scatter_web_project.Hex.{to_hex, to_hex-injective}
use scatter_web_project.AnonRouter.Guard.{
  GuardEntry, GuardTable, new_table, add, remove, find_guard, credit, add_forwarded, evict_expired,
  size,
}
use scatter_web_project.AnonRouter.Guard.Expiry.{evict_loop-Unique, evict_expired_exact}

pub data Call : Type 0 where
  adds : GuardEntry → Call
  removes : Bytes → Call
  forwards : Bytes → ℤ → Call
  evicts : ℤ → Call

unfoldable pub call : Call → GuardTable → GuardTable
call (adds e) g = (add e g).1
call (removes tok) g = remove tok g
call (forwards tok n) g = add_forwarded tok n g
call (evicts now) g = (evict_expired now g).1

unfoldable pub calls : List Call → GuardTable → GuardTable
calls [] g = g
calls (c ∷ cs) g = calls cs (call c g)

pub record IsValid (slots : ℕ) (g : GuardTable) : Type 0 where
  pub limit : g.max_slots ≡ slots
  pub within : size g ≤ slots
  pub distinct : Unique g.table

credit-IsValid :
    (slots : ℕ) (tok : Bytes) (n : ℤ) (g : GuardTable) (o : Option GuardEntry)
    → find_guard tok g ≡ o
    → IsValid slots g
    → IsValid slots (credit tok n g o)
unfolding credit find_guard size
credit-IsValid slots tok n g none h v = v
credit-IsValid slots tok n g (some e) h v = record {
  limit = v.limit;
  within = omega (arith, length-assign_old (to_hex tok) _ e g.table h, v.within);
  distinct = assign-Unique (to_hex tok) _ g.table v.distinct;
}

call-IsValid : (slots : ℕ) (c : Call) (g : GuardTable) → IsValid slots g → IsValid slots (call c g)
unfolding call add remove add_forwarded credit evict_expired size
call-IsValid slots (adds e) g v = ground (
  arith,
  length-assign-le (to_hex e.session_tok) e g.table,
  assign-Unique (to_hex e.session_tok) e g.table v.distinct,
)
call-IsValid slots (removes tok) g v = record {
  limit = v.limit;
  within = omega (arith, length-erase-le (to_hex tok) g.table, v.within);
  distinct = erase-Unique (to_hex tok) g.table v.distinct;
}
call-IsValid slots (forwards tok n) g v = credit-IsValid slots tok n g (find_guard tok g) refl v
call-IsValid slots (evicts now) g v = record {
  limit = v.limit;
  within = omega (arith, (evict_expired_exact now g [] v.distinct).1, v.within);
  distinct = evict_loop-Unique now g.table v.distinct;
}

calls-IsValid :
    (slots : ℕ) (cs : List Call) (g : GuardTable) → IsValid slots g → IsValid slots (calls cs g)
unfolding calls
calls-IsValid slots [] g v = v
calls-IsValid slots (c ∷ cs) g v = calls-IsValid slots cs (call c g) (call-IsValid slots c g v)

-- From an empty table, after any calls, at most `slots` tokens are registered, each once.
pub calls-new_table : (slots : ℕ) (cs : List Call) → IsValid slots (calls cs (new_table slots))
unfolding new_table size
calls-new_table slots cs =
    calls-IsValid slots cs _ (record { limit = refl; within = omega arith; distinct = tt })

-- `add` accepts exactly when fewer tokens than slots are registered, so it also refuses to refresh a
-- token in a full table. What it accepts is found under its token, what it refuses changes nothing
-- there, and every other token of the same length finds what it found before.
pub add_exact :
    (e : GuardEntry) (g : GuardTable)
    → AreBytes e.session_tok
    → ((add e g).0 ≡ ltb (size g) g.max_slots)
      × (find_guard e.session_tok (add e g).1
          ≡ (if ltb (size g) g.max_slots then some e else find_guard e.session_tok g))
      × ((tok : Bytes)
          → AreBytes tok
          → length tok ≡ length e.session_tok
          → tok ≢ e.session_tok
          → find_guard tok (add e g).1 ≡ find_guard tok g)
unfolding add find_guard size
add_exact e g bytes = (
  ground arith,
  ground (arith, lookup-assign_self (to_hex e.session_tok) e g.table),
  λ tok b same differ. ground (
    arith,
    lookup-assign_ne (to_hex e.session_tok) (to_hex tok) e g.table
        (λ q. differ (to_hex-injective tok e.session_tok b bytes same (sym q))),
  ),
)
