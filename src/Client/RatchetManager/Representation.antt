-- ===== src/Client/RatchetManager/Representation.antt =====
-- How the cache and the table key_e_ratchet of ratchet_manager.cpp represent the abstract world, and
-- what writing them does to it.
use scatter_web_project.Common.{
  ◌≡◌, refl, sym, ap, ◌∙◌, inl, inr, Bytes, String, Bool, true, false, none, some, [], ◌∷◌, ok, err,
  lookup, lookup-assign, string_eq, ◌==◌, if◌then◌else◌, Bool-cases,
}
use scatter_web_project.Crypto.{Provider}
use scatter_web_project.Cbor.{Libcbor, IsDefinite, c_str}
use scatter_web_project.Ratchet.{State}
use scatter_web_project.Ratchet.Storage.{
  serialize, deserialize, deserialize-nil, deserialize-serialize,
}
use scatter_web_project.Client.RatchetManager.{
  Manager, get_ratchet_state, set_ratchet_state, stored_blob, set_cached, persist,
}
use scatter_web_project.Client.RatchetManager.Specification.{
  Kept, World, with_kept, forgetful, stored_now, read_blob, IsStorable,
}

part :
    {A B : Type 0} (b : Bool) (f : A → B) (x y : A)
    → f (if b then x else y) ≡ (if b then f x else f y)
part true f x y = refl
part false f x y = refl

-- What is there at `id` already is written there.
written_same :
    {A : Type 0} (g : String → A) (x : A) (id j : String)
    → g id ≡ x
    → g j ≡ (if id == j then x else g j)
written_same g x id j here = elim (Bool-cases (id == j)) [
  | inl this ↦ rw this (sym (ap g ((string_eq.same_iff id j).0 this)) ∙ here)
  | inr other ↦ rw other refl
]

pub written_twice :
    (id : String) (k first : Kept) (w : World)
    → with_kept id k (with_kept id first w) ≡ with_kept id k w
written_twice id k first w = λ i j. once (id == j) k first (w j) i
  where
    once :
        (b : Bool) (x y z : Kept) → (if b then x else (if b then y else z)) ≡ (if b then x else z)
    once true x y z = refl
    once false x y z = refl

module _ (lib : Libcbor) where
  -- The cache holds the running ratchets, and the table what a new start finds.
  pub record Represents (m : Manager) (w : World) : Type 0 where
    pub running : (id : String) → lookup id m.cache ≡ (w id).running
    pub saved :
        (id : String) → c_str id ≡ id → read_blob lib (get_ratchet_state m id) ≡ (w id).saved

module _ (p : Provider) (lib : Libcbor) (definite : IsDefinite lib)
    (no_bytes : lib.load [] ≡ none) where
  get-set_cached :
      (id j : String) (st : State) (m : Manager)
      → get_ratchet_state (set_cached id st m) j ≡ get_ratchet_state m j
  unfolding get_ratchet_state set_cached
  get-set_cached id j st m = refl

  cache-set_cached :
      (id : String) (st : State) (m : Manager) (j : String)
      → lookup j (set_cached id st m).cache ≡ (if id == j then some st else lookup j m.cache)
  unfolding set_cached
  cache-set_cached id st m j = lookup-assign id j st m.cache

  cache-persist :
      (id : String) (st : State) (m : Manager) (j : String)
      → lookup j (persist p lib id st m).cache ≡ lookup j m.cache
  unfolding persist set_ratchet_state
  cache-persist id st m j = refl

  -- A blob that loads is not empty, so `set_ratchet_state` writes it.
  get-set :
      (id j : String) (blob : Bytes) (st : State) (m : Manager)
      → deserialize lib blob ≡ ok st
      → c_str id ≡ id
      → c_str j ≡ j
      → read_blob lib (get_ratchet_state (set_ratchet_state id blob m) j)
        ≡ (if id == j then some (ok st) else read_blob lib (get_ratchet_state m j))
  unfolding get_ratchet_state set_ratchet_state stored_blob read_blob
  get-set id j [] st m loads whole whole_j =
      absurd (unreadable (sym (deserialize-nil lib no_bytes) ∙ loads))
    where
      unreadable : err "ratchet::deserialize: CBOR parse error" ≡ ok st → ⊥
      unreadable h = cc
  get-set id j (b ∷ bs) st m loads whole whole_j =
      rw (lookup-assign (c_str id) (c_str j) (b ∷ bs) m.key_e_ratchet, whole, whole_j)
        (elim (Bool-cases (id == j)) [
          | inl this ↦ rw this (ap some loads)
          | inr other ↦ rw other refl
        ])

  get-persist :
      (id j : String) (st : State) (m : Manager)
      → IsStorable lib st
      → c_str id ≡ id
      → c_str j ≡ j
      → read_blob lib (get_ratchet_state (persist p lib id st m) j)
        ≡ (if id == j then some (ok (forgetful st)) else read_blob lib (get_ratchet_state m j))
  unfolding persist
  get-persist id j st m storable =
      get-set id j (serialize lib st) (forgetful st) m
        (deserialize-serialize lib st definite storable.sized storable.loads)

  -- A call that changes what is kept for one conversation.
  written-Represents :
      (id : String) (k : Kept) (m after : Manager) (w : World)
      → ((j : String) → lookup j after.cache ≡ (if id == j then k.running else lookup j m.cache))
      → ((j : String)
          → c_str j ≡ j
          → read_blob lib (get_ratchet_state after j)
            ≡ (if id == j then k.saved else read_blob lib (get_ratchet_state m j)))
      → Represents lib m w
      → Represents lib after (with_kept id k w)
  written-Represents id k m after w runs saves_it r = record {
    running =
        λ j. runs j ∙ rw (r.running j) (sym (part (id == j) (λ (h : Kept). h.running) k (w j)));
    saved = λ j whole.
        saves_it j whole
        ∙ rw (r.saved j whole) (sym (part (id == j) (λ (h : Kept). h.saved) k (w j)));
  }

  pub stored_now-Represents :
      (id : String) (st : State) (m : Manager) (w : World)
      → IsStorable lib st
      → c_str id ≡ id
      → Represents lib m w
      → Represents lib (persist p lib id st (set_cached id st m)) (with_kept id (stored_now st) w)
  stored_now-Represents id st m w storable whole =
      written-Represents id (stored_now st) m (persist p lib id st (set_cached id st m)) w
        (λ j. cache-persist id st (set_cached id st m) j ∙ cache-set_cached id st m j)
        (λ j whole_j.
          get-persist id j st (set_cached id st m) storable whole whole_j
          ∙ rw (get-set_cached id j st m) refl)

  pub cached-Represents :
      (id : String) (st : State) (m : Manager) (w : World)
      → c_str id ≡ id
      → Represents lib m w
      → Represents lib
          (set_cached id st m)
          (with_kept id (record { running = some st; saved = (w id).saved }) w)
  cached-Represents id st m w whole r =
      written-Represents id (record { running = some st; saved = (w id).saved }) m
        (set_cached id st m) w (cache-set_cached id st m)
        (λ j whole_j.
          ap (read_blob lib) (get-set_cached id j st m)
          ∙ written_same (λ i. read_blob lib (get_ratchet_state m i)) (w id).saved id j
              (r.saved id whole))
        r

  -- A conversation whose ratchet runs already.
  pub running-Represents :
      (id : String) (st : State) (m : Manager) (w : World)
      → c_str id ≡ id
      → lookup id m.cache ≡ some st
      → Represents lib m w
      → Represents lib m (with_kept id (record { running = some st; saved = (w id).saved }) w)
  running-Represents id st m w whole here r =
      written-Represents id (record { running = some st; saved = (w id).saved }) m m w
        (λ j. written_same (λ i. lookup i m.cache) (some st) id j here)
        (λ j whole_j.
          written_same (λ i. read_blob lib (get_ratchet_state m i)) (w id).saved id j
            (r.saved id whole))
        r
