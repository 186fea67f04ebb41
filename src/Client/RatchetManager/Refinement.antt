-- ===== src/Client/RatchetManager/Refinement.antt =====
-- The manager of ratchet_manager.cpp implements its specification: the cache and the table
-- key_e_ratchet are related to the ratchets of the abstract world, also across new starts.
use scatter_web_project.Common.{
  ◌≡◌, refl, ap, ap₂, ◌∙◌, Bytes, String, Option, none, some, List, [], ◌∷◌, ◌++◌, All, Result, ok,
  err, Exec, lookup, string_eq, beq_refl, subst,
}
use scatter_web_project.Crypto.{Provider}
use scatter_web_project.Cbor.{Libcbor, IsDefinite, c_str}
use scatter_web_project.Ratchet.{State, encrypt, decrypt, init_as_sender, init_as_receiver}
use scatter_web_project.Ratchet.Storage.{deserialize}
use scatter_web_project.Client.RatchetManager.{
  Manager, ratchet_manager, get_ratchet_state, loaded_state, load_blob, load_cached, load,
  finish_step, on_state, manager_encrypt, manager_decrypt, manager_init_as_sender,
  manager_init_as_receiver,
}
use scatter_web_project.Client.RatchetManager.Specification.{
  Kept, World, Operation, start_sender, start_receiver, seal, open_message, restart, sealed, opened,
  HasWholeId, no_state, with_kept, current, now_current, after_call, ratchet_step, saves_after,
  step_saves, specified, specified_all, saves, saves_all, performed, performed_all, read_blob,
  world_of, IsStorable,
}
use scatter_web_project.Client.RatchetManager.Representation.{
  Represents, cached-Represents, stored_now-Represents, running-Represents, written_twice,
}

All-split : {A : Type 0} (P : A → Type 0) (xs ys : List A) → All P (xs ++ ys) → All P xs × All P ys
All-split P [] ys h = (tt, h)
All-split P (x ∷ xs) ys h = let (l, r) = All-split P xs ys h.1 in ((h.0, l), r)

module _ (p : Provider) (lib : Libcbor) (definite : IsDefinite lib)
    (no_bytes : lib.load [] ≡ none) where
  finish_step-Represents :
      {A : Type 0} (id : String) (result : Result A) (st : State) (m : Manager) (w : World)
      → c_str id ≡ id
      → All (IsStorable lib) (saves_after result st)
      → Represents lib m w
      → ((finish_step p lib id result st m).0 ≡ result)
        × Represents lib
            (finish_step p lib id result st m).1
            (with_kept id (after_call result st (w id).saved) w)
  unfolding finish_step after_call saves_after
  finish_step-Represents id (err e) st m w whole storable r =
      (refl, cached-Represents p lib definite no_bytes id st m w whole r)
  finish_step-Represents id (ok a) st m w whole storable r =
      (refl, stored_now-Represents p lib definite no_bytes id st m w storable.0 whole r)

  -- The manager after a call of `load`.
  abbrev Loaded : String → Result State → Manager → World → Type 0
  Loaded id (ok st) m w =
      Represents lib m (with_kept id (record { running = some st; saved = (w id).saved }) w)
  Loaded id (err e) m w = Represents lib m w

  load_blob-Loaded :
      (id : String) (blob : Bytes) (m : Manager) (w : World)
      → c_str id ≡ id
      → Represents lib m w
      → ((load_blob p lib id blob m).0 ≡ current id none (read_blob lib blob))
        × Loaded id (current id none (read_blob lib blob)) (load_blob p lib id blob m).1 w
  unfolding load_blob loaded_state current read_blob no_state
  load_blob-Loaded id [] m w whole r = (refl, r)
  load_blob-Loaded id (b ∷ bs) m w whole r = of_read (deserialize lib (b ∷ bs))
    where
      of_read :
          (c : Result State)
          → ((loaded_state p lib id c m).0 ≡ c) × Loaded id c (loaded_state p lib id c m).1 w
      of_read (err e) = (refl, r)
      of_read (ok st) = (refl, cached-Represents p lib definite no_bytes id st m w whole r)

  load_cached-Loaded :
      (id : String) (o : Option State) (m : Manager) (w : World)
      → c_str id ≡ id
      → lookup id m.cache ≡ o
      → Represents lib m w
      → ((load_cached p lib id o m).0 ≡ current id o (w id).saved)
        × Loaded id (current id o (w id).saved) (load_cached p lib id o m).1 w
  unfolding load_cached current
  load_cached-Loaded id (some st) m w whole here r =
      (refl, running-Represents p lib definite no_bytes id st m w whole here r)
  load_cached-Loaded id none m w whole here r =
      subst
        (λ (s : Option (Result State)).
          ((load_blob p lib id (get_ratchet_state m id) m).0 ≡ current id none s)
          × Loaded id (current id none s) (load_blob p lib id (get_ratchet_state m id) m).1 w)
        (r.saved id whole) (load_blob-Loaded id (get_ratchet_state m id) m w whole r)

  load-Loaded :
      (id : String) (m : Manager) (w : World)
      → c_str id ≡ id
      → Represents lib m w
      → ((load p lib id m).0 ≡ now_current id w)
        × Loaded id (now_current id w) (load p lib id m).1 w
  unfolding load
  load-Loaded id m w whole r =
      rw (← r.running id) (load_cached-Loaded id (lookup id m.cache) m w whole refl r)

  step-Represents :
      {A : Type 0} (id : String) (f : Exec State A) (c : Result State) (m after : Manager)
      (w : World)
      → c_str id ≡ id
      → All (IsStorable lib) (step_saves f c)
      → load p lib id m ≡ (c, after)
      → Loaded id c after w
      → ((on_state p lib id f m).0 ≡ (ratchet_step id f c w).0)
        × Represents lib (on_state p lib id f m).1 (ratchet_step id f c w).1
  unfolding on_state ratchet_step step_saves
  step-Represents id f (err e) m after w whole storable loaded l = rw loaded (refl, l)
  step-Represents id f (ok st) m after w whole storable loaded l = rw loaded (
      let first : Kept = record { running = some st; saved = (w id).saved } in
      let own : (with_kept id first w id).saved ≡ (w id).saved = rw (beq_refl id) refl in
      let (same, done) =
        finish_step-Represents id (f st).0 (f st).1 after (with_kept id first w) whole storable l in
      (
        same,
        subst (Represents lib (finish_step p lib id (f st).0 (f st).1 after).1)
            (ap (λ s. with_kept id (after_call (f st).0 (f st).1 s) (with_kept id first w)) own
              ∙ written_twice id (after_call (f st).0 (f st).1 (w id).saved) first w)
            done,
      ))

  call-Represents :
      {A : Type 0} (id : String) (f : Exec State A) (m : Manager) (w : World)
      → c_str id ≡ id
      → All (IsStorable lib) (step_saves f (now_current id w))
      → Represents lib m w
      → ((on_state p lib id f m).0 ≡ (ratchet_step id f (now_current id w) w).0)
        × Represents lib (on_state p lib id f m).1 (ratchet_step id f (now_current id w) w).1
  call-Represents id f m w whole storable r =
      let (same, l) = load-Loaded id m w whole r in
      step-Represents id f (now_current id w) m (load p lib id m).1 w whole storable
        (λ i. (same i, (load p lib id m).1)) l

  performed-Represents :
      (o : Operation) (m : Manager) (w : World)
      → HasWholeId o
      → All (IsStorable lib) (saves p lib o w)
      → Represents lib m w
      → ((performed p lib o m).0 ≡ (specified p lib o w).0)
        × Represents lib (performed p lib o m).1 (specified p lib o w).1
  unfolding performed specified saves manager_init_as_sender manager_init_as_receiver
      manager_encrypt manager_decrypt ratchet_manager get_ratchet_state lookup
  performed-Represents (start_sender id prekey mine theirs coins) m w whole storable r = (
    refl,
    stored_now-Represents p lib definite no_bytes id
        (init_as_sender p prekey mine theirs coins).state m w storable.0 whole r,
  )
  performed-Represents (start_receiver id private ct theirs mine ratchet coins) m w whole storable
        r =
      (
        refl,
        stored_now-Represents p lib definite no_bytes id
            (init_as_receiver p private ct theirs mine ratchet coins) m w storable.0 whole r,
      )
  performed-Represents (seal id plaintext coins) m w whole storable r =
      let (same, after) = call-Represents id (encrypt p plaintext coins) m w whole storable r in
      (ap sealed same, after)
  performed-Represents (open_message id msg) m w whole storable r =
      let (same, after) = call-Represents id (decrypt p msg) m w whole storable r in
      (ap opened same, after)
  performed-Represents restart m w whole storable r =
      (refl, record { running = λ id. refl; saved = r.saved })

  performed_all-Represents :
      (os : List Operation) (m : Manager) (w : World)
      → All HasWholeId os
      → All (IsStorable lib) (saves_all p lib os w)
      → Represents lib m w
      → performed_all p lib os m ≡ specified_all p lib os w
  unfolding performed_all specified_all saves_all
  performed_all-Represents [] m w whole storable r = refl
  performed_all-Represents (o ∷ os) m w whole storable r =
      let (here, rest) = All-split (IsStorable lib) (saves p lib o w) _ storable in
      let (same, after) = performed-Represents o m w whole.0 here r in
      ap₂ (λ x xs. x ∷ xs) same
        (performed_all-Represents os (performed p lib o m).1 (specified p lib o w).1 whole.1 rest
          after)

  -- From every manager, with whatever cache and table, any calls and new starts of the program, in any
  -- order, give the outputs of the specification, failed calls included: a new start finds of each
  -- conversation what its last successful call left, without the keys of skipped messages, or else
  -- what the table held at first. The ids hold no NUL; the states that are saved have the sizes of
  -- their C++ types; libcbor reads them back, adds pairs to a definite map while there is room, and
  -- finds no item in no bytes.
  pub manager_refines :
      (os : List Operation) (m : Manager)
      → All HasWholeId os
      → All (IsStorable lib) (saves_all p lib os (world_of lib m))
      → performed_all p lib os m ≡ specified_all p lib os (world_of lib m)
  unfolding world_of
  manager_refines os m whole storable =
      performed_all-Represents os m (world_of lib m) whole storable
        (record { running = λ id. refl; saved = λ id whole_id. refl })
