-- ===== src/Ipc/Framing/Writing.antt =====
-- What `write_frame` of codec.cpp leaves on the socket.
use scatter_web_project.Common.{
  ℕ, ◌+◌, ◌≤◌, ◌≡◌, refl, ap, ap₂, ◌∙◌, Bytes, Option, none, some, List, [], ◌∷◌, ◌++◌,
  append_assoc, length, take, drop, take-drop, length-drop, arith,
}
use scatter_web_project.Ipc.Framing.{frame, sent, write_all, write_frame}

-- The bytes that the calls of `write` accept before the first that fails.
abbrev pub accepted : List (Option ℕ) → ℕ
accepted [] = 0
accepted (none ∷ outcomes) = 0
accepted (some w ∷ outcomes) = w + accepted outcomes

-- Some bytes are missing behind those that were written.
abbrev IsPrefix : Bytes → Bytes → Type 0
IsPrefix out bytes = (more : Bytes) × (out ++ more ≡ bytes)

write_all-IsPrefix :
    (bytes : Bytes) (outcomes : List (Option ℕ)) → IsPrefix (write_all bytes outcomes).0 bytes
unfolding write_all
write_all-IsPrefix [] outcomes = ([], refl)
write_all-IsPrefix (b ∷ bs) [] = (b ∷ bs, refl)
write_all-IsPrefix (b ∷ bs) (none ∷ outcomes) = (b ∷ bs, refl)
write_all-IsPrefix (b ∷ bs) (some w ∷ outcomes) =
    let (more, joins) = write_all-IsPrefix (drop w (b ∷ bs)) outcomes in
    (
      more,
      append_assoc (take w (b ∷ bs)) (write_all (drop w (b ∷ bs)) outcomes).0 more
          ∙ ap (λ r. take w (b ∷ bs) ++ r) joins
          ∙ take-drop w (b ∷ bs),
    )

write_all-sent :
    (bytes : Bytes) (outcomes : List (Option ℕ))
    → (write_all bytes outcomes).1 ≡ sent
    → (write_all bytes outcomes).0 ≡ bytes
unfolding write_all
write_all-sent [] outcomes h = refl
write_all-sent (b ∷ bs) [] h = absurd (cc)
write_all-sent (b ∷ bs) (none ∷ outcomes) h = absurd (cc)
write_all-sent (b ∷ bs) (some w ∷ outcomes) h =
    ap (λ r. take w (b ∷ bs) ++ r) (write_all-sent (drop w (b ∷ bs)) outcomes h)
    ∙ take-drop w (b ∷ bs)

write_all_ends :
    (bytes : Bytes) (outcomes : List (Option ℕ))
    → length bytes ≤ accepted outcomes
    → (write_all bytes outcomes).1 ≡ sent
unfolding write_all
write_all_ends [] outcomes h = refl
write_all_ends (b ∷ bs) [] h = absurd (omega arith)
write_all_ends (b ∷ bs) (none ∷ outcomes) h = absurd (omega arith)
write_all_ends (b ∷ bs) (some w ∷ outcomes) h =
    write_all_ends (drop w (b ∷ bs)) outcomes (omega (arith, length-drop w (b ∷ bs)))

-- `write_frame` returns once the calls of `write` have accepted at least as many bytes as the frame
-- has, and then exactly the frame is on the socket.
pub write_frame_ends :
    (payload : Bytes) (outcomes : List (Option ℕ))
    → length (frame payload) ≤ accepted outcomes
    → write_frame payload outcomes ≡ (frame payload, sent)
unfolding write_frame
write_frame_ends payload outcomes h =
    let ends = write_all_ends (frame payload) outcomes h in
    ap₂ (λ out how. (out, how)) (write_all-sent (frame payload) outcomes ends) ends

-- Whatever the calls of `write` do, a beginning of the frame is on the socket.
pub write_frame-IsPrefix :
    (payload : Bytes) (outcomes : List (Option ℕ))
    → IsPrefix (write_frame payload outcomes).0 (frame payload)
unfolding write_frame
write_frame-IsPrefix payload outcomes = write_all-IsPrefix (frame payload) outcomes
