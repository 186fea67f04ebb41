-- ===== src/Ipc/Framing/Stream.antt =====
-- Messages of codec.cpp over a socket, however the bytes are cut into pieces on the way.
use scatter_web_project.Common.{
  ℕ, zero, suc, ◌^◌, ◌≤◌, ◌<◌, ◌≡◌, refl, ap, ◌∙◌, Bytes, some, List, [], ◌∷◌, ◌++◌, ok, All,
  length, take, drop, length-append, take-append, drop-append, arith,
}
use scatter_web_project.Ipc.Framing.{
  Socket, length_header, frame, header_length, max_frame_bytes, read_exact, read_payload,
  read_frame, receive,
}
use scatter_web_project.Ipc.Framing.Exact.{joined, IsOpen, read_exact-Reads}

-- A payload that `read_frame` takes.
abbrev pub IsFramable : Bytes → Type 0
IsFramable payload = (0 < length payload) × (length payload ≤ max_frame_bytes)

header_lem : (n : ℕ) → n < 2 ^ 32 → header_length (length_header n) ≡ n
unfolding header_length length_header
header_lem n h = omega arith

-- The payload was read whole, and what followed it is still there.
abbrev Takes : Bytes → Bytes → Socket → Type 0
Takes payload rest s =
    (s' : Socket) × (read_frame s ≡ (ok payload, s')) × IsOpen s' × (joined s' ≡ rest)

take_payload :
    (payload rest : Bytes) (s s1 : Socket)
    → IsFramable payload
    → read_exact 4 s ≡ (some (length_header (length payload)), s1)
    → IsOpen s1
    → joined s1 ≡ payload ++ rest
    → Takes payload rest s
unfolding read_frame read_payload
take_payload payload rest s s1 fits header opened left =
    let (s2, reads, opened2, left2) =
      read_exact-Reads s1 (length payload) opened
        (omega (arith, ap length left, length-append payload rest)) in
    (
      s2,
      rw (header, header_lem (length payload) (omega arith))
          (ground (arith, reads, left, take-append (length payload) payload rest refl)),
      opened2,
      left2 ∙ ap (drop (length payload)) left ∙ drop-append (length payload) payload rest refl,
    )

pub read_frame-Takes :
    (payload rest : Bytes) (s : Socket)
    → IsFramable payload
    → IsOpen s
    → joined s ≡ frame payload ++ rest
    → Takes payload rest s
unfolding frame length_header
read_frame-Takes payload rest s fits opened bytes =
    let (s1, reads, opened1, left) = read_exact-Reads s 4 opened (omega (arith, ap length bytes)) in
    take_payload payload rest s s1 fits (reads ∙ ap (λ b. (some (take 4 b), s1)) bytes) opened1
      (left ∙ ap (drop 4) bytes)

-- The frames of these payloads, one behind the other.
abbrev pub frames : List Bytes → Bytes
frames [] = []
frames (payload ∷ payloads) = frame payload ++ frames payloads

read_end : (s : Socket) → IsOpen s → joined s ≡ [] → read_frame s ≡ (ok [], [])
unfolding read_frame read_exact
read_end [] opened none_left = refl
read_end (piece ∷ s) opened none_left =
    absurd (omega (arith, opened.0, ap length none_left, length-append piece (joined s)))

-- However the bytes of the frames were cut into pieces on the way, the receiving loop ends after
-- one more round than there are messages, and returns exactly the messages, in order; each is at
-- least one byte long and at most 64 MiB.
pub receive-frames :
    (payloads : List Bytes) (s : Socket) (rounds : ℕ)
    → All IsFramable payloads
    → IsOpen s
    → joined s ≡ frames payloads
    → length payloads < rounds
    → receive rounds s ≡ payloads
unfolding receive
receive-frames payloads s zero fits opened bytes enough = absurd (omega arith)
receive-frames [] s (suc rounds) fits opened bytes enough =
    rw (read_end s opened bytes, receive) refl
receive-frames (payload ∷ payloads) s (suc rounds) fits opened bytes enough =
    let (s', reads, opened', left) =
      read_frame-Takes payload (frames payloads) s fits.0 opened bytes in
    let later = receive-frames payloads s' rounds fits.1 opened' left (omega arith) in
    rw (reads, receive) (rw (reads, later) (ground (arith, fits.0)))
