-- ===== src/Ipc/Framing.antt =====
-- `frame`, `read_exact`, `read_frame` and `write_frame` of codec.cpp.
-- A socket is the list of what its next reads find there: `read` returns the first piece, or as
-- much of it as was asked for, and an empty piece, as the end of the list, is an end of file or an
-- error (`r <= 0`). What `write` does is given the same way: one outcome for each call.
pub mod Exact
pub mod Stream
pub mod Writing
use Prim.Native.String.{◌++◌ as text_append}
use scatter_web_project.Common.{
  ℕ, zero, suc, ◌+◌, ◌-◌, ◌*◌, ◌/◌, ◌%◌, ◌^◌, Bytes, String, Bool, true, false, Option, none, some,
  List, [], ◌∷◌, ◌++◌, Result, ok, err, Exec, length, take, drop, ltb, leb, ◌||◌, nat_beq,
  if◌then◌else◌,
}
use scatter_web_project.Hex.{hex_digit}

-- htonl(static_cast<uint32_t>(n)), as the four bytes of memory
unfoldable pub length_header : ℕ → Bytes
length_header n = (n / 2 ^ 24 % 256) ∷ (n / 2 ^ 16 % 256) ∷ (n / 2 ^ 8 % 256) ∷ (n % 256) ∷ []

unfoldable pub frame : Bytes → Bytes
frame payload = length_header (length payload) ++ payload

-- ntohl of the four bytes
unfoldable pub header_length : Bytes → ℕ
header_length (a ∷ b ∷ c ∷ d ∷ _) = a * 2 ^ 24 + b * 2 ^ 16 + c * 2 ^ 8 + d
header_length _ = 0

-- 64 * 1024 * 1024
abbrev pub max_frame_bytes : ℕ
max_frame_bytes = 67108864

abbrev pub Socket : Type 0
Socket = List Bytes

-- The bytes read so far stand before those that follow.
unfoldable pub prepend : Bytes → Option Bytes × Socket → Option Bytes × Socket
prepend got (none, s) = (none, s)
prepend got (some bs, s) = (some (got ++ bs), s)

-- One step for each call of `read`; `none` where it returns false.
unfoldable pub read_exact : ℕ → Socket → Option Bytes × Socket
unfolding prepend
read_exact n [] = if nat_beq n 0 then (some [], []) else (none, [])
read_exact n (piece ∷ s) =
    let rest = read_exact (n - length piece) s in
    if nat_beq n 0
    then (some [], piece ∷ s)
    else if nat_beq (length piece) 0
    then (none, s)
    else if ltb n (length piece)
    then (some (take n piece), drop n piece ∷ s)
    else prepend piece rest

-- std::to_string of a number below 10 ^ (suc more)
digits : ℕ → ℕ → String → String
digits zero n tail = String.◌∷◌ (hex_digit (n % 10)) tail
digits (suc more) n tail =
    let front = digits more (n / 10) (String.◌∷◌ (hex_digit (n % 10)) tail) in
    if nat_beq (n / 10) 0 then String.◌∷◌ (hex_digit (n % 10)) tail else front

-- A uint32_t has at most ten digits.
unfoldable pub to_string : ℕ → String
unfolding digits
to_string n = digits 9 n ""

payload_of : Option Bytes × Socket → Result Bytes × Socket
payload_of (none, s) = (ok [], s)
payload_of (some payload, s) = (ok payload, s)

unfoldable pub read_payload : ℕ → Exec Socket Bytes
unfolding payload_of
read_payload len s =
    if nat_beq len 0 || ltb max_frame_bytes len
    then (err (text_append "read_frame: invalid length " (to_string len)), s)
    else payload_of (read_exact len s)

read_body : Option Bytes × Socket → Result Bytes × Socket
read_body (none, s) = (ok [], s)
read_body (some hdr, s) = read_payload (header_length hdr) s

-- An end of file is an empty payload.
unfoldable pub read_frame : Exec Socket Bytes
unfolding read_body
read_frame s = read_body (read_exact 4 s)

-- How a `write_frame` ends; `blocked` while the last `write` has not returned.
pub data Written : Type 0 where
  sent blocked : Written
  failed : String → Written

-- The loop over `write`: what each call returns, none for a negative number, and the bytes that
-- have reached the socket. `write` takes at most what it is given.
unfoldable pub write_all : Bytes → List (Option ℕ) → Bytes × Written
write_all [] outcomes = ([], sent)
write_all (b ∷ bs) [] = ([], blocked)
write_all (b ∷ bs) (none ∷ outcomes) = ([], failed "write_frame: write failed")
write_all (b ∷ bs) (some w ∷ outcomes) =
    let rest = write_all (drop w (b ∷ bs)) outcomes in (take w (b ∷ bs) ++ rest.0, rest.1)

unfoldable pub write_frame : Bytes → List (Option ℕ) → Bytes × Written
write_frame payload outcomes = write_all (frame payload) outcomes

-- The receiving loops of client.cpp and server.cpp, as far as they read: the payloads until the
-- first end of file or exception, in at most so many rounds.
unfoldable pub receive : ℕ → Socket → List Bytes
receive zero s = []
receive (suc rounds) s = elim ((read_frame s).0) [
  | err e ↦ []
  | ok payload ↦
      if nat_beq (length payload) 0 then [] else payload ∷ receive rounds (read_frame s).1
]
