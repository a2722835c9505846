-- ===== src/Ledger/Frames.antt =====
-- lib/ledger/encoding.cpp: HID frames of 65 bytes around a payload.
pub mod Packets
pub mod Reading
use avme_wallet.Base.{
  leb, if◌then◌else◌, ◌>>=◌, length, replicate, Str, ℕ, ◌+◌, ◌-◌, ◌%◌, Bool, Option, none, some,
  List, [], ◌∷◌, ◌++◌,
}
use avme_wallet.Ledger.Chunks.{Payload}

abbrev pub frame_size : ℕ
frame_size = 65

-- for (…) { buffer[i] = bufferVector[i]; } into a zeroed array of 65 bytes; `none` is a write behind it.
unfoldable pub to_buffer : Str → Option Str
to_buffer bytes =
    if leb (length bytes) frame_size
    then some (bytes ++ replicate (frame_size - length bytes) 0)
    else none

-- An array of `n` bytes, of which the first are written.
abbrev pub array : ℕ → Str → Str
array n written = written ++ replicate (n - length written) 0

-- Report id, channel, command tag and index of a frame.
unfoldable pub hid_header : ℕ → Str
hid_header index = 0 ∷ 1 ∷ 1 ∷ 5 ∷ 0 ∷ index ∷ []

-- CLA, INS, P1, P2 and LC; the last is an unsigned char.
unfoldable pub apdu_header : ℕ → Bool → ℕ → Str
apdu_header ins is_first payload_size =
    0xE0 ∷ ins ∷ (if is_first then 0 else 0x80) ∷ 0 ∷ (payload_size % 256) ∷ []

unfoldable pub first_frame : ℕ → Payload → Str
first_frame ins p =
    hid_header 0
    ++ (0 ∷ ((5 + p.payload_size) % 256) ∷ [])
    ++ apdu_header ins p.is_hid_first_message p.payload_size
    ++ array 52 p.first_message

-- A message that is empty has no frame.
unfoldable pub frame_if_any : Str → Str → Option (List Str)
frame_if_any [] bytes = some []
frame_if_any (c ∷ message) bytes = do buffer ← to_buffer bytes; some (buffer ∷ [])

unfoldable pub payload_frames : ℕ → Payload → Option (List Str)
payload_frames ins p = do
  first ← frame_if_any p.first_message (first_frame ins p)
  second ← frame_if_any p.second_message (hid_header 1 ++ array 59 p.second_message)
  third ← frame_if_any p.third_message (hid_header 2 ++ array 39 p.third_message)
  some (first ++ second ++ third)

unfoldable pub encode_payloads : ℕ → List Payload → Option (List Str)
encode_payloads ins [] = some []
encode_payloads ins (p ∷ ps) = do
  frames ← payload_frames ins p
  rest ← encode_payloads ins ps
  some (frames ++ rest)
