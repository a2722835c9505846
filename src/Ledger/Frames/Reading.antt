-- ===== src/Ledger/Frames/Reading.antt =====
-- What a device reads out of the frames of a payload.
use avme_wallet.Base.{
  length, replicate, length-append, take-append, All, Str, ℕ, suc, ◌+◌, ◌-◌, ◌%◌, ◌≤◌, ◌<◌, ◌≡◌,
  refl, sym, ◌∙◌, ◌⊎◌, inl, inr, Bool, some, List, [], ◌∷◌, ◌++◌, append-nil, arith,
}
use avme_wallet.Ledger.Chunks.{Payload}
use avme_wallet.Ledger.Frames.{
  to_buffer, array, hid_header, apdu_header, first_frame, frame_if_any, payload_frames,
  encode_payloads,
}
use avme_wallet.Ledger.Chunks.Cut.{content, contents, IsSound}
use avme_wallet.Ledger.Frames.Packets.{
  frame_data, frames_data, packet_size, read_packet, IsFrame, full_array, length-array,
  to_buffer_full, read_two, read_three, take_front, take_front_three,
}

module _ (ins size : ℕ) (b : Bool) (small : size ≤ 150) where
  packet : Str → Str → Str → Payload
  packet f s t = record {
    payload_size = size;
    is_hid_first_message = b;
    first_message = f;
    second_message = s;
    third_message = t;
  }

  abbrev Reads : Payload → Type 0
  Reads p =
      (fs : List Str) × (payload_frames ins p ≡ some fs)
      × All IsFrame fs
      × (read_packet fs ≡ content p)

  first_buffer :
      (f s t : Str)
      → length f ≤ 52
      → (length (first_frame ins (packet f s t)) ≡ 65)
        × (frame_data (first_frame ins (packet f s t)) ≡ array 52 f)
        × ((rest : List Str) → packet_size (first_frame ins (packet f s t) ∷ rest) ≡ size)
  unfolding first_frame packet hid_header apdu_header frame_data packet_size
  first_buffer f s t h = (
    omega (arith, length-array 52 f h),
    refl,
    λ rest. let m : size % 256 ≡ size = omega arith in m,
  )

  later_buffer :
      (low : ℕ) (n : ℕ) (s : Str)
      → low ≡ suc (low - 1)
      → length s ≤ n
      → (length (hid_header low ++ array n s) ≡ 6 + n)
        × (frame_data (hid_header low ++ array n s) ≡ array n s)
  unfolding hid_header frame_data
  later_buffer low n s e h = (omega (arith, length-array n s h), ground arith)

  one :
      (x : ℕ) (f : Str) → length (x ∷ f) ≤ 52 → size ≡ length (x ∷ f) → Reads (packet (x ∷ f) [] [])
  unfolding payload_frames packet frame_if_any read_packet frames_data
  one x f h e =
      let (len, bytes, lc) = first_buffer (x ∷ f) [] [] h in
      let frame : Str = first_frame ins (packet (x ∷ f) [] []) in
      (
        frame ∷ [],
        rw (to_buffer_full frame len),
        (len, tt),
        rw (lc [], bytes, append-nil (array 52 (x ∷ f)))
            (take-append (x ∷ f) _ size e ∙ sym (append-nil ((x ∷ f) ++ []) ∙ append-nil (x ∷ f))),
      )

  two :
      (x : ℕ) (f : Str) (y : ℕ) (s : Str)
      → length (x ∷ f) ≡ 52
      → length (y ∷ s) ≤ 59
      → size ≡ length (x ∷ f) + length (y ∷ s)
      → Reads (packet (x ∷ f) (y ∷ s) [])
  unfolding payload_frames packet frame_if_any read_packet frames_data
  two x f y s full h e =
      let (len, bytes, lc) = first_buffer (x ∷ f) (y ∷ s) [] (omega arith) in
      let (len', bytes') = later_buffer 1 59 (y ∷ s) refl h in
      let frame : Str = first_frame ins (packet (x ∷ f) (y ∷ s) []) in
      let frame' : Str = hid_header 1 ++ array 59 (y ∷ s) in
      let rest : Str = replicate (59 - length (y ∷ s)) 0 in
      (
        frame ∷ frame' ∷ [],
        rw (to_buffer_full frame len, to_buffer_full frame' len'),
        (len, (len', tt)),
        read_two frame frame' (x ∷ f) (array 59 (y ∷ s)) size (lc (frame' ∷ []))
              (bytes ∙ full_array 52 (x ∷ f) full) bytes'
            ∙ take_front (x ∷ f) (y ∷ s) rest size e
            ∙ sym (append-nil ((x ∷ f) ++ (y ∷ s))),
      )

  third_buffer :
      (t : Str)
      → length t ≤ 39
      → (buffer : Str) × (to_buffer (hid_header 2 ++ array 39 t) ≡ some buffer)
        × (length buffer ≡ 65)
        × (frame_data buffer ≡ array 39 t ++ replicate 20 0)
  unfolding to_buffer
  third_buffer t h =
      let (len, _) = later_buffer 2 39 t refl h in
      let bytes : Str = hid_header 2 ++ array 39 t in
      (
        bytes ++ replicate 20 0,
        rw len,
        omega (arith, length-append bytes (replicate 20 0)),
        unfold hid_header frame_data in refl,
      )

  three :
      (x : ℕ) (f : Str) (y : ℕ) (s : Str) (z : ℕ) (t : Str)
      → length (x ∷ f) ≡ 52
      → length (y ∷ s) ≡ 59
      → length (z ∷ t) ≤ 39
      → size ≡ length (x ∷ f) + length (y ∷ s) + length (z ∷ t)
      → Reads (packet (x ∷ f) (y ∷ s) (z ∷ t))
  unfolding payload_frames packet frame_if_any read_packet frames_data
  three x f y s z t full full' h e =
      let (len, bytes, lc) = first_buffer (x ∷ f) (y ∷ s) (z ∷ t) (omega arith) in
      let (len', bytes') = later_buffer 1 59 (y ∷ s) refl (omega arith) in
      let (frame₃, made, len₃, bytes₃) = third_buffer (z ∷ t) h in
      let frame : Str = first_frame ins (packet (x ∷ f) (y ∷ s) (z ∷ t)) in
      let frame' : Str = hid_header 1 ++ array 59 (y ∷ s) in
      let rest : Str = replicate (39 - length (z ∷ t)) 0 in
      (
        frame ∷ frame' ∷ frame₃ ∷ [],
        rw (to_buffer_full frame len, to_buffer_full frame' len', made),
        (len, (len', (len₃, tt))),
        read_three frame frame' frame₃ (x ∷ f) (y ∷ s) (array 39 (z ∷ t) ++ replicate 20 0) size
              (lc (frame' ∷ frame₃ ∷ [])) (bytes ∙ full_array 52 (x ∷ f) full)
              (bytes' ∙ full_array 59 (y ∷ s) full') bytes₃
            ∙ take_front_three (x ∷ f) (y ∷ s) (z ∷ t) rest (replicate 20 0) size e,
      )

-- A payload of at most 150 bytes is sent in frames of 65 bytes, and a device that goes by the count of
-- the first frame reads exactly the payload's bytes out of them.
pub payload_frames_read :
    (ins : ℕ) (p : Payload)
    → IsSound p
    → p.payload_size ≤ 150
    → (fs : List Str) × (payload_frames ins p ≡ some fs)
      × All IsFrame fs
      × (read_packet fs ≡ content p)
unfolding packet
payload_frames_read ins p sound small =
    go p.first_message p.second_message p.third_message sound.started sound.first_full
      sound.second_full sound.third_bound (sound.counted ∙ sizes)
  where
    sizes :
        length (content p)
        ≡ length p.first_message + length p.second_message + length p.third_message
    sizes = omega (
      arith,
      length-append p.first_message p.second_message,
      length-append (p.first_message ++ p.second_message) p.third_message,
    )

    go :
        (f s t : Str)
        → 0 < length f
        → (length f ≡ 52) ⊎ ((s ≡ []) × (length f ≤ 52))
        → (length s ≡ 59) ⊎ ((t ≡ []) × (length s ≤ 59))
        → length t ≤ 39
        → p.payload_size ≡ length f + length s + length t
        → Reads ins p.payload_size p.is_hid_first_message small
            (packet ins p.payload_size p.is_hid_first_message small f s t)
    go [] s t h a b c e = absurd (omega arith)
    go (x ∷ f) [] [] h a b c e =
        one ins p.payload_size p.is_hid_first_message small x f (ground arith) (omega arith)
    go (x ∷ f) [] (z ∷ t) h a (inl b) c e = absurd (omega arith)
    go (x ∷ f) [] (z ∷ t) h a (inr (b, _)) c e = cc
    go (x ∷ f) (y ∷ s) t h (inr (a, _)) b c e = cc
    go (x ∷ f) (y ∷ s) [] h (inl a) b c e =
        two ins p.payload_size p.is_hid_first_message small x f y s a (ground arith) (omega arith)
    go (x ∷ f) (y ∷ s) (z ∷ t) h (inl a) (inl b) c e =
        three ins p.payload_size p.is_hid_first_message small x f y s z t a b c (omega arith)
    go (x ∷ f) (y ∷ s) (z ∷ t) h (inl a) (inr (b, _)) c e = cc

abbrev pub joined : List (List Str) → List Str
joined [] = []
joined (fs ∷ pss) = fs ++ joined pss

abbrev pub read_packets : List (List Str) → Str
read_packets [] = []
read_packets (fs ∷ pss) = read_packet fs ++ read_packets pss

abbrev pub IsSendable : Payload → Type 0
IsSendable p = (p.payload_size ≤ 150) × IsSound p

-- The payloads one behind the other.
pub encode_payloads_read :
    (ins : ℕ) (ps : List Payload)
    → All IsSendable ps
    → (pss : List (List Str)) × (encode_payloads ins ps ≡ some (joined pss))
      × All (All IsFrame) pss
      × (read_packets pss ≡ contents ps)
unfolding encode_payloads
encode_payloads_read ins [] h = ([], refl, tt, refl)
encode_payloads_read ins (p ∷ ps) ((small, sound), h) =
    let (fs, e, frames, bytes) = payload_frames_read ins p sound small in
    let (pss, e', frames', bytes') = encode_payloads_read ins ps h in
    (fs ∷ pss, rw (e, e'), (frames, frames'), rw (bytes, bytes'))
