-- ===== src/Ledger/Frames/Packets.antt =====
-- How a device reads a packet out of its frames, with the lemmas on buffers and cuts.
use avme_wallet.Base.{
  ◌==◌, if◌then◌else◌, le→leb, not_leb, length, get_elem?, take, drop, replicate, length-append,
  take-append, length-replicate, Str, ℕ, ◌+◌, ◌-◌, ◌≤◌, ◌<◌, ◌≡◌, refl, none, some, List, [], ◌∷◌,
  ◌++◌, append_assoc, append-nil, arith,
}
use avme_wallet.Ledger.Frames.{to_buffer, array}

-- The frame of index 0 carries the APDU header, whose last byte counts the packet's bytes; the later
-- frames of the packet carry bytes alone.
unfoldable pub frame_data : Str → Str
frame_data (report ∷ ch₁ ∷ ch₂ ∷ tag ∷ high ∷ low ∷ rest) = if low == 0 then drop 7 rest else rest
frame_data bytes = []

unfoldable pub frames_data : List Str → Str
frames_data [] = []
frames_data (f ∷ fs) = frame_data f ++ frames_data fs

unfoldable pub packet_size : List Str → ℕ
packet_size [] = 0
packet_size (f ∷ fs) = elim (get_elem? f 12) [ none ↦ 0 | some lc ↦ lc ]

unfoldable pub read_packet : List Str → Str
read_packet fs = take (packet_size fs) (frames_data fs)

abbrev pub IsFrame : Str → Type 0
IsFrame f = length f ≡ 65

-- A read of one frame.
pub read_one :
    (f s t : Str)
    → packet_size (f ∷ []) ≡ length s
    → frame_data f ≡ s ++ t
    → read_packet (f ∷ []) ≡ s
unfolding read_packet frames_data
read_one f s t p q = rw (p, q, append-nil (s ++ t)) (take-append s t (length s) refl)

pub to_buffer_fits :
    (s : Str) → length s ≤ 65 → to_buffer s ≡ some (s ++ replicate (65 - length s) 0)
unfolding to_buffer
to_buffer_fits s h = rw (le→leb (length s) 65 h) refl

pub to_buffer_overrun : (s : Str) → 65 < length s → to_buffer s ≡ none
unfolding to_buffer
to_buffer_overrun s h = rw (not_leb (length s) 65 h) refl

pub full_array : (n : ℕ) (s : Str) → length s ≡ n → array n s ≡ s
full_array n s e = let z : n - length s ≡ 0 = omega arith in rw z (append-nil s)

pub length-array : (n : ℕ) (s : Str) → length s ≤ n → length (array n s) ≡ n
length-array n s h =
    omega (
      arith,
      length-append s (replicate (n - length s) 0),
      length-replicate {A = ℕ} (n - length s) 0,
    )

pub to_buffer_full : (s : Str) → length s ≡ 65 → to_buffer s ≡ some s
unfolding to_buffer
to_buffer_full s e = rw (e, append-nil s)

pub read_two :
    (f g d e : Str) (n : ℕ)
    → packet_size (f ∷ g ∷ []) ≡ n
    → frame_data f ≡ d
    → frame_data g ≡ e
    → read_packet (f ∷ g ∷ []) ≡ take n (d ++ e)
unfolding read_packet frames_data
read_two f g d e n p q r = rw (p, q, r, append-nil e)

pub read_three :
    (f g h d e k : Str) (n : ℕ)
    → packet_size (f ∷ g ∷ h ∷ []) ≡ n
    → frame_data f ≡ d
    → frame_data g ≡ e
    → frame_data h ≡ k
    → read_packet (f ∷ g ∷ h ∷ []) ≡ take n (d ++ (e ++ k))
unfolding read_packet frames_data
read_three f g h d e k n p q r t = rw (p, q, r, t, append-nil k)

pub take_front :
    (s t rest : Str) (n : ℕ) → n ≡ length s + length t → take n (s ++ (t ++ rest)) ≡ s ++ t
take_front s t rest n e =
    rw (← append_assoc s t rest) (take-append (s ++ t) rest n (omega (arith, length-append s t)))

pub take_front_three :
    (s t u a b : Str) (n : ℕ)
    → n ≡ length s + length t + length u
    → take n (s ++ (t ++ (u ++ a ++ b))) ≡ s ++ t ++ u
take_front_three s t u a b n e =
    rw (append_assoc u a b, ← append_assoc s t (u ++ (a ++ b)))
      (take_front (s ++ t) u (a ++ b) n (omega (arith, length-append s t)))
