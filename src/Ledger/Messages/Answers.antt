-- ===== src/Ledger/Messages/Answers.antt =====
-- The address request, and what is read out of answers.
use avme_wallet.Base.{
  not_ltb, ◌>>=◌, length, drop, replicate, length-append, length-take, length-drop,
  length-replicate, All, Str, ℕ, ◌+◌, ◌-◌, ◌%◌, ◌≤◌, ◌<◌, ◌≡◌, refl, ◌↔◌, Bool, none, some, List,
  [], ◌∷◌, ◌++◌, append_assoc, arith,
}
use avme_wallet.Utils.Casts.{Casts}
use avme_wallet.Ledger.Path.{parse_path}
use avme_wallet.Ledger.Frames.{to_buffer, hid_header}
use avme_wallet.Ledger.Frames.Packets.{
  frame_data, packet_size, read_packet, IsFrame, read_one, to_buffer_fits, to_buffer_overrun,
}
use avme_wallet.Ledger.Messages.{
  encode_bip32_message, decode_bip32_message, SignatureStruct, decode_signature,
  decode_sign_eth_message,
}

address_request : ℕ → Str → Str
address_request stray bip32 =
    let payload = 0xE0 ∷ 0x02 ∷ 0 ∷ 0 ∷ (length bip32 % 256) ∷ bip32 in
    hid_header 0 ++ (0 ∷ (length payload % 256) ∷ []) ++ payload ++ stray ∷ []

length-address_request :
    (stray : ℕ) (bip32 : Str) → length (address_request stray bip32) ≡ 14 + length bip32
unfolding address_request hid_header
length-address_request stray bip32 = omega (arith, length-append bip32 (stray ∷ []))

packet_size-request :
    (stray : ℕ) (bip32 rest : Str)
    → length bip32 < 52
    → packet_size ((address_request stray bip32 ++ rest) ∷ []) ≡ length bip32
unfolding address_request hid_header packet_size
packet_size-request stray bip32 rest h = omega arith

frame_data-request :
    (stray : ℕ) (bip32 rest : Str)
    → length bip32 < 52
    → frame_data (address_request stray bip32 ++ rest) ≡ bip32 ++ (stray ∷ rest)
unfolding address_request hid_header frame_data
frame_data-request stray bip32 rest h = append_assoc bip32 (stray ∷ []) rest

request_read :
    (stray : ℕ) (bip32 rest : Str)
    → length bip32 < 52
    → read_packet ((address_request stray bip32 ++ rest) ∷ []) ≡ bip32
request_read stray bip32 rest h =
    read_one (address_request stray bip32 ++ rest) bip32 (stray ∷ rest)
      (packet_size-request stray bip32 rest h) (frame_data-request stray bip32 rest h)

encode_bip32_message_step :
    (c : Casts) (garbage : Bool) (stray : ℕ) (path bip32 : Str)
    → parse_path c garbage path ≡ some bip32
    → encode_bip32_message c garbage stray path
      ≡ (to_buffer (address_request stray bip32) >>= λ buffer. some (buffer ∷ []))
unfolding encode_bip32_message address_request
encode_bip32_message_step c garbage stray path bip32 parsed = rw parsed refl

-- The request for an address is one frame of 65 bytes, and a device reads the path out of it, whatever
-- byte stands behind the vector; a path of 52 bytes or more makes the loop write behind the frame.
pub encode_bip32_message_read :
    (c : Casts) (garbage : Bool) (stray : ℕ) (path bip32 : Str)
    → parse_path c garbage path ≡ some bip32
    → ((length bip32 < 52)
        → (frame : Str) × (encode_bip32_message c garbage stray path ≡ some (frame ∷ []))
          × IsFrame frame
          × (read_packet (frame ∷ []) ≡ bip32))
      × ((52 ≤ length bip32) → encode_bip32_message c garbage stray path ≡ none)
encode_bip32_message_read c garbage stray path bip32 parsed =
    let request = address_request stray bip32 in
    let step = encode_bip32_message_step c garbage stray path bip32 parsed in
    let size = length-address_request stray bip32 in
    (
      λ h. (
        request ++ replicate (65 - length request) 0,
        rw (step, to_buffer_fits request (omega (arith, size))) refl,
        omega (
          arith,
          size,
          length-append request (replicate (65 - length request) 0),
          length-replicate {A = ℕ} (65 - length request) 0,
        ),
        request_read stray bip32 (replicate (65 - length request) 0) h,
      ),
      λ h. rw (step, to_buffer_overrun request (omega (arith, size))) refl,
    )

abbrev pub IsAnswer : Str → Type 0
IsAnswer a = length a ≡ 64

-- From answers of 64 bytes, the address that is read has 42 characters exactly if there are two
-- answers or more: what the wallet tests is the number of answers.
length-decode_bip32_message :
    (answers : List Str)
    → All IsAnswer answers
    → (length (decode_bip32_message answers) ≡ 42) ↔ (2 ≤ length answers)
unfolding decode_bip32_message
length-decode_bip32_message [] h = (λ e. absurd (omega arith), λ e. absurd (omega arith))
length-decode_bip32_message (a ∷ []) h = (λ e. absurd (omega arith), λ e. absurd (omega arith))
length-decode_bip32_message (a ∷ b ∷ answers) (_, (hb, _)) =
    (λ e. omega arith, λ e. omega (arith, length-take 40 (drop 15 b), length-drop 15 b))

signature_read :
    (signature : Str)
    → length signature ≡ 116
    → (sig : SignatureStruct) × (decode_signature signature ≡ some sig)
      × (length sig.r ≡ 32)
      × (length sig.s ≡ 32)
      × (sig.v ≤ 1)
unfolding decode_signature
signature_read [] h = absurd (omega arith)
signature_read (parity ∷ numbers) h = rw (not_ltb (length numbers) 64 (omega arith)) (
  _,
  refl,
  omega (arith, length-take 32 numbers),
  omega (arith, length-take 32 (drop 32 numbers), length-drop 32 numbers),
  ground arith,
)

-- From answers of 64 bytes, two or more, a signature of 32 bytes, 32 bytes and a parity is read. Fewer
-- answers make the read run out of bounds.
decode_sign_eth_message_lem :
    (answers : List Str)
    → All IsAnswer answers
    → ((2 ≤ length answers)
        → (sig : SignatureStruct) × (decode_sign_eth_message answers ≡ some sig)
          × (length sig.r ≡ 32)
          × (length sig.s ≡ 32)
          × (sig.v ≤ 1))
      × ((length answers < 2) → decode_sign_eth_message answers ≡ none)
unfolding decode_sign_eth_message
decode_sign_eth_message_lem [] h = (λ e. absurd (omega arith), λ e. refl)
decode_sign_eth_message_lem (a ∷ []) h = (λ e. absurd (omega arith), λ e. refl)
decode_sign_eth_message_lem (a ∷ b ∷ c ∷ answers) (_, h) =
    let (long, short) = decode_sign_eth_message_lem (b ∷ c ∷ answers) h in
    (λ e. long (omega arith), λ e. absurd (omega arith))
decode_sign_eth_message_lem (a ∷ b ∷ []) (ha, (hb, _)) = (
  λ e.
      signature_read (drop 7 a ++ drop 5 b)
        (omega (arith, length-append (drop 7 a) (drop 5 b), length-drop 7 a, length-drop 5 b)),
  λ e. absurd (omega arith),
)
