-- ===== src/Tests/Devices.antt =====
-- lib/ledger at concrete inputs.
use avme_wallet.Base.{
  length, replicate, All, Str, codes, ◌≤◌, ◌<◌, ◌≡◌, refl, true, false, none, some, List, [], ◌∷◌,
  ◌++◌, arith,
}
use avme_wallet.Tests.Conversions.{conversions, conversions-CastLaws}
use avme_wallet.Ledger.Path.{big_endian, big_endians, parse_path}
use avme_wallet.Ledger.Path.RoundTrip.{Step, path_text, parse_path-path_text}
use avme_wallet.Ledger.Chunks.{Payload, cut_personal_message}
use avme_wallet.Ledger.Chunks.Cut.{content}
use avme_wallet.Ledger.Chunks.Personal.{message_header, cut_personal_message_long}
use avme_wallet.Ledger.Frames.Packets.{read_packet, IsFrame}
use avme_wallet.Ledger.Frames.Reading.{joined, read_packets}
use avme_wallet.Ledger.Messages.{encode_bip32_message, encode_sign_eth_message}
use avme_wallet.Ledger.Messages.Signing.{encode_sign_eth_message_read}
use avme_wallet.Ledger.Messages.Answers.{encode_bip32_message_read}

abbrev pub purpose : Step
purpose = record { index = 44; is_hard = true }

abbrev pub coin : Step
coin = record { index = 60; is_hard = true }

abbrev pub path : Str
path = codes "m/" ++ path_text conversions purpose (coin ∷ [])

abbrev pub path_bytes : Str
path_bytes = 2 ∷ big_endians (0x8000002C ∷ 0x8000003C ∷ [])

pub path_parsed : parse_path conversions false path ≡ some path_bytes
path_parsed =
    parse_path-path_text conversions conversions-CastLaws false purpose (coin ∷ []) (omega arith)

pub path_bytes-length : length path_bytes ≡ 9
unfolding big_endians big_endian
path_bytes-length = refl

encode_sign_eth_message_read_example :
    (pss : List (List Str)) × (encode_sign_eth_message conversions false (codes "rlp") path
      ≡ some (joined pss))
    × All (All IsFrame) pss
    × (read_packets pss ≡ path_bytes ++ codes "rlp")
encode_sign_eth_message_read_example =
    encode_sign_eth_message_read conversions false (codes "rlp") path path_bytes path_parsed
      (omega (arith, path_bytes-length)) (λ e. cc)

encode_bip32_message_read_example :
    ((length path_bytes < 52)
      → (frame : Str) × (encode_bip32_message conversions false 7 path ≡ some (frame ∷ []))
        × IsFrame frame
        × (read_packet (frame ∷ []) ≡ path_bytes))
    × ((52 ≤ length path_bytes) → encode_bip32_message conversions false 7 path ≡ none)
encode_bip32_message_read_example =
    encode_bip32_message_read conversions false 7 path path_bytes path_parsed

abbrev answers : List Str
answers = replicate 64 1 ∷ replicate 64 2 ∷ []

abbrev long_message : Str
long_message = replicate 200 b'a'

cut_personal_message_long_example :
    (p q : Payload) × (ps : List Payload) × (left part left' : Str) × (cut_personal_message
        path_bytes long_message
      ≡ p ∷ q ∷ ps)
    × (content p ++ left ≡ message_header path_bytes long_message ++ long_message)
    × (q.is_hid_first_message ≡ true)
    × (content q ≡ message_header path_bytes long_message ++ part)
    × (0 < length part)
    × (part ++ left' ≡ left)
cut_personal_message_long_example =
    cut_personal_message_long path_bytes long_message (omega (arith, path_bytes-length))
      (omega (arith, path_bytes-length))
