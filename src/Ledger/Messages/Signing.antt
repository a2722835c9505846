-- ===== src/Ledger/Messages/Signing.antt =====
-- A transaction arrives at the device as it was sent.
use avme_wallet.Base.{length, All, Str, ◌≤◌, ◌≡◌, ◌∙◌, ◌≢◌, Bool, some, List, [], ◌∷◌, ◌++◌}
use avme_wallet.Utils.Casts.{Casts}
use avme_wallet.Ledger.Path.{parse_path}
use avme_wallet.Ledger.Chunks.{Payload}
use avme_wallet.Ledger.Chunks.Whole.{IsLater, cut_transaction_whole}
use avme_wallet.Ledger.Frames.Packets.{IsFrame}
use avme_wallet.Ledger.Frames.Reading.{joined, read_packets, IsSendable, encode_payloads_read}
use avme_wallet.Ledger.Messages.{encode_sign_eth_message}

sendable : (ps : List Payload) → All IsLater ps → All IsSendable ps
sendable [] h = tt
sendable (p ∷ ps) ((_, small, sound), h) = ((small, sound), sendable ps h)

-- The frames of a transaction of at least one byte, under a path of at most 52 bytes, have 65 bytes
-- each, and what a device reads out of them is the path and then the whole transaction.
pub encode_sign_eth_message_read :
    (c : Casts) (garbage : Bool) (rlp path bip32 : Str)
    → parse_path c garbage path ≡ some bip32
    → length bip32 ≤ 52
    → rlp ≢ []
    → (pss : List (List Str)) × (encode_sign_eth_message c garbage rlp path ≡ some (joined pss))
      × All (All IsFrame) pss
      × (read_packets pss ≡ bip32 ++ rlp)
unfolding encode_sign_eth_message
encode_sign_eth_message_read c garbage rlp path bip32 parsed short ne =
    let (p, ps, cut, _, small, sound, later, whole) = cut_transaction_whole bip32 rlp short ne in
    let (pss, sent, frames, bytes) =
      encode_payloads_read 0x04 (p ∷ ps) ((small, sound), sendable ps later) in
    (pss, rw (parsed, cut) sent, frames, bytes ∙ whole)
