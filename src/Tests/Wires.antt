-- ===== src/Tests/Wires.antt =====
-- lib/ledger/comms.cpp at concrete inputs.
use avme_wallet.Base.{
  some_inj, Str, codes, ℕ, ◌≡◌, refl, sym, ap, ◌⊎◌, inl, inr, Bool, true, false, Option, none, some,
  List, [], ◌∷◌, ◌++◌, arith,
}
use avme_wallet.Ledger.Path.{big_endian, big_endians}
use avme_wallet.Ledger.Chunks.{fill, cut_payload, cut_rounds, cut_transaction}
use avme_wallet.Ledger.Frames.{
  to_buffer, array, hid_header, apdu_header, first_frame, frame_if_any, payload_frames,
  encode_payloads,
}
use avme_wallet.Ledger.Frames.Reading.{joined, read_packets}
use avme_wallet.Ledger.Messages.{encode_sign_eth_message}
use avme_wallet.Ledger.Comms.{
  DeviceInfo, Hid, message_has_error, packages, Link, open_matching, open_devices, write_frames,
  read_more, exchange_packages, exchange_opened, exchange_message,
}
use avme_wallet.Ledger.Comms.Pacing.{
  Event, wrote, waited, written_frames, taken_frames, paced, Logged, EndsInError,
  exchange_message_paced,
}
use avme_wallet.Ledger.Comms.Returning.{
  QuietBehind, exchange_message_returns, exchange_message_unplugged,
}
use avme_wallet.Ledger.Comms.Arrival.{transaction_arrives}
use avme_wallet.Tests.Conversions.{conversions}
use avme_wallet.Tests.Devices.{path, path_bytes, path_parsed, path_bytes-length}

-- A device with one interface, which keeps what happens to it, and has one packet more behind the first
-- answer or not.
abbrev Bench : Type 0
Bench = List Event × Bool

abbrev nano : DeviceInfo
nano = record { vendor_id = 0x2c97; product_id = 0x1015; usage_page = 0xffa0; path = codes "usb" }

abbrev further_packet : Bool → Option Str
further_packet true = some (7 ∷ [])
further_packet false = some []

abbrev bench_with : (Bool → Option Str) → Hid
bench_with packet = record {
  World = Bench;
  DeviceHandle = ℕ;
  init = λ w. (false, w);
  enumerate = λ w vid pid. nano ∷ [];
  open_path = λ w path. (some 1, w);
  write = λ w handle frame. (some 65, (w.0 ++ wrote true frame ∷ [], w.1));
  read = λ w handle. some (some (1 ∷ 1 ∷ 5 ∷ []), (w.0 ++ waited ∷ [], true));
  read_timeout = λ w handle. (packet (w.1), (w.0, false));
  close = λ w handle. w;
  exit = λ w. w;
}

abbrev bench : Hid
bench = bench_with further_packet

-- The same without a device behind the first answer.
abbrev unplugged : Hid
unplugged = bench_with (λ b. none)

abbrev bench-Logged : Logged bench
bench-Logged = record {
  log = λ w. w.0;
  log-init = λ w. refl;
  log-open_path = λ w path. refl;
  log-write = λ w handle frame. refl;
  log-read = λ w w' handle r e. sym (ap (λ x. (x.1).0) (some_inj e));
  log-read_timeout = λ w handle. refl;
  log-close = λ w handle. refl;
  log-exit = λ w. refl;
}

abbrev no_link : Link bench
no_link = record { ledger_vid = 0x2c97; ledger_pid = 0x1015; device_handle = none }

abbrev unplugged_link : Link unplugged
unplugged_link = record { ledger_vid = 0x2c97; ledger_pid = 0x1015; device_handle = none }

-- Four frames, which go in two groups.
abbrev four : List Str
four = (1 ∷ []) ∷ (2 ∷ []) ∷ (3 ∷ []) ∷ (4 ∷ []) ∷ []

abbrev answer : Str
answer = array 64 (1 ∷ 1 ∷ 5 ∷ [])

abbrev more : Str
more = array 64 (7 ∷ [])

abbrev linked : Link bench
linked = record { ledger_vid = 0x2c97; ledger_pid = 0x1015; device_handle = some 1 }

abbrev logged : List Event
logged =
    wrote true (1 ∷ [])
    ∷ wrote true (2 ∷ [])
    ∷ wrote true (3 ∷ [])
    ∷ waited
    ∷ wrote true (4 ∷ [])
    ∷ waited
    ∷ []

exchange_message_paced_example :
    (es : List Event) × (left : List Str) × (logged ≡ [] ++ es)
    × (paced 0 es ≡ true)
    × (written_frames es ++ left ≡ four)
    × ((left ≡ [])
        ⊎ (answer ∷ more ∷ answer ∷ more ∷ [] ≡ [])
        ⊎ EndsInError (answer ∷ more ∷ answer ∷ more ∷ []))
unfolding exchange_message exchange_opened exchange_packages read_more write_frames open_devices
    open_matching packages message_has_error
exchange_message_paced_example =
    exchange_message_paced bench bench-Logged 2 four no_link linked ([], false) (logged, false)
      (answer ∷ more ∷ answer ∷ more ∷ []) refl

quiet : (handle : ℕ) (v : Bench) → QuietBehind bench 1 handle v
quiet handle (es, true) = inr refl
quiet handle (es, false) = inl refl

exchange_message_returns_example :
    (r : (List Str × Link bench) × Bench) × (exchange_message bench 2 four no_link ([], false)
      ≡ some r)
exchange_message_returns_example =
    exchange_message_returns bench 1 four no_link ([], false) (λ handle v. (_, refl)) quiet

exchange_message_unplugged_example :
    exchange_message unplugged 9 four unplugged_link ([], false) ≡ none
unfolding open_devices open_matching message_has_error
exchange_message_unplugged_example =
    exchange_message_unplugged unplugged 9 (1 ∷ []) ((2 ∷ []) ∷ (3 ∷ []) ∷ (4 ∷ []) ∷ [])
      unplugged_link ([], false) 1 refl refl (λ v. (_, _, refl, refl)) (λ v. refl)

-- The one frame of a short transaction.
abbrev transaction_frame : Str
transaction_frame =
    array 65
      (hid_header 0 ++ (0 ∷ 17 ∷ []) ++ apdu_header 0x04 true 12 ++ (path_bytes ++ codes "rlp"))

request_encoded :
    encode_sign_eth_message conversions false (codes "rlp") path ≡ some (transaction_frame ∷ [])
unfolding encode_sign_eth_message cut_transaction cut_rounds cut_payload fill encode_payloads
    payload_frames frame_if_any first_frame to_buffer hid_header apdu_header big_endians big_endian
request_encoded = rw (path_parsed, encode_sign_eth_message) refl

abbrev arrival : List Event
arrival = wrote true transaction_frame ∷ waited ∷ []

transaction_arrives_example :
    (packets : List (List Str)) × (paced 0 arrival ≡ true)
    × (taken_frames arrival ≡ joined packets)
    × (read_packets packets ≡ path_bytes ++ codes "rlp")
unfolding exchange_message exchange_opened exchange_packages read_more write_frames open_devices
    open_matching packages message_has_error
transaction_arrives_example =
    transaction_arrives bench bench-Logged conversions false (codes "rlp") path path_bytes
      (transaction_frame ∷ []) 2 no_link linked ([], false) (arrival, false) (answer ∷ more ∷ [])
      arrival path_parsed (omega (arith, path_bytes-length)) (λ e. cc) request_encoded refl
      (λ e. cc) (refl, (refl, tt)) refl refl
