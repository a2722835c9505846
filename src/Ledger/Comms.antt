-- ===== src/Ledger/Comms.antt =====
-- lib/ledger/comms.cpp: the communication with a device over hidapi, which is a parameter. `none` is a
-- call that does not return, or an exception.
pub mod Pacing
pub mod Returning
pub mod Arrival
use avme_wallet.Base.{
  ◌==◌, if◌then◌else◌, ◌>>=◌, length, get_elem?, Str, codes, ℕ, zero, suc, Bool, true, false, ◌&&◌,
  not, Option, none, some, List, [], ◌∷◌, ◌++◌,
}
use avme_wallet.Ledger.Frames.{array}
use avme_wallet.Utils.Casts.{Casts}
use avme_wallet.Ledger.Device.{Communication}
use avme_wallet.Ledger.Messages.{encode_bip32_message, decode_bip32_message}

-- The parts of struct hid_device_info that are read.
pub record DeviceInfo : Type 0 where
  pub vendor_id : ℕ
  pub product_id : ℕ
  pub usage_page : ℕ
  pub path : Str

pub record Hid : Type 1 where
  pub World : Type 0
  pub DeviceHandle : Type 0
  -- whether it fails
  pub init : World → Bool × World
  -- the devices of a vendor and a product, where zero stands for any
  pub enumerate : World → ℕ → ℕ → List DeviceInfo
  pub open_path : World → Str → Option DeviceHandle × World
  -- how many bytes were written, or -1
  pub write : World → DeviceHandle → Str → Option ℕ × World
  -- the bytes that were read, or -1; hid_read waits for a packet, and `none` is where it waits for ever
  pub read : World → DeviceHandle → Option (Option Str × World)
  -- the same within 100 ms; no bytes is the end of that time
  pub read_timeout : World → DeviceHandle → Option Str × World
  pub close : World → DeviceHandle → World
  pub exit : World → World

-- ledger_devices_ids
abbrev pub vendor_ids : List ℕ
vendor_ids = 0x2c97 ∷ 0x2c97 ∷ 0x2c97 ∷ 0x2c97 ∷ []

abbrev pub product_ids : List ℕ
product_ids = 0x0001 ∷ 0x0004 ∷ 0x1015 ∷ 0x4015 ∷ []

abbrev pub usage_page_id : ℕ
usage_page_id = 0xffa0

abbrev pub contains_id : ℕ → List ℕ → Bool
contains_id n [] = false
contains_id n (k ∷ ks) = let rest = contains_id n ks in if n == k then true else rest

unfoldable pub find_vendor : List DeviceInfo → Option ℕ
find_vendor [] = none
find_vendor (d ∷ ds) =
    let rest = find_vendor ds in
    if contains_id d.vendor_id vendor_ids then some d.vendor_id else rest

unfoldable pub find_product : List DeviceInfo → Option ℕ
find_product [] = none
find_product (d ∷ ds) =
    let rest = find_product ds in
    if contains_id d.product_id product_ids then some d.product_id else rest

abbrev pub byte_at : ℕ → Str → ℕ
byte_at i s = elim (get_elem? s i) [ none ↦ 0 | some b ↦ b ]

-- messageHasError: a payload of two bytes is an error code, unless a byte of it is 0x90.
unfoldable pub message_has_error : Str → Bool
message_has_error message =
    (byte_at 6 message == 2) && (not (byte_at 7 message == 0x90) && not (byte_at 8 message == 0x90))

-- The packages of at most three frames.
unfoldable pub packages : List Str → List (List Str)
packages [] = []
packages (a ∷ []) = (a ∷ []) ∷ []
packages (a ∷ b ∷ []) = (a ∷ b ∷ []) ∷ []
packages (a ∷ b ∷ c ∷ frames) = (a ∷ b ∷ c ∷ []) ∷ packages frames

-- What of a read stands in the zeroed buffer of 64 bytes.
abbrev pub buffer_of : Option Str → Str
buffer_of none = array 64 []
buffer_of (some bytes) = array 64 bytes

-- res == 0
abbrev pub timed_out : Option Str → Bool
timed_out none = false
timed_out (some []) = true
timed_out (some (b ∷ s)) = false

module _ (h : Hid) where
  -- The fields of the class.
  pub record Link : Type 0 where
    pub ledger_vid : ℕ
    pub ledger_pid : ℕ
    pub device_handle : Option h.DeviceHandle

  unfoldable pub is_ledger_connected : Link → h.World → (Bool × Link) × h.World
  is_ledger_connected l w =
      let (failed, w₁) = h.init w in
      if failed then ((false, l), w₁) else elim (find_vendor (h.enumerate w₁ 0 0)) [
        | none ↦ ((false, l), h.exit w₁)
        | some vid ↦ ((true, record l { ledger_vid = vid }), h.exit w₁)
      ]

  unfoldable pub open_app : Link → h.World → (Bool × Link) × h.World
  open_app l w =
      let (failed, w₁) = h.init w in
      if failed then ((false, l), w₁) else elim (find_product (h.enumerate w₁ l.ledger_vid 0)) [
        | none ↦ ((false, l), h.exit w₁)
        | some pid ↦ ((true, record l { ledger_pid = pid }), h.exit w₁)
      ]

  unfoldable pub is_app_open : Link → h.World → (Bool × Link) × h.World
  is_app_open l w =
      let ((connected, l₁), w₁) = is_ledger_connected l w in
      if not connected then ((false, l₁), w₁) else open_app l₁ w₁

  unfoldable pub open_matching :
      DeviceInfo → Option h.DeviceHandle → h.World → Option h.DeviceHandle × h.World
  open_matching d handle w =
      if d.usage_page == usage_page_id then h.open_path w d.path else (handle, w)

  -- The loop opens every device of the usage page; the last one stays in device_handle.
  unfoldable pub open_devices :
      List DeviceInfo → Option h.DeviceHandle → h.World → Option h.DeviceHandle × h.World
  open_devices [] handle w = (handle, w)
  open_devices (d ∷ ds) handle w =
      let (opened, w') = open_matching d handle w in open_devices ds opened w'

  -- hid_write's result goes to an unsigned int, which is not below zero: a failure is not seen.
  unfoldable pub write_frames : h.DeviceHandle → List Str → h.World → h.World
  write_frames handle [] w = w
  write_frames handle (frame ∷ frames) w = write_frames handle frames ((h.write w handle frame).1)

  -- for (;;) { … if (res == 0) { break; } … }, on fuel; a failure, -1, is not zero.
  unfoldable pub read_more : ℕ → h.DeviceHandle → h.World → Option (List Str × h.World)
  read_more zero handle w = none
  read_more (suc fuel) handle w =
      let (r, w') = h.read_timeout w handle in
      let further : Option (List Str × h.World) = (do
        (rest, w'') ← read_more fuel handle w'
        some (buffer_of r ∷ rest, w'')) in
      if timed_out r then some ([], w') else further

  -- Each group is written and answered; an error ends it.
  unfoldable pub exchange_packages :
      ℕ → h.DeviceHandle → List (List Str) → h.World → Option (List Str × h.World)
  exchange_packages fuel handle [] w = some ([], w)
  exchange_packages fuel handle (group ∷ rest) w = do
    (r, w₁) ← h.read (write_frames handle group w) handle
    let answer = buffer_of r
    if message_has_error answer then some (answer ∷ [], w₁) else do
      (more, w₂) ← read_more fuel handle w₁
      (answers, w₃) ← exchange_packages fuel handle rest w₂
      some (answer ∷ (more ++ answers), w₃)

  -- hid_close of no handle does nothing.
  unfoldable pub exchange_opened :
      ℕ → List Str → Link → Option h.DeviceHandle → h.World → Option ((List Str × Link) × h.World)
  exchange_opened fuel frames l none w = some (([], l), h.exit w)
  exchange_opened fuel frames l (some handle) w = do
    (answers, w') ← exchange_packages fuel handle (packages frames) w
    some ((answers, l), h.exit (h.close w' handle))

  -- device_handle is not reset when it is closed.
  unfoldable pub exchange_message :
      ℕ → List Str → Link → h.World → Option ((List Str × Link) × h.World)
  exchange_message fuel frames l w =
      let (failed, w₁) = h.init w in
      let (handle, w₂) =
        open_devices (h.enumerate w₁ l.ledger_vid l.ledger_pid) l.device_handle w₁ in
      if failed
      then some (([], l), w₁)
      else exchange_opened fuel frames (record l { device_handle = handle }) handle w₂

  module _ (c : Casts) (garbage : Bool) (stray fuel : ℕ) where
    unfoldable pub is_avax_open : Link → h.World → Option ((Bool × Link) × h.World)
    is_avax_open l w =
        let ((connected, l₁), w₁) = is_ledger_connected l w in
        let ((app, l₂), w₂) = is_app_open l₁ w₁ in
        if not connected
        then some ((false, l₁), w₁)
        else if not app
        then some ((false, l₂), w₂)
        else do
          request ← encode_bip32_message c garbage stray (codes "m/44'/60'/0'/0")
          ((answers, l₃), w₃) ← exchange_message fuel request l₂ w₂
          some ((length (decode_bip32_message answers) == 42, l₃), w₃)

    -- The object and the devices, or `none` behind a call that does not return.
    abbrev pub Linked : Type 0
    Linked = Option (Link × h.World)

    abbrev asked : (Link → h.World → Option ((Bool × Link) × h.World)) → Linked → Bool × Linked
    asked call none = (false, none)
    asked call (some (l, w)) = elim (call l w) [
      | none ↦ (false, none)
      | some r ↦ (r.0.0, some (r.0.1, r.1))
    ]

    abbrev exchanged : List Str → Linked → List Str × Linked
    exchanged frames none = ([], none)
    exchanged frames (some (l, w)) = elim (exchange_message fuel frames l w) [
      | none ↦ ([], none)
      | some r ↦ (r.0.0, some (r.0.1, r.1))
    ]

    -- What the device of ledger.cpp has as its communication.
    unfoldable pub communication : Communication
    communication = record {
      World = Linked;
      is_ledger_connected = λ w. asked (λ l v. some (is_ledger_connected l v)) w;
      is_app_open = λ w. asked (λ l v. some (is_app_open l v)) w;
      is_avax_open = λ w. asked is_avax_open w;
      exchange_message = λ w frames. exchanged frames w;
    }
