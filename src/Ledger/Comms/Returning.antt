-- ===== src/Ledger/Comms/Returning.antt =====
-- When an exchange with a device returns.
use avme_wallet.Base.{
  Bool-cases, Str, ℕ, zero, suc, ◌≡◌, refl, ◌⊎◌, inl, inr, true, false, Option, none, some, List,
  [], ◌∷◌, ◌++◌,
}
use avme_wallet.Ledger.Comms.{
  Hid, message_has_error, packages, buffer_of, timed_out, Link, open_devices, write_frames,
  read_more, exchange_packages, exchange_opened, exchange_message,
}

module _ (h : Hid) where
  -- The timed reads of a device end with one that gives no bytes, behind at most `n` others.
  abbrev pub QuietBehind : ℕ → h.DeviceHandle → h.World → Type 0
  QuietBehind zero handle w = timed_out ((h.read_timeout w handle).0) ≡ true
  QuietBehind (suc n) handle w =
      (timed_out ((h.read_timeout w handle).0) ≡ true)
      ⊎ QuietBehind n handle ((h.read_timeout w handle).1)

  -- hid_read returns, with bytes or with a failure.
  abbrev pub Answers : h.DeviceHandle → h.World → Type 0
  Answers handle w = (r : Option Str × h.World) × (h.read w handle ≡ some r)

  read_more_returns :
      (n : ℕ) (handle : h.DeviceHandle) (w : h.World)
      → QuietBehind n handle w
      → (r : List Str × h.World) × (read_more h (suc n) handle w ≡ some r)
  unfolding read_more
  read_more_returns zero handle w quiet =
      (([], (h.read_timeout w handle).1), rw (quiet, read_more) refl)
  read_more_returns (suc n) handle w (inl quiet) =
      (([], (h.read_timeout w handle).1), rw (quiet, read_more) refl)
  read_more_returns (suc n) handle w (inr later) =
      elim (Bool-cases (timed_out ((h.read_timeout w handle).0))) [
        | inl y ↦ (([], (h.read_timeout w handle).1), rw (y, read_more) refl)
        | inr go ↦
            let (r, e) = read_more_returns n handle ((h.read_timeout w handle).1) later in
            ((buffer_of ((h.read_timeout w handle).0) ∷ r.0, r.1), rw (go, read_more) (rw e refl))
      ]

  exchange_packages_returns :
      (n : ℕ) (handle : h.DeviceHandle)
      → ((w : h.World) → Answers handle w)
      → ((w : h.World) → QuietBehind n handle w)
      → (gs : List (List Str)) (w : h.World)
      → (r : List Str × h.World) × (exchange_packages h (suc n) handle gs w ≡ some r)
  unfolding exchange_packages
  exchange_packages_returns n handle answered quiet [] w = (([], w), refl)
  exchange_packages_returns n handle answered quiet (g ∷ gs) w =
      let ((read, w₁), e_read) = answered (write_frames h handle g w) in
      let answer : Str = buffer_of read in
      elim (Bool-cases (message_has_error answer)) [
        | inl y ↦ ((answer ∷ [], w₁), rw (e_read, exchange_packages) (rw y refl))
        | inr go ↦
            let (more, e_more) = read_more_returns n handle w₁ (quiet w₁) in
            let (rest, e_rest) = exchange_packages_returns n handle answered quiet gs (more.1) in
            (
              (answer ∷ (more.0 ++ rest.0), rest.1),
              rw (e_read, exchange_packages) (rw go (rw (e_more, e_rest) refl)),
            )
      ]

  exchange_opened_returns :
      (n : ℕ) (frames : List Str) (l : Link h) (handle : Option h.DeviceHandle) (w : h.World)
      → ((opened : h.DeviceHandle) (v : h.World) → Answers opened v)
      → ((opened : h.DeviceHandle) (v : h.World) → QuietBehind n opened v)
      → (r : (List Str × Link h) × h.World) × (exchange_opened h (suc n) frames l handle w ≡ some r)
  unfolding exchange_opened
  exchange_opened_returns n frames l none w answered quiet = ((([], l), h.exit w), refl)
  exchange_opened_returns n frames l (some handle) w answered quiet =
      let (r, e) =
        exchange_packages_returns n handle (answered handle) (quiet handle) (packages frames) w in
      (((r.0, l), h.exit (h.close (r.1) handle)), rw e refl)

  -- An exchange returns, whatever is exchanged, if each hid_read of the device returns and its timed
  -- reads end: with a round of fuel more than the packets that come before the end.
  pub exchange_message_returns :
      (n : ℕ) (frames : List Str) (l : Link h) (w : h.World)
      → ((handle : h.DeviceHandle) (v : h.World) → Answers handle v)
      → ((handle : h.DeviceHandle) (v : h.World) → QuietBehind n handle v)
      → (r : (List Str × Link h) × h.World) × (exchange_message h (suc n) frames l w ≡ some r)
  unfolding exchange_message
  exchange_message_returns n frames l w answered quiet =
      let w₁ = (h.init w).1 in
      let found = open_devices h (h.enumerate w₁ l.ledger_vid l.ledger_pid) l.device_handle w₁ in
      elim (Bool-cases ((h.init w).0)) [
        | inl y ↦ ((([], l), w₁), rw (y, exchange_message) refl)
        | inr go ↦
            let (r, e) =
              exchange_opened_returns n frames (record l { device_handle = found.0 }) (found.0)
                (found.1) answered quiet in
            (r, rw (go, exchange_message) e)
      ]

  read_more_fails :
      (handle : h.DeviceHandle)
      → ((v : h.World) → (h.read_timeout v handle).0 ≡ none)
      → (fuel : ℕ) (w : h.World) → read_more h fuel handle w ≡ none
  unfolding read_more
  read_more_fails handle fails zero w = refl
  read_more_fails handle fails (suc fuel) w =
      rw (fails w, read_more)
        (rw (read_more_fails handle fails fuel ((h.read_timeout w handle).1)) refl)

  packages_of_some :
      (frame : Str) (frames : List Str)
      → (g : List Str) × (gs : List (List Str)) × (packages (frame ∷ frames) ≡ g ∷ gs)
  unfolding packages
  packages_of_some a [] = (a ∷ [], [], refl)
  packages_of_some a (b ∷ []) = (a ∷ b ∷ [], [], refl)
  packages_of_some a (b ∷ c ∷ frames) = (a ∷ b ∷ c ∷ [], packages frames, refl)

  -- With a device that is opened, that answers without an error, and whose timed reads fail, as where
  -- it is unplugged then, an exchange of at least one frame does not return, with any fuel.
  pub exchange_message_unplugged :
      (fuel : ℕ) (frame : Str) (frames : List Str) (l : Link h) (w : h.World)
      (handle : h.DeviceHandle)
      → (h.init w).0 ≡ false
      → (open_devices h
          (h.enumerate ((h.init w).1) l.ledger_vid l.ledger_pid)
          l.device_handle
          ((h.init w).1)).0
        ≡ some handle
      → ((v : h.World)
          → (r : Option Str) × (v' : h.World) × (h.read v handle ≡ some (r, v'))
            × (message_has_error (buffer_of r) ≡ false))
      → ((v : h.World) → (h.read_timeout v handle).0 ≡ none)
      → exchange_message h fuel (frame ∷ frames) l w ≡ none
  unfolding exchange_message exchange_opened exchange_packages
  exchange_message_unplugged fuel frame frames l w handle started opened answers fails =
      let (g, gs, e) = packages_of_some frame frames in
      let w₂ =
        (open_devices h (h.enumerate ((h.init w).1) l.ledger_vid l.ledger_pid) l.device_handle
          ((h.init w).1)).1 in
      let (r, v, e_read, good) = answers (write_frames h handle g w₂) in
      rw (started, exchange_message, opened, exchange_opened, e, exchange_packages, e_read)
        (rw (good, read_more_fails handle fails fuel v) refl)
