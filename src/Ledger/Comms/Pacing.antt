-- ===== src/Ledger/Comms/Pacing.antt =====
-- What is written to a device: the frames in their order, and at most three of them before an answer is
-- waited for.
use avme_wallet.Base.{
  ltb, ◌==◌, Bool-cases, bind-eq-some, some_inj, All, Str, ℕ, zero, suc, ◌≡◌, refl, sym, ap, ◌∙◌,
  subst, ◌⊎◌, inl, inr, Bool, true, false, ◌&&◌, Option, none, some, List, [], ◌∷◌, ◌++◌,
  append_assoc, append-nil,
}
use avme_wallet.Ledger.Comms.{
  DeviceInfo, Hid, usage_page_id, message_has_error, packages, buffer_of, timed_out, Link,
  open_matching, open_devices, write_frames, read_more, exchange_packages, exchange_opened,
  exchange_message,
}

pub data Event : Type 0 where
  -- whether hid_write took the frame, which the code does not see
  wrote : Bool → Str → Event
  waited : Event

-- The frames that hid_write was called with, in order; those of them that it took, and the others.
abbrev pub written_frames : List Event → List Str
written_frames [] = []
written_frames (wrote taken frame ∷ es) = frame ∷ written_frames es
written_frames (waited ∷ es) = written_frames es

abbrev pub taken_frames : List Event → List Str
taken_frames [] = []
taken_frames (wrote true frame ∷ es) = frame ∷ taken_frames es
taken_frames (wrote false frame ∷ es) = taken_frames es
taken_frames (waited ∷ es) = taken_frames es

abbrev pub lost_frames : List Event → List Str
lost_frames [] = []
lost_frames (wrote true frame ∷ es) = lost_frames es
lost_frames (wrote false frame ∷ es) = frame ∷ lost_frames es
lost_frames (waited ∷ es) = lost_frames es

-- With `n` frames that are not answered yet, there are never more than three.
abbrev pub paced : ℕ → List Event → Bool
paced n [] = true
paced n (wrote taken frame ∷ es) = ltb n 3 && paced (suc n) es
paced n (waited ∷ es) = paced 0 es

abbrev pub is_taken : Option ℕ → Bool
is_taken none = false
is_taken (some n) = true

-- A device that keeps what happens to it: the writes, and what is waited for.
pub record Logged (h : Hid) : Type 0 where
  pub log : h.World → List Event
  pub log-init : (w : h.World) → log ((h.init w).1) ≡ log w
  pub log-open_path : (w : h.World) (path : Str) → log ((h.open_path w path).1) ≡ log w
  pub log-write :
      (w : h.World) (handle : h.DeviceHandle) (frame : Str)
      → log ((h.write w handle frame).1)
        ≡ log w ++ wrote (is_taken ((h.write w handle frame).0)) frame ∷ []
  pub log-read :
      (w w' : h.World) (handle : h.DeviceHandle) (r : Option Str)
      → h.read w handle ≡ some (r, w')
      → log w' ≡ log w ++ waited ∷ []
  pub log-read_timeout :
      (w : h.World) (handle : h.DeviceHandle) → log ((h.read_timeout w handle).1) ≡ log w
  pub log-close : (w : h.World) (handle : h.DeviceHandle) → log (h.close w handle) ≡ log w
  pub log-exit : (w : h.World) → log (h.exit w) ≡ log w

abbrev pub EndsInError : List Str → Type 0
EndsInError answers =
    (before : List Str) × (last : Str) × (answers ≡ before ++ last ∷ [])
    × (message_has_error last ≡ true)

data IsGroup : List Str → Type 0 where
  one : (a : Str) → IsGroup (a ∷ [])
  two : (a b : Str) → IsGroup (a ∷ b ∷ [])
  three : (a b c : Str) → IsGroup (a ∷ b ∷ c ∷ [])

abbrev joined_groups : List (List Str) → List Str
joined_groups [] = []
joined_groups (g ∷ gs) = g ++ joined_groups gs

packages-IsGroup : (frames : List Str) → All IsGroup (packages frames)
unfolding packages
packages-IsGroup [] = tt
packages-IsGroup (a ∷ []) = (one a, tt)
packages-IsGroup (a ∷ b ∷ []) = (two a b, tt)
packages-IsGroup (a ∷ b ∷ c ∷ frames) = (three a b c, packages-IsGroup frames)

packages_joined : (frames : List Str) → joined_groups (packages frames) ≡ frames
unfolding packages
packages_joined [] = refl
packages_joined (a ∷ []) = refl
packages_joined (a ∷ b ∷ []) = refl
packages_joined (a ∷ b ∷ c ∷ frames) = rw (packages_joined frames) refl

joined_log :
    (before g es : List Event) → (before ++ (g ++ waited ∷ [])) ++ es ≡ before ++ (g ++ waited ∷ es)
joined_log before g es =
    append_assoc before (g ++ waited ∷ []) es
    ∙ ap (λ x. before ++ x) (append_assoc g (waited ∷ []) es)

later_error :
    (left : List Str) (a : Str) (more answers : List Str)
    → (left ≡ []) ⊎ EndsInError answers
    → (left ≡ []) ⊎ EndsInError (a ∷ (more ++ answers))
later_error left a more answers (inl e) = inl e
later_error left a more answers (inr (before, last, e, bad)) = inr (
  a ∷ (more ++ before),
  last,
  ap (◌∷◌ a) (rw e (sym (append_assoc more before (last ∷ [])))),
  bad,
)

module _ (h : Hid) (t : Logged h) where
  open t use {
    log, log-init, log-open_path, log-write, log-read, log-read_timeout, log-close, log-exit,
  }

  log-open_matching :
      (d : DeviceInfo) (handle : Option h.DeviceHandle) (w : h.World)
      → log ((open_matching h d handle w).1) ≡ log w
  unfolding open_matching
  log-open_matching d handle w = elim (Bool-cases (d.usage_page == usage_page_id)) [
    | inl y ↦ rw (y, open_matching) (log-open_path w d.path)
    | inr n ↦ rw (n, open_matching) refl
  ]

  log-open_devices :
      (ds : List DeviceInfo) (handle : Option h.DeviceHandle) (w : h.World)
      → log ((open_devices h ds handle w).1) ≡ log w
  unfolding open_devices
  log-open_devices [] handle w = refl
  log-open_devices (d ∷ ds) handle w =
      log-open_devices ds ((open_matching h d handle w).0) ((open_matching h d handle w).1)
      ∙ log-open_matching d handle w

  sent_events : h.DeviceHandle → List Str → h.World → List Event
  sent_events handle [] w = []
  sent_events handle (frame ∷ frames) w =
      wrote (is_taken ((h.write w handle frame).0)) frame
      ∷ sent_events handle frames ((h.write w handle frame).1)

  written_frames-sent_events :
      (handle : h.DeviceHandle) (frames : List Str) (w : h.World) (es : List Event)
      → written_frames (sent_events handle frames w ++ waited ∷ es) ≡ frames ++ written_frames es
  unfolding sent_events
  written_frames-sent_events handle [] w es = refl
  written_frames-sent_events handle (frame ∷ frames) w es =
      ap (◌∷◌ frame) (written_frames-sent_events handle frames ((h.write w handle frame).1) es)

  paced-group :
      {g : List Str} (handle : h.DeviceHandle) (w : h.World) (es : List Event)
      → IsGroup g
      → paced 0 (sent_events handle g w ++ waited ∷ es) ≡ paced 0 es
  unfolding sent_events
  paced-group handle w es (one a) = refl
  paced-group handle w es (two a b) = refl
  paced-group handle w es (three a b c) = refl

  log-write_frames :
      (handle : h.DeviceHandle) (frames : List Str) (w : h.World)
      → log (write_frames h handle frames w) ≡ log w ++ sent_events handle frames w
  unfolding write_frames sent_events
  log-write_frames handle [] w = sym (append-nil (log w))
  log-write_frames handle (frame ∷ frames) w =
      log-write_frames handle frames ((h.write w handle frame).1)
      ∙ rw (log-write w handle frame) (
          append_assoc (log w) (wrote (is_taken ((h.write w handle frame).0)) frame ∷ [])
            (sent_events handle frames ((h.write w handle frame).1)))

  log-read_more :
      (fuel : ℕ) (handle : h.DeviceHandle) (w w' : h.World) (answers : List Str)
      → read_more h fuel handle w ≡ some (answers, w')
      → log w' ≡ log w
  unfolding read_more
  log-read_more zero handle w w' answers e = cc
  log-read_more (suc fuel) handle w w' answers e =
      let r = (h.read_timeout w handle).0 in
      let w₁ = (h.read_timeout w handle).1 in
      elim (Bool-cases (timed_out r)) [
        | inl y ↦
            ap log (sym (ap (λ x. x.1) (some_inj (rw (y, read_more) at e))))
            ∙ log-read_timeout w handle
        | inr n ↦
            let ((rest, w₂), e_more, e_rest) =
              bind-eq-some (read_more h fuel handle w₁) _ (rw (n, read_more) at e) in
            ap log (sym (ap (λ x. x.1) (some_inj e_rest)))
            ∙ log-read_more fuel handle w₁ w₂ rest e_more
            ∙ log-read_timeout w handle
      ]

  log-group :
      (handle : h.DeviceHandle) (g : List Str) (w w' : h.World) (r : Option Str)
      → h.read (write_frames h handle g w) handle ≡ some (r, w')
      → log w' ≡ log w ++ (sent_events handle g w ++ waited ∷ [])
  log-group handle g w w' r e =
      log-read (write_frames h handle g w) w' handle r e
      ∙ rw (log-write_frames handle g w)
          (append_assoc (log w) (sent_events handle g w) (waited ∷ []))

  abbrev Exchanged : List Str → List Str → h.World → h.World → Type 0
  Exchanged frames answers w w' =
      (es : List Event) × (left : List Str) × (log w' ≡ log w ++ es)
      × (paced 0 es ≡ true)
      × (written_frames es ++ left ≡ frames)
      × ((left ≡ []) ⊎ EndsInError answers)

  extended :
      (handle : h.DeviceHandle) (frames g : List Str) (a : Str) (more answers : List Str)
      (w w₁ w' : h.World)
      → IsGroup g
      → log w₁ ≡ log w ++ (sent_events handle g w ++ waited ∷ [])
      → Exchanged frames answers w₁ w'
      → Exchanged (g ++ frames) (a ∷ (more ++ answers)) w w'
  extended handle frames g a more answers w w₁ w' group e
        (es, left, e_log, pace, e_frames, ending) =
      (
        sent_events handle g w ++ waited ∷ es,
        left,
        e_log ∙ rw e (joined_log (log w) (sent_events handle g w) es),
        paced-group handle w es group ∙ pace,
        rw (written_frames-sent_events handle g w es)
            (append_assoc g (written_frames es) left ∙ ap (λ x. g ++ x) e_frames),
        later_error left a more answers ending,
      )

  exchange_packages_paced :
      (fuel : ℕ) (handle : h.DeviceHandle) (gs : List (List Str)) (w w' : h.World)
      (answers : List Str)
      → All IsGroup gs
      → exchange_packages h fuel handle gs w ≡ some (answers, w')
      → Exchanged (joined_groups gs) answers w w'
  unfolding exchange_packages
  exchange_packages_paced fuel handle [] w w' answers groups e = (
    [],
    [],
    ap log (sym (ap (λ x. x.1) (some_inj e))) ∙ sym (append-nil (log w)),
    refl,
    refl,
    inl refl,
  )
  exchange_packages_paced fuel handle (g ∷ gs) w w' answers (group, groups) e =
      let ((r, w₁), e_read, e') = bind-eq-some (h.read (write_frames h handle g w) handle) _ e in
      elim (Bool-cases (message_has_error (buffer_of r))) [
        | inl y ↦
            let e1 = some_inj (rw y at e') in
            (
              sent_events handle g w ++ waited ∷ [],
              joined_groups gs,
              ap log (sym (ap (λ x. x.1) e1)) ∙ log-group handle g w w₁ r e_read,
              paced-group handle w [] group,
              rw (written_frames-sent_events handle g w []) (append_assoc g [] (joined_groups gs)),
              inr ([], buffer_of r, sym (ap (λ x. x.0) e1), y),
            )
        | inr n ↦
            let ((more, w₂), e_more, e1) =
              bind-eq-some (read_more h fuel handle w₁) _ (rw n at e') in
            let ((rest, w₃), e_rest, e2) =
              bind-eq-some (exchange_packages h fuel handle gs w₂) _ e1 in
            let later = exchange_packages_paced fuel handle gs w₂ w₃ rest groups e_rest in
            let e_log =
              log-read_more fuel handle w₁ w₂ more e_more ∙ log-group handle g w w₁ r e_read in
            subst (λ (x : List Str × h.World). Exchanged (g ++ joined_groups gs) (x.0) w (x.1))
              (some_inj e2)
              (extended handle (joined_groups gs) g (buffer_of r) more rest w w₂ w₃ group e_log
                later)
      ]

  abbrev Outcome : List Str → List Str → h.World → h.World → Type 0
  Outcome frames answers w w' =
      (es : List Event) × (left : List Str) × (log w' ≡ log w ++ es)
      × (paced 0 es ≡ true)
      × (written_frames es ++ left ≡ frames)
      × ((left ≡ []) ⊎ (answers ≡ []) ⊎ EndsInError answers)

  nothing_written :
      (frames answers : List Str) (w w' : h.World)
      → answers ≡ []
      → log w' ≡ log w
      → Outcome frames answers w w'
  nothing_written frames answers w w' e_answers e_log =
      ([], frames, e_log ∙ sym (append-nil (log w)), refl, refl, inr (inl e_answers))

  weaker :
      (left answers : List Str)
      → (left ≡ []) ⊎ EndsInError answers
      → (left ≡ []) ⊎ (answers ≡ []) ⊎ EndsInError answers
  weaker left answers (inl e) = inl e
  weaker left answers (inr e) = inr (inr e)

  exchange_opened_paced :
      (fuel : ℕ) (frames : List Str) (l l' : Link h) (handle : Option h.DeviceHandle)
      (w w' : h.World) (answers : List Str)
      → exchange_opened h fuel frames l handle w ≡ some ((answers, l'), w')
      → Outcome frames answers w w'
  unfolding exchange_opened
  exchange_opened_paced fuel frames l l' none w w' answers e =
      nothing_written frames answers w w' (sym (ap (λ x. x.0.0) (some_inj e)))
        (ap log (sym (ap (λ x. x.1) (some_inj e))) ∙ log-exit w)
  exchange_opened_paced fuel frames l l' (some handle) w w' answers e =
      let ((found, w₁), e_packages, e1) =
        bind-eq-some (exchange_packages h fuel handle (packages frames) w) _ e in
      let (es, left, e_log, pace, e_frames, ending) =
        exchange_packages_paced fuel handle (packages frames) w w₁ found (packages-IsGroup frames)
          e_packages in
      let e_answers : found ≡ answers = ap (λ x. x.0.0) (some_inj e1) in
      (
        es,
        left,
        ap log (sym (ap (λ x. x.1) (some_inj e1)))
            ∙ log-exit (h.close w₁ handle)
            ∙ log-close w₁ handle
            ∙ e_log,
        pace,
        e_frames ∙ packages_joined frames,
        subst (λ x. (left ≡ []) ⊎ (x ≡ []) ⊎ EndsInError x) e_answers (weaker left found ending),
      )

  -- For an exchange that returns, over a device that keeps what happens to it: there are never more than
  -- three frames that are not waited for, and the frames that hid_write is called with are the given ones in their
  -- order: all of them, unless the exchange gives no answers or its last answer is an error.
  pub exchange_message_paced :
      (fuel : ℕ) (frames : List Str) (l l' : Link h) (w w' : h.World) (answers : List Str)
      → exchange_message h fuel frames l w ≡ some ((answers, l'), w')
      → (es : List Event) × (left : List Str) × (log w' ≡ log w ++ es)
        × (paced 0 es ≡ true)
        × (written_frames es ++ left ≡ frames)
        × ((left ≡ []) ⊎ (answers ≡ []) ⊎ EndsInError answers)
  unfolding exchange_message
  exchange_message_paced fuel frames l l' w w' answers e =
      let w₁ = (h.init w).1 in
      let ds = h.enumerate w₁ l.ledger_vid l.ledger_pid in
      let handle = (open_devices h ds l.device_handle w₁).0 in
      let w₂ = (open_devices h ds l.device_handle w₁).1 in
      elim (Bool-cases ((h.init w).0)) [
        | inl y ↦
            let e1 = some_inj (rw (y, exchange_message) at e) in
            nothing_written frames answers w w' (sym (ap (λ x. x.0.0) e1))
              (ap log (sym (ap (λ x. x.1) e1)) ∙ log-init w)
        | inr n ↦
            let (es, left, e_log, pace, e_frames, ending) =
              exchange_opened_paced fuel frames (record l { device_handle = handle }) l' handle w₂
                w' answers (rw (n, exchange_message) at e) in
            (
              es,
              left,
              e_log ∙ ap (λ x. x ++ es) (log-open_devices ds l.device_handle w₁ ∙ log-init w),
              pace,
              e_frames,
              ending,
            )
      ]
