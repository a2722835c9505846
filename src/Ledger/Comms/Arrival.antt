-- ===== src/Ledger/Comms/Arrival.antt =====
-- A transaction that is exchanged with a device.
use avme_wallet.Base.{
  some_inj, length, All, Str, ℕ, ◌≤◌, ◌≡◌, refl, sym, ap, ◌∙◌, subst, ◌≢◌, inl, inr, Bool, true,
  false, some, List, [], ◌∷◌, ◌++◌, append-nil,
}
use avme_wallet.Utils.Casts.{Casts}
use avme_wallet.Ledger.Path.{parse_path}
use avme_wallet.Ledger.Frames.Reading.{joined, read_packets}
use avme_wallet.Ledger.Messages.{encode_sign_eth_message}
use avme_wallet.Ledger.Messages.Signing.{encode_sign_eth_message_read}
use avme_wallet.Ledger.Comms.{Hid, message_has_error, Link, exchange_message}
use avme_wallet.Ledger.Comms.Pacing.{
  Event, wrote, waited, written_frames, taken_frames, lost_frames, paced, Logged, EndsInError,
  exchange_message_paced,
}

abbrev pub IsGood : Str → Type 0
IsGood answer = message_has_error answer ≡ false

last-IsGood : (before : List Str) (last : Str) → All IsGood (before ++ last ∷ []) → IsGood last
last-IsGood [] last (good, _) = good
last-IsGood (a ∷ before) last (_, good) = last-IsGood before last good

no_bad_end : (answers : List Str) → All IsGood answers → EndsInError answers → ⊥
no_bad_end answers good (before, last, e, bad) =
    let fine : IsGood last = last-IsGood before last (subst (λ x. All IsGood x) e good) in
    let contradiction : true ≡ false = sym bad ∙ fine in cc

append_cancel : (log es es' : List Event) → log ++ es ≡ log ++ es' → es ≡ es'
append_cancel [] es es' e = e
append_cancel (x ∷ log) es es' e = append_cancel log es es' (cc)

none_lost : (es : List Event) → lost_frames es ≡ [] → taken_frames es ≡ written_frames es
none_lost [] e = refl
none_lost (wrote true frame ∷ es) e = ap (◌∷◌ frame) (none_lost es e)
none_lost (wrote false frame ∷ es) e = cc
none_lost (waited ∷ es) e = none_lost es e

module _ (h : Hid) (t : Logged h) where
  -- If the exchange of a transaction's frames returns with answers and without an error, and every
  -- hid_write of it took its frame, which the code itself does not test, then what was taken is the
  -- path and then the whole transaction, in packets of frames of which never more than three were
  -- not waited for: for a transaction of at least one byte under a path of at most 52 bytes, over a
  -- device that keeps its writes and what is waited for.
  pub transaction_arrives :
      (c : Casts) (garbage : Bool) (rlp path bip32 : Str) (request : List Str) (fuel : ℕ)
      (l l' : Link h) (w w' : h.World) (answers : List Str) (es : List Event)
      → parse_path c garbage path ≡ some bip32
      → length bip32 ≤ 52
      → rlp ≢ []
      → encode_sign_eth_message c garbage rlp path ≡ some request
      → exchange_message h fuel request l w ≡ some ((answers, l'), w')
      → answers ≢ []
      → All IsGood answers
      → t.log w' ≡ t.log w ++ es
      → lost_frames es ≡ []
      → (packets : List (List Str)) × (paced 0 es ≡ true)
        × (taken_frames es ≡ joined packets)
        × (read_packets packets ≡ bip32 ++ rlp)
  transaction_arrives c garbage rlp path bip32 request fuel l l' w w' answers es parsed short ne
        encoded exchanged some_answer good e_es took =
      let (packets, e_frames, _, e_read) =
        encode_sign_eth_message_read c garbage rlp path bip32 parsed short ne in
      let (es', left, e_log, pace, e_written, ending) =
        exchange_message_paced h t fuel request l l' w w' answers exchanged in
      let same_events : es' ≡ es = append_cancel (t.log w) es' es (sym e_log ∙ e_es) in
      let e_request : request ≡ joined packets = some_inj (sym encoded ∙ e_frames) in
      let nothing_left : left ≡ [] = elim ending [
        | inl e ↦ e
        | inr other ↦ elim other [
          | inl none_given ↦ absurd (some_answer none_given)
          | inr bad ↦ absurd (no_bad_end answers good bad)
        ]
      ] in
      let all_written : written_frames es' ≡ joined packets =
        sym (append-nil (written_frames es'))
        ∙ ap (λ x. written_frames es' ++ x) (sym nothing_left)
        ∙ e_written
        ∙ e_request in
      (
        packets,
        ap (paced 0) (sym same_events) ∙ pace,
        none_lost es took ∙ ap written_frames (sym same_events) ∙ all_written,
        e_read,
      )
