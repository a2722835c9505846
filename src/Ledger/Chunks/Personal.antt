-- ===== src/Ledger/Chunks/Personal.antt =====
-- The payloads of a message that is to be signed.
use avme_wallet.Base.{
  length, length-append, Str, ℕ, zero, suc, ◌+◌, ◌-◌, ◌≤◌, ◌<◌, ◌≡◌, refl, sym, ap, ◌∙◌, ◌≢◌, true,
  List, [], ◌∷◌, ◌++◌, append-nil, arith,
}
use avme_wallet.Ledger.Chunks.{Payload, cut_rounds, size_bytes, cut_personal_message}
use avme_wallet.Ledger.Chunks.Cut.{content, IsCut}
use avme_wallet.Ledger.Chunks.Whole.{cut_rounds-IsCut, is_first_round}

-- Path and message size, as they stand in front of a message.
abbrev pub message_header : Str → Str → Str
message_header bip32 message = bip32 ++ size_bytes (length message)

length-message_header :
    (bip32 message : Str) → length (message_header bip32 message) ≡ length bip32 + 4
unfolding size_bytes
length-message_header bip32 message = length-append bip32 _

no_bytes : (left : Str) → length left ≡ 0 → left ≡ []
no_bytes [] e = refl
no_bytes (c ∷ left) e = absurd (omega arith)

no_rounds :
    (fuel : ℕ) (header : Str) (path_size index : ℕ) (left : Str)
    → length left ≡ 0
    → cut_rounds fuel header path_size index left ≡ []
unfolding cut_rounds
no_rounds fuel header path_size index [] e = refl
no_rounds fuel header path_size index (c ∷ left) e = absurd (omega arith)

-- A round that is taken for the first.
early_round :
    (fuel : ℕ) (header : Str) (path_size index : ℕ) (r : Str)
    → 0 < length r
    → length r ≤ fuel
    → index + path_size < 150
    → length header ≤ 52
    → (q : Payload) × (ps : List Payload) × (left : Str) × IsCut true header r q left
      × (cut_rounds fuel header path_size index r ≡ q ∷ ps)
early_round fuel header path_size index [] h f early short = absurd (omega arith)
early_round zero header path_size index (c ∷ rest) h f early short = absurd (omega arith)
early_round (suc fuel) header path_size index (c ∷ rest) h f early short =
    let (q, left, cut, e) =
      cut_rounds-IsCut fuel header path_size index c rest true
        (is_first_round (index + path_size) early) short in
    (q, cut_rounds fuel header path_size _ left, left, cut, e)

-- A message that fits into one payload, with a path of at most 48 bytes and the size: the payload
-- holds path, size and message.
cut_personal_message_short :
    (bip32 message : Str)
    → length bip32 ≤ 48
    → message ≢ []
    → length bip32 + 4 + length message ≤ 150
    → (p : Payload) × (cut_personal_message bip32 message ≡ p ∷ [])
      × (p.is_hid_first_message ≡ true)
      × (content p ≡ message_header bip32 message ++ message)
cut_personal_message_short bip32 [] h ne fits = absurd (ne refl)
cut_personal_message_short bip32 (c ∷ rest) h ne fits =
    let n : ℕ = length bip32 in
    let header : Str = message_header bip32 (c ∷ rest) in
    let four = length-message_header bip32 (c ∷ rest) in
    let (p, left, cut, e) =
      cut_rounds-IsCut (length rest) header n 0 c rest true (is_first_round (0 + n) (omega arith))
        (omega (arith, four)) in
    let none_left : length left ≡ 0 =
      omega (arith, cut.room, length-append header (c ∷ rest), four) in
    (
      p,
      unfold cut_personal_message in
          (e ∙ ap (◌∷◌ p) (no_rounds (length rest) header n _ left none_left)),
      cut.flag,
      sym (append-nil (content p))
          ∙ ap (◌++◌ (content p)) (sym (no_bytes left none_left))
          ∙ cut.kept,
    )

-- A text that begins another one is a part of it.
longer_begins :
    (a b c d : Str)
    → a ++ b ≡ c ++ d
    → length c ≤ length a
    → (more : Str) × (a ≡ c ++ more) × (more ++ b ≡ d)
longer_begins a b [] d e h = (a, refl, e)
longer_begins [] b (x ∷ c) d e h = absurd (omega (arith, h))
longer_begins (y ∷ a) b (x ∷ c) d e h =
    let (more, e_a, e_d) = longer_begins a b c d (cc) (omega (arith, h)) in
    let same_head : y ≡ x = cc in (more, rw same_head (ap (◌∷◌ x) e_a), e_d)

-- A longer message, under a path of at most 48 bytes: the second payload is marked as the first again, and
-- is path and size again, with a part of the rest of the message that is not empty behind them.
pub cut_personal_message_long :
    (bip32 message : Str)
    → length bip32 ≤ 48
    → 150 < length bip32 + 4 + length message
    → (p q : Payload) × (ps : List Payload) × (left part left' : Str) × (cut_personal_message bip32
          message
        ≡ p ∷ q ∷ ps)
      × (content p ++ left ≡ message_header bip32 message ++ message)
      × (q.is_hid_first_message ≡ true)
      × (content q ≡ message_header bip32 message ++ part)
      × (0 < length part)
      × (part ++ left' ≡ left)
cut_personal_message_long bip32 [] h long = absurd (omega arith)
cut_personal_message_long bip32 (c ∷ rest) h long =
    let n : ℕ = length bip32 in
    let header : Str = message_header bip32 (c ∷ rest) in
    let four = length-message_header bip32 (c ∷ rest) in
    let (p, left, cut, e) =
      cut_rounds-IsCut (length rest) header n 0 c rest true (is_first_round (0 + n) (omega arith))
        (omega (arith, four)) in
    let more : length left ≡ n + 4 + suc (length rest) - 150 =
      omega (arith, cut.room, length-append header (c ∷ rest), four) in
    let index : ℕ = 0 + (suc (length rest) - length left) in
    let (q, ps, left', cut', e') =
      early_round (length rest) header n index left (omega arith) (omega arith) (omega arith)
        (omega (arith, four)) in
    let sizes = ap length cut'.kept in
    let long_enough : length header < length (content q) =
      omega (
        arith,
        four,
        sizes,
        cut'.room,
        length-append (content q) left',
        length-append header left,
      ) in
    let (part, e_q, e_left) =
      longer_begins (content q) left' header left cut'.kept (omega (arith, long_enough)) in
    (
      p,
      q,
      ps,
      left,
      part,
      left',
      unfold cut_personal_message in e ∙ ap (◌∷◌ p) e',
      cut.kept,
      cut'.flag,
      e_q,
      omega (arith, long_enough, ap length e_q, length-append header part),
      e_left,
    )
