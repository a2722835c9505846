-- ===== src/Abi/Places.antt =====
-- The words of a call, and where the data of its arrays is.
use avme_wallet.Base.{
  ◌>>=◌, some_inj, length, take, drop, length-append, take-append, drop-append, All, length-map,
  Str, codes, ℕ, suc, ◌+◌, ◌*◌, ◌^◌, ◌<◌, ◌≡◌, refl, sym, ap, ◌∙◌, subst, Bool, true, Option, some,
  List, [], ◌∷◌, ◌++◌, map, append_assoc, append-nil, arith,
}
use avme_wallet.Utils.Casts.{Casts, u256_mod, CastLaws}
use avme_wallet.Utils.Hex.{uint_to_hex}
use avme_wallet.Utils.Hex.Words.{length-uint_to_hex}
use avme_wallet.Utils.Json.Tree.{Value, array, items, as_string}
use avme_wallet.Abi.{
  encode_abi, Encoding, Round, read_argument, argument_at, encode_arguments, count_items, size_of,
  read_call, encode_call, encode_abi_from_json,
}
use avme_wallet.Abi.Layout.{
  Kind, uint, kind_text, words_of, encode_abi-words_of, Argument, single, many, argument_value,
  type_value, word_of, HasWords, data_size, data_sizes, length-word_of, uint_to_hex_small,
  encode_abi_many, encode_argument_single, encode_argument_many, Laid, argument_at-append,
  encode_read_single, encode_read_many,
}

abbrev pub arguments_json : List Argument → Value
arguments_json args = array (items (map argument_value args))

abbrev pub types_json : List Argument → Value
types_json args = array (items (map type_value args))

abbrev reading : Casts → Argument → Option (Str × List Str × Bool)
reading c a = do type ← as_string (type_value a); read_argument c (argument_value a) type

-- The arguments are found from a place on.
abbrev FoundFrom : Casts → Value → Value → ℕ → List Argument → Type 0
FoundFrom c arguments types i [] = Unit
FoundFrom c arguments types i (a ∷ rest) =
    (argument_at c arguments types i ≡ reading c a) × FoundFrom c arguments types (suc i) rest

found_from :
    (c : Casts) (before rest : List Argument)
    → FoundFrom c
        (arguments_json (before ++ rest))
        (types_json (before ++ rest))
        (length before)
        rest
found_from c before [] = tt
found_from c before (a ∷ rest) =
    let next : length (before ++ a ∷ []) ≡ suc (length before) =
      omega (arith, length-append before (a ∷ [])) in
    (
      argument_at-append c before a rest,
      subst (λ x. FoundFrom c (arguments_json x) (types_json x) (suc (length before)) rest)
          (append_assoc before (a ∷ []) rest)
          (subst
            (λ n.
              FoundFrom c (arguments_json ((before ++ a ∷ []) ++ rest))
                (types_json ((before ++ a ∷ []) ++ rest)) n rest)
            next (found_from c (before ++ a ∷ []) rest)),
    )

abbrev with_added : Encoding → Str → Str → ℕ → Encoding
with_added s heads tails n = record {
  ret = s.ret ++ heads;
  arrays = s.arrays ++ tails;
  array_start = s.array_start + n;
}

encoding_eq :
    (r r' a a' : Str) (n n' : ℕ)
    → r ≡ r'
    → a ≡ a'
    → n ≡ n'
    → ◌≡◌ {A = Round}
        (true, record { ret = r; arrays = a; array_start = n })
        (true, record { ret = r'; arrays = a'; array_start = n' })
encoding_eq r r' a a' n n' e f g = rw (e, f, g) refl

-- All of the rounds over arguments of which each value has a word.
encode_arguments-Laid :
    (c : Casts)
    → CastLaws c
    → (arguments types : Value) (i : ℕ) (rest : List Argument) (s : Encoding)
    → FoundFrom c arguments types i rest
    → All (HasWords c) rest
    → s.array_start + data_sizes rest < u256_mod
    → (heads : Str) × (tails : Str) × (encode_arguments c arguments types i (length rest) s
        ≡ (true, with_added s heads tails (data_sizes rest)))
      × Laid c rest heads tails s.array_start
unfolding encode_arguments
encode_arguments-Laid c laws arguments types i [] s there h small = (
  [],
  [],
  encoding_eq s.ret (s.ret ++ []) s.arrays (s.arrays ++ []) s.array_start (s.array_start + 0)
      (sym (append-nil s.ret)) (sym (append-nil s.arrays)) (omega arith),
  (refl, refl),
)
encode_arguments-Laid c laws arguments types i (single k text ∷ rest) s (here, there) ((w, e), h)
      small =
    let t : Encoding = record s { ret = s.ret ++ w } in
    let (hs, ts, e_rest, laid) =
      encode_arguments-Laid c laws arguments types (suc i) rest t there h (omega (arith, small)) in
    (
      w ++ hs,
      ts,
      rw (here, encode_read_single c k text s, encode_argument_single c k text w s e, e_rest)
          (encoding_eq _ _ _ _ _ _ (append_assoc s.ret w hs) refl (omega arith)),
      (w, hs, e, refl, laid),
    )
encode_arguments-Laid c laws arguments types i (many k ss ∷ rest) s (here, there) (words, h) small =
    let (o, e_o, _) = uint_to_hex_small c laws s.array_start (omega (arith, small)) in
    let (d, e_d, size_d) = encode_abi_many c laws k ss words (omega (arith, small)) in
    let t : Encoding = record {
      ret = s.ret ++ o;
      arrays = s.arrays ++ d;
      array_start = s.array_start + (length ss * 32 + 32);
    } in
    let (hs, ts, e_rest, laid) =
      encode_arguments-Laid c laws arguments types (suc i) rest t there h (omega (arith, small)) in
    (
      o ++ hs,
      d ++ ts,
      rw (here, encode_read_many c k ss s, encode_argument_many c k ss o d s e_o e_d, e_rest)
          (encoding_eq _ _ _ _ _ _ (append_assoc s.ret o hs) (append_assoc s.arrays d ts)
            (omega arith)),
      (o, d, hs, ts, e_o, e_d, size_d, refl, refl, laid),
    )

-- What a contract finds for the argument at a place: its word, or the place, in bytes, where the length
-- of the array stands with the words of its values behind it.
abbrev pub IsRead : Casts → ℕ → Argument → Str → Type 0
IsRead c i (single k s) body = word_of c k s ≡ some (take 64 (drop (64 * i) body))
IsRead c i (many k ss) body =
    (place : ℕ) × (uint_to_hex c (c.text place) true ≡ some (take 64 (drop (64 * i) body)))
    × (uint_to_hex c (c.text (length ss)) true ≡ some (take 64 (drop (2 * place) body)))
    × (words_of c k ss ≡ some (take (64 * length ss) (drop 64 (drop (2 * place) body))))

abbrev pub AreRead : Casts → ℕ → List Argument → Str → Type 0
AreRead c i [] body = Unit
AreRead c i (a ∷ args) body = IsRead c i a body × AreRead c (suc i) args body

length-Laid :
    (c : Casts)
    → CastLaws c
    → (args : List Argument) (heads tails : Str) (start : ℕ) → Laid c args heads tails start
    → length heads ≡ 64 * length args
length-Laid c laws [] heads tails start (e, _) = omega (arith, ap length e)
length-Laid c laws (single k s ∷ args) heads tails start (w, hs, e, e_heads, laid) = omega (
  arith,
  ap length e_heads,
  length-append w hs,
  length-word_of c k s e,
  length-Laid c laws args hs tails start laid,
)
length-Laid c laws (many k ss ∷ args) heads tails start
      (o, d, hs, ts, e_o, e_d, size_d, e_heads, e_tails, laid) =
    omega (
      arith,
      ap length e_heads,
      length-append o hs,
      length-uint_to_hex c (c.text start) e_o,
      length-Laid c laws args hs ts (start + data_size (many k ss)) laid,
    )

word_at :
    (front w rest : Str) (i : ℕ)
    → length front ≡ 64 * i
    → length w ≡ 64
    → take 64 (drop (64 * i) (front ++ (w ++ rest))) ≡ w
word_at front w rest i e_front e_w =
    rw (drop-append front (w ++ rest) (64 * i) (sym e_front)) (take-append w rest 64 (sym e_w))

regroup_heads :
    (front w hs rest : Str) → (front ++ (w ++ hs)) ++ rest ≡ front ++ (w ++ (hs ++ rest))
regroup_heads front w hs rest =
    append_assoc front (w ++ hs) rest ∙ ap (λ x. front ++ x) (append_assoc w hs rest)

-- The text of an array, read from where it stands.
array_read :
    (c : Casts) (k : Kind) (ss : List Str) (d ts body : Str)
    → encode_abi c (kind_text k) ss true ≡ some d
    → body ≡ d ++ ts
    → (uint_to_hex c (c.text (length ss)) true ≡ some (take 64 body))
      × (words_of c k ss ≡ some (take (64 * length ss) (drop 64 body)))
array_read c k ss d ts body e_d e_body =
    let (w, e, e_w, size_w, e_e, size_e, e_split) = encode_abi-words_of c k ss d e_d in
    let whole : body ≡ w ++ (e ++ ts) = e_body ∙ rw e_split (append_assoc w e ts) in
    (
      rw (whole, take-append w (e ++ ts) 64 (sym size_w)) e_w,
      rw
          (
            whole,
            drop-append w (e ++ ts) 64 (sym size_w),
            take-append e ts (64 * length ss) (sym size_e),
          )
          e_e,
    )

-- The two texts hold what is laid in them, behind what they held before.
are_read :
    (c : Casts)
    → CastLaws c
    → (args : List Argument) (front hs back ts body : Str) (i start : ℕ) → Laid c args hs ts start
    → length front ≡ 64 * i
    → 2 * start ≡ length front + length hs + length back
    → body ≡ (front ++ hs) ++ (back ++ ts)
    → AreRead c i args body
are_read c laws [] front hs back ts body i start laid e_front e_start e_body = tt
are_read c laws (single k s ∷ args) front heads back ts body i start (w, hs, e, e_heads, laid)
      e_front e_start e_body =
    let e_w = length-word_of c k s e in
    let whole : body ≡ front ++ (w ++ (hs ++ (back ++ ts))) =
      e_body ∙ rw e_heads (regroup_heads front w hs (back ++ ts)) in
    (
      rw (whole, word_at front w (hs ++ (back ++ ts)) i e_front e_w) e,
      are_read c laws args (front ++ w) hs back ts body (suc i) start laid
          (omega (arith, length-append front w))
          (omega (arith, length-append front w, length-append w hs, ap length e_heads))
          (e_body ∙ rw e_heads (ap (λ x. x ++ (back ++ ts)) (sym (append_assoc front w hs)))),
    )
are_read c laws (many k ss ∷ args) front heads back tails body i start
      (o, d, hs, ts, e_o, e_d, size_d, e_heads, e_tails, laid) e_front e_start e_body =
    let size_o = length-uint_to_hex c (c.text start) e_o in
    let whole : body ≡ front ++ (o ++ (hs ++ (back ++ tails))) =
      e_body ∙ rw e_heads (regroup_heads front o hs (back ++ tails)) in
    let behind : body ≡ ((front ++ heads) ++ back) ++ (d ++ ts) =
      e_body ∙ rw e_tails (sym (append_assoc (front ++ heads) back (d ++ ts))) in
    let (counted, worded) = array_read c k ss d ts (drop (2 * start) body) e_d (
      rw behind (
        drop-append ((front ++ heads) ++ back) (d ++ ts) (2 * start)
          (omega (arith, length-append (front ++ heads) back, length-append front heads)))) in
    (
      (
        start,
        rw (whole, word_at front o (hs ++ (back ++ tails)) i e_front size_o) e_o,
        counted,
        worded,
      ),
      are_read c laws args (front ++ o) hs (back ++ d) ts body (suc i)
          (start + data_size (many k ss)) laid (omega (arith, length-append front o))
          (omega (
            arith,
            length-append front o,
            length-append o hs,
            length-append back d,
            ap length e_heads,
          ))
          (e_body ∙ rw (e_heads, e_tails) (joined front o hs back d ts)),
    )
  where
    joined :
        (front o hs back d ts : Str)
        → (front ++ (o ++ hs)) ++ (back ++ (d ++ ts)) ≡ ((front ++ o) ++ hs) ++ ((back ++ d) ++ ts)
    joined front o hs back d ts = rw (append_assoc front o hs, append_assoc back d ts) refl

count_items-items : (vs : List Value) → count_items (items vs) ≡ length vs
count_items-items [] = refl
count_items-items (v ∷ vs) = ap suc (count_items-items vs)

call_text :
    (c : Casts) (digest_hex : Str → Str) (arguments types : Value) (name : Str) (n : ℕ)
    (s : Encoding)
    → size_of arguments ≡ n
    → encode_arguments c arguments types 0 n
        (record { ret = codes "0x" ++ take 8 (digest_hex name); arrays = []; array_start = 32 * n })
      ≡ (true, s)
    → encode_call c digest_hex (some (arguments, types, name)) ≡ s.ret ++ s.arrays
call_text c digest_hex arguments types name n s size e =
    let front : Str = codes "0x" ++ take 8 (digest_hex name) in
    let shown : Round → Str = λ r. Encoding.ret (r.1) ++ Encoding.arrays (r.1) in
    let run : ℕ → Round = λ k.
      encode_arguments c arguments types 0 k
        (record { ret = front; arrays = []; array_start = 32 * k }) in
    ap (λ k. shown (run k)) size ∙ ap shown e

-- For a text that is parsed to a call whose arguments are JSON texts of numbers, addresses and flags, or
-- arrays of such texts, each of which has a word, and whose size in bytes fits an int: behind "0x" and
-- the first eight digits of the function's digest stand the words of the arguments in their order; for
-- an array that is the place, counted in bytes from the first word on, where the word of its length
-- stands, and right behind it the words of its values in their order.
pub encode_abi_from_json_read :
    (c : Casts)
    → CastLaws c
    → (parse : Str → Option Value) (digest_hex : Str → Str) (json_str name : Str) (abi_json : Value)
      (args : List Argument)
    → parse json_str ≡ some abi_json
    → read_call abi_json ≡ some (arguments_json args, types_json args, name)
    → All (HasWords c) args
    → 32 * length args + data_sizes args < 2 ^ 31
    → (body : Str) × (encode_abi_from_json c parse digest_hex json_str
        ≡ (codes "0x" ++ take 8 (digest_hex name)) ++ body)
      × AreRead c 0 args body
unfolding encode_abi_from_json
encode_abi_from_json_read c laws parse digest_hex json_str name abi_json args parsed read h small =
    let front : Str = codes "0x" ++ take 8 (digest_hex name) in
    let start : Encoding = record { ret = front; arrays = []; array_start = 32 * length args } in
    let size : count_items (items (map argument_value args)) ≡ length args =
      count_items-items (map argument_value args) ∙ length-map argument_value args in
    let (heads, tails, e, laid) =
      encode_arguments-Laid c laws (arguments_json args) (types_json args) 0 args start
        (found_from c [] args) h (omega (arith, small)) in
    (
      heads ++ tails,
      rw (parsed, read)
          (call_text c digest_hex (arguments_json args) (types_json args) name (length args) _ size
              e
            ∙ append_assoc front heads tails),
      are_read c laws args [] heads [] tails (heads ++ tails) 0 (32 * length args) laid refl
          (omega (arith, length-Laid c laws args heads tails (32 * length args) laid)) refl,
    )

-- The call with one number.
pub encode_abi_from_json_single :
    (c : Casts)
    → CastLaws c
    → (parse : Str → Option Value) (digest_hex : Str → Str) (json_str name amount : Str)
      (abi_json : Value) (w : Str)
    → parse json_str ≡ some abi_json
    → read_call abi_json
      ≡ some (arguments_json (single uint amount ∷ []), types_json (single uint amount ∷ []), name)
    → uint_to_hex c amount true ≡ some w
    → encode_abi_from_json c parse digest_hex json_str
      ≡ codes "0x" ++ (take 8 (digest_hex name) ++ w)
unfolding encode_abi_from_json
encode_abi_from_json_single c laws parse digest_hex json_str name amount abi_json w parsed read e =
    let front : Str = codes "0x" ++ take 8 (digest_hex name) in
    let start : Encoding = record { ret = front; arrays = []; array_start = 32 } in
    let args : List Argument = single uint amount ∷ [] in
    let (heads, tails, e_run, (v, hs, e_word, e_heads, (e_hs, e_tails))) =
      encode_arguments-Laid c laws (arguments_json args) (types_json args) 0 args start
        (found_from c [] args) ((w, e), tt) (omega arith) in
    let only : heads ≡ w = rw (e_heads, e_hs) (append-nil v) ∙ some_inj (sym e_word ∙ e) in
    rw (parsed, read)
      (call_text c digest_hex (arguments_json args) (types_json args) name 1 _ refl e_run
        ∙ rw (only, e_tails) (append-nil (front ++ w)))
