-- ===== src/Pangolin/Words.antt =====
-- Words of an answer that stand one behind the other are read one by one.
use avme_wallet.Base.{
  length, take, drop, All, Str, codes, same, strip_0x, ℕ, zero, suc, min, ◌≡◌, refl, ap, ◌∙◌, ◌≢◌,
  ◌⊎◌, inl, inr, false, some, List, [], ◌∷◌, ◌++◌, map, append_assoc, arith, dec_lt,
}
use avme_wallet.Utils.Casts.{Casts}
use avme_wallet.Pangolin.{get_first_from_pair, parse_word, parse_words, parse_hex}

-- A row of an answer: a type name, its word and the value that it stands for.
pub record Row : Type 0 where
  pub type : Str
  pub word : Str
  pub reading : Str

abbrev pub IsRow : Casts → Row → Type 0
IsRow c r =
    (length r.word ≡ 64)
    × (((r.type ≡ codes "uint")
          × (n : ℕ) × (c.from_hex 256 r.word ≡ some n)
          × (r.reading ≡ c.text n))
        ⊎ ((r.type ≡ codes "address") × (r.reading ≡ codes "0x" ++ drop 24 r.word)))

abbrev pub joined : List Row → Str
joined [] = []
joined (r ∷ rs) = r.word ++ joined rs

take-word : (n : ℕ) (w s : Str) → length w ≡ n → (take n (w ++ s) ≡ w) × (drop n (w ++ s) ≡ s)
take-word zero [] s h = (refl, refl)
take-word zero (c ∷ w) s h = absurd (omega arith)
take-word (suc n) [] s h = absurd (omega arith)
take-word (suc n) (c ∷ w) s h = let (t, d) = take-word n w s (omega arith) in (ap (◌∷◌ c) t, d)

parse_word-row :
    (c : Casts) (r : Row) (s : Str)
    → IsRow c r
    → parse_word c r.type (r.word ++ s) ≡ some (r.reading ∷ [])
unfolding parse_word
parse_word-row c r s (len, inl (is_uint, n, number, value)) =
    rw (is_uint, (take-word 64 r.word s len).0, number, value)
parse_word-row c r s (len, inr (is_address, value)) =
    rw (is_address, (take-word 64 r.word s len).0, value)

parse_words_step :
    (c : Casts) (type : Str) (types values : List Str) (s : Str)
    → parse_word c type s ≡ some values
    → parse_words c (type ∷ types) s ≡ values ++ parse_words c types (drop 64 s)
unfolding parse_words
parse_words_step c type types values s e = rw (e, parse_words)

parse_words-rows :
    (c : Casts) (rs : List Row) (tail : Str)
    → All (IsRow c) rs
    → parse_words c (map (λ r. r.type) rs) (joined rs ++ tail) ≡ map (λ r. r.reading) rs
parse_words-rows c [] tail h = unfold parse_words in refl
parse_words-rows c (r ∷ rs) tail (row, h) =
    let rest : Str = joined rs ++ tail in
    rw (append_assoc r.word (joined rs) tail) (
      parse_words_step c r.type _ _ (r.word ++ rest) (parse_word-row c r rest row)
      ∙ rw ((take-word 64 r.word rest row.0).1, parse_words-rows c rs tail h))

-- An answer of numbers and addresses, a word of 64 characters each, is read completely and in order;
-- what follows the words is left unread.
pub parse_hex-rows :
    (c : Casts) (rs : List Row) (tail : Str)
    → All (IsRow c) rs
    → parse_hex c (codes "0x" ++ joined rs ++ tail) (map (λ r. r.type) rs) ≡ map (λ r. r.reading) rs
unfolding parse_hex strip_0x
parse_hex-rows c rs tail h = parse_words-rows c rs tail h

-- Of two addresses the one with the smaller number comes first, and the order of the arguments does
-- not matter for different numbers.
get_first_from_pair_least :
    (c : Casts) (s t : Str) (a b : ℕ)
    → c.from_hex 256 s ≡ some a
    → c.from_hex 256 t ≡ some b
    → a ≢ b
    → (r : Str) × (get_first_from_pair c s t ≡ some r)
      × (get_first_from_pair c t s ≡ some r)
      × (c.from_hex 256 r ≡ some (min a b))
unfolding get_first_from_pair
get_first_from_pair_least c s t a b es et differ = elim (dec_lt a b) [
  | yes h ↦ (s, ground arith, ground arith, ground arith)
  | no h ↦ (t, ground arith, ground arith, ground arith)
]

-- A text that does not begin with "0x" is read like the same text behind it.
pub parse_hex-no_prefix :
    (c : Casts) (s : Str) (types : List Str)
    → same (take 2 s) (codes "0x") ≡ false
    → parse_hex c s types ≡ parse_hex c (codes "0x" ++ s) types
unfolding parse_hex strip_0x
parse_hex-no_prefix c s types h = rw (h, strip_0x) refl
