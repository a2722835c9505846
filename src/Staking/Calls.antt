-- ===== src/Staking/Calls.antt =====
-- The data of the staking transactions against the general encoding of calls, and the numbers that are
-- read of the contracts.
use avme_wallet.Base.{
  length, take, Str, codes, same, zeros, ℕ, ◌-◌, ◌≡◌, refl, sym, ap, ◌∙◌, inl, inr, true, false,
  Option, none, some, [], ◌∷◌, ◌++◌, map, append-nil, arith,
}
use avme_wallet.Utils.Casts.{Casts, CastLaws}
use avme_wallet.Utils.Hex.{uint_to_hex}
use avme_wallet.Utils.Case.{to_lower}
use avme_wallet.Utils.Hex.Words.{uint_to_hex-word}
use avme_wallet.Utils.Json.Tree.{Value}
use avme_wallet.Api.{Node}
use avme_wallet.Pangolin.{parse_hex}
use avme_wallet.Pangolin.Words.{Row, parse_hex-rows, parse_hex-no_prefix}
use avme_wallet.Abi.{read_call, encode_abi_from_json}
use avme_wallet.Abi.Layout.{uint, single}
use avme_wallet.Abi.Places.{arguments_json, types_json, encode_abi_from_json_single}
use avme_wallet.Staking.{
  staking_function, compound_function, eth_call, uint_of_result, call_uint, stake, stake_compound,
  withdraw,
}

-- The transactions that send one amount.
pub data Spending : Type 0 where
  staking : Spending
  depositing : Spending
  withdrawing : Spending

abbrev pub spend : Spending → Casts → Str → Option Str
spend staking = stake
spend depositing = stake_compound
spend withdrawing = withdraw

-- The first eight digits of the digests of the functions.
abbrev pub selector : Spending → Str
selector staking = codes "a694fc3a"
selector depositing = codes "b6b55f25"
selector withdrawing = codes "2e1a7d4d"

spend-word :
    (p : Spending) (c : Casts) (amount w : Str)
    → uint_to_hex c amount true ≡ some w
    → spend p c amount ≡ some (codes "0x" ++ (selector p ++ w))
unfolding stake stake_compound withdraw staking_function compound_function
spend-word staking c amount w e = rw e refl
spend-word depositing c amount w e = rw e refl
spend-word withdrawing c amount w e = rw e refl

-- The data of a transaction that stakes, deposits or withdraws an amount is what encodeABIfromJson makes
-- of a text that is parsed to a call with that one number, if the digest of the function's name begins
-- with the digits that the wallet has for it, and the amount is a text that boost accepts.
pub spend-encode_abi_from_json :
    (c : Casts)
    → CastLaws c
    → (p : Spending) (parse : Str → Option Value) (digest_hex : Str → Str)
      (json_str name amount : Str) (abi_json : Value) (n : ℕ)
    → c.cast_u256 amount ≡ some n
    → take 8 (digest_hex name) ≡ selector p
    → parse json_str ≡ some abi_json
    → read_call abi_json
      ≡ some (arguments_json (single uint amount ∷ []), types_json (single uint amount ∷ []), name)
    → spend p c amount ≡ some (encode_abi_from_json c parse digest_hex json_str)
spend-encode_abi_from_json c laws p parse digest_hex json_str name amount abi_json n cast digits
      parsed read =
    elim (uint_to_hex-word c laws amount) [
      | inl (m, _, e) ↦
          let w : Str = zeros (64 - length (c.hex_text m)) ++ map to_lower (c.hex_text m) in
          spend-word p c amount w e
          ∙ ap some (
              sym (
                encode_abi_from_json_single c laws parse digest_hex json_str name amount abi_json w
                  parsed read e
                ∙ rw digits refl))
      | inr (refused, _) ↦ let bad : none ≡ some n = sym refused ∙ cast in cc
    ]

first_row :
    (c : Casts) (word rest : Str) (n : ℕ)
    → length word ≡ 64
    → c.from_hex 256 word ≡ some n
    → parse_hex c (codes "0x" ++ (word ++ rest)) (codes "uint" ∷ []) ≡ c.text n ∷ []
first_row c word rest n size number =
    let row : Row = record { type = codes "uint"; word = word; reading = c.text n } in
    ap (λ x. parse_hex c (codes "0x" ++ (x ++ rest)) (codes "uint" ∷ [])) (sym (append-nil word))
    ∙ parse_hex-rows c (row ∷ []) rest ((size, inl (refl, n, number, refl)), tt)

-- A number that the node answers in one word of hexadecimal digits is shown in decimal.
pub call_uint-word :
    (node : Node) (c : Casts) (to call_data word rest : Str) (n : ℕ)
    → eth_call node to call_data ≡ some (codes "0x" ++ (word ++ rest))
    → length word ≡ 64
    → same (take 2 (word ++ rest)) (codes "0x") ≡ false
    → c.from_hex 256 word ≡ some n
    → call_uint node c to call_data ≡ some (c.text n)
unfolding call_uint uint_of_result
call_uint-word node c to call_data [] rest n answered size no_prefix number =
    absurd (omega (arith, size))
call_uint-word node c to call_data (d ∷ word) rest n answered size no_prefix number =
    rw
      (
        call_uint,
        answered,
        uint_of_result,
        parse_hex-no_prefix c (d ∷ (word ++ rest)) (codes "uint" ∷ []) no_prefix,
        first_row c (d ∷ word) rest n size number,
      )
      refl
