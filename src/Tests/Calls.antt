-- ===== src/Tests/Calls.antt =====
-- core/ABI.cpp at concrete inputs.
use avme_wallet.Base.{
  replicate, Str, codes, strip_0x, ℕ, ◌^◌, ◌<◌, ◌≡◌, refl, List, [], ◌∷◌, ◌++◌, arith,
}
use avme_wallet.Utils.Hex.Words.{address_from_hex-address_to_hex}
use avme_wallet.Utils.Json.Tree.{Value, string, object, done, member}
use avme_wallet.Abi.{read_call, encode_abi_from_json}
use avme_wallet.Abi.Layout.{uint, address, Argument, single, many, HasWord, uint_to_hex_small}
use avme_wallet.Abi.Places.{arguments_json, types_json, AreRead, encode_abi_from_json_read}
use avme_wallet.Tests.Conversions.{conversions, conversions-CastLaws}
use avme_wallet.Tests.Trees.{print_tree, parse_tree, parse_tree-print}

abbrev receiver : Str
receiver = codes "0x" ++ replicate 40 b'a'

abbrev amounts : List Str
amounts = conversions.text 1 ∷ conversions.text 2 ∷ []

abbrev arguments : List Argument
arguments = single address receiver ∷ many uint amounts ∷ []

abbrev name : Str
name = codes "pay(address,uint256[])"

abbrev pay_json : Value
pay_json = object (
    member (codes "args") (arguments_json arguments) (
      member (codes "function") (string name) (member (codes "types") (types_json arguments) done)))

receiver-HasWord : HasWord conversions address receiver
unfolding strip_0x
receiver-HasWord = let (w, e, _, _) = address_from_hex-address_to_hex receiver refl in (w, e)

amount-HasWord : (n : ℕ) → n < 2 ^ 256 → HasWord conversions uint (conversions.text n)
amount-HasWord n h =
    let (w, e, _) = uint_to_hex_small conversions conversions-CastLaws n h in (w, e)

encode_abi_from_json_read_example :
    (body : Str) × (encode_abi_from_json conversions parse_tree (λ s. s) (print_tree pay_json)
      ≡ codes "0xpay(addr" ++ body)
    × AreRead conversions 0 arguments body
unfolding read_call
encode_abi_from_json_read_example =
    encode_abi_from_json_read conversions conversions-CastLaws parse_tree (λ s. s)
      (print_tree pay_json) name pay_json arguments (parse_tree-print pay_json) refl
      (
        receiver-HasWord,
        ((amount-HasWord 1 (omega arith), (amount-HasWord 2 (omega arith), tt)), tt),
      )
      (omega arith)
