-- ===== src/Tests/Texts.antt =====
-- core/Utils.cpp at concrete inputs.
use avme_wallet.Base.{All, Str, codes, ◌+◌, ◌*◌, ◌^◌, ◌≡◌, ◌↔◌, some, ◌∷◌, ◌++◌, arith}
use avme_wallet.Utils.Amounts.{wei_to_fixed_point, fixed_point_to_wei}
use avme_wallet.Utils.Amounts.RoundTrip.{IsCanonical, number, fixed_point_to_wei-wei_to_fixed_point}
use avme_wallet.Utils.Amounts.Value.{value, value-fixed_point_to_wei}
use avme_wallet.Utils.Bytes.{hex_to_string}
use avme_wallet.Utils.Bytes.HexStrings.{encode, IsByte, hex_to_string_iff}

abbrev wei : Str
wei = codes "1500"

wei-IsCanonical : IsCanonical wei
wei-IsCanonical = number b'1' (codes "500") (omega arith) (omega arith)

fixed_point_to_wei-wei_to_fixed_point_example :
    fixed_point_to_wei (wei_to_fixed_point wei 18) 18 ≡ wei
fixed_point_to_wei-wei_to_fixed_point_example =
    fixed_point_to_wei-wei_to_fixed_point wei 18 wei-IsCanonical

value-fixed_point_to_wei_example :
    value 0 (fixed_point_to_wei (codes "12" ++ b'.' ∷ codes "05") 6) ≡ 12 * 10 ^ 6 + 5 * 10 ^ 4
value-fixed_point_to_wei_example =
    value-fixed_point_to_wei (codes "12") (codes "05") 6 (omega arith) (omega arith) (omega arith)

abbrev address : Str
address = codes "0xB97EF9Ef8734C71904D8002F8b6Bc66Dd9c48a6E"

hex_to_string_iff_example :
    (hex_to_string (codes "4f6b") ≡ some (codes "Ok"))
    ↔ (All IsByte (codes "Ok") × (encode (codes "Ok") ≡ codes "4f6b"))
hex_to_string_iff_example = hex_to_string_iff (codes "4f6b") (codes "Ok")
