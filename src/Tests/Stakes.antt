-- ===== src/Tests/Stakes.antt =====
-- network/Staking.cpp at concrete inputs.
use avme_wallet.Base.{replicate, Str, codes, strip_0x, ◌≡◌, refl, some, [], ◌∷◌, ◌++◌}
use avme_wallet.Utils.Json.Tree.{string, object, done, member}
use avme_wallet.Api.{Node, erase_all, clean, build_request, result_of}
use avme_wallet.Staking.{eth_call, call_uint}
use avme_wallet.Staking.Calls.{call_uint-word}
use avme_wallet.Tests.Conversions.{conversions}

abbrev word : Str
word = replicate 63 b'0' ++ b'7' ∷ []

-- A node that answers every question with a word.
abbrev seven : Node
seven = record {
  dump = λ v. some [];
  parse = λ s. some (object (member (codes "result") (string s) done));
  http = λ q. codes "0x" ++ (word ++ []);
}

seven_read :
    call_uint seven conversions (codes "0xaa") (codes "0x18160ddd") ≡ some (conversions.text 7)
unfolding eth_call build_request clean erase_all result_of strip_0x
seven_read =
    call_uint-word seven conversions (codes "0xaa") (codes "0x18160ddd") word [] 7 refl refl refl
      refl
