-- ===== src/Staking.antt =====
-- network/Staking.cpp: calls of the two staking contracts, and the numbers that are read of them over
-- the node, which is a parameter.
pub mod Calls
use avme_wallet.Base.{
  if◌then◌else◌, ◌>>=◌, Str, codes, same, is_empty, Bool, true, ◌||◌, Option, none, some, List, [],
  ◌∷◌, ◌++◌,
}
use avme_wallet.Utils.Casts.{Casts}
use avme_wallet.Utils.Hex.{uint_to_hex, address_to_hex}
use avme_wallet.Utils.Json.Tree.{string}
use avme_wallet.Api.{Node, build_request, call, result_of}
use avme_wallet.Pangolin.{parse_hex}
use avme_wallet.Pangolin.Contracts.{contracts}
use avme_wallet.RequestList.{call_json}

-- Staking::funcs; an unknown name gives the empty text.
unfoldable pub staking_function : Str → Str
staking_function name =
    if same name (codes "totalSupply")
    then codes "0x18160ddd"
    else if same name (codes "getRewardForDuration")
    then codes "0x1c1f78eb"
    else if same name (codes "rewardsDuration")
    then codes "0x386a9525"
    else if same name (codes "earned")
    then codes "0x008cc262"
    else if same name (codes "stake")
    then codes "0xa694fc3a"
    else if same name (codes "withdraw")
    then codes "0x2e1a7d4d"
    else if same name (codes "getReward")
    then codes "0x3d18b912"
    else if same name (codes "exit")
    then codes "0xe9fad8ee"
    else []

-- Staking::YYfuncs
unfoldable pub compound_function : Str → Str
compound_function name =
    if same name (codes "balanceOf")
    then codes "0x70a08231"
    else if same name (codes "getDepositTokensForShares")
    then codes "0xeab89a5a"
    else if same name (codes "deposit")
    then codes "0xb6b55f25"
    else if same name (codes "reinvest")
    then codes "0xfdb5a03e"
    else if same name (codes "checkReward")
    then codes "0xc4b24a46"
    else if same name (codes "withdraw")
    then codes "0x2e1a7d4d"
    else if same name (codes "getSharesForDepositTokens")
    then codes "0xdd8ce4d6"
    else []

-- The text under "result" that the node answers an eth_call with.
unfoldable pub eth_call : Node → Str → Str → Option Str
eth_call node to call_data = do
  query ←
      build_request node
        (call (codes "eth_call") (call_json to call_data ∷ string (codes "latest") ∷ []))
  result_of node (node.http query)

abbrev pub no_result : Str → Bool
no_result result = same result (codes "0x") || is_empty result

-- result.substr(2) throws std::out_of_range on a text shorter than two bytes.
abbrev pub without_0x : Str → Option Str
without_0x (a ∷ b ∷ s) = some s
without_0x (a ∷ []) = none
without_0x [] = none

-- parseHex(result, {"uint"})[0]; the first of no values is undefined behaviour.
abbrev pub first_of : List Str → Option Str
first_of [] = none
first_of (s ∷ ss) = some s

unfoldable pub uint_of_result : Casts → Str → Option Str
uint_of_result c result =
    if no_result result
    then some []
    else do digits ← without_0x result; first_of (parse_hex c digits (codes "uint" ∷ []))

unfoldable pub call_uint : Node → Casts → Str → Str → Option Str
call_uint node c to call_data = do result ← eth_call node to call_data; uint_of_result c result

module _ (node : Node) (c : Casts) where
  pub total_supply : Option Str
  total_supply =
      call_uint node c (contracts (codes "staking")) (staking_function (codes "totalSupply"))

  pub get_reward_for_duration : Option Str
  get_reward_for_duration =
      call_uint node c (contracts (codes "staking"))
        (staking_function (codes "getRewardForDuration"))

  pub rewards_duration : Option Str
  rewards_duration =
      call_uint node c (contracts (codes "staking")) (staking_function (codes "rewardsDuration"))

  pub balance_of : Str → Option Str
  balance_of address = do
    address_hex ← address_to_hex address
    call_uint node c (contracts (codes "staking")) (codes "0x70a08231" ++ address_hex)

  unfoldable pub earned : Str → Option Str
  earned address = do
    address_hex ← address_to_hex address
    call_uint node c (contracts (codes "staking"))
        (staking_function (codes "earned") ++ address_hex)

  pub get_compound_reward : Option Str
  get_compound_reward =
      call_uint node c (contracts (codes "compound")) (compound_function (codes "checkReward"))

  -- The amount of shares is asked for first, and the word that is answered is sent on.
  unfoldable pub compound_withdraw : Str → Option Str
  compound_withdraw amount = do
    amount_hex ← uint_to_hex c amount true
    result ←
        eth_call node (contracts (codes "compound"))
          (compound_function (codes "getSharesForDepositTokens") ++ amount_hex)
    if no_result result
        then some []
        else do digits ← without_0x result; some (compound_function (codes "withdraw") ++ digits)

-- The data of a transaction.
unfoldable pub stake : Casts → Str → Option Str
stake c amount = do w ← uint_to_hex c amount true; some (staking_function (codes "stake") ++ w)

unfoldable pub stake_compound : Casts → Str → Option Str
stake_compound c amount = do
  w ← uint_to_hex c amount true
  some (compound_function (codes "deposit") ++ w)

unfoldable pub withdraw : Casts → Str → Option Str
withdraw c amount = do
  w ← uint_to_hex c amount true
  some (staking_function (codes "withdraw") ++ w)

pub get_reward : Str
get_reward = staking_function (codes "getReward")

pub reinvest : Str
reinvest = compound_function (codes "reinvest")

pub exit : Str
exit = staking_function (codes "exit")
