-- ===== src/Pangolin/Contracts.antt =====
-- network/Pangolin.cpp, the hardcoded contract addresses.
use avme_wallet.Base.{if◌then◌else◌, Str, codes, same, []}

-- `contracts[name]`; an unknown name gives the empty text.
pub contracts : Str → Str
contracts name =
    if same name (codes "factory")
    then codes "0xefa94DE7a4656D787667C749f7E1223D71E9FD88"
    else if same name (codes "router")
    then codes "0xE54Ca86531e17Ef3616d22Ca28b0D458b6C89106"
    else if same name (codes "staking")
    then codes "0xCc39b8c253f33BEa6E8326f0E5029Aa8627df757"
    else if same name (codes "compound")
    then codes "0xb34fE8A87DFEbD5Ab0a03DB73F2d49b903E63DB6"
    else if same name (codes "AVAX")
    then codes "0xb31f66aa3c1e785363f0875a1b74e27b85fd66c7"
    else if same name (codes "AVME")
    then codes "0x1ECd47FF4d9598f89721A2866BFEb99505a413Ed"
    else if same name (codes "AVAX-AVME")
    then codes "0x381cc7bcba0afd3aeb0eaec3cb05d7796ddfd860"
    else []
