-- ===== src/Tests/Exchange.antt =====
-- network/Pangolin.cpp at concrete inputs.
use avme_wallet.Base.{
  replicate, codes, zeros, ◌+◌, ◌-◌, ◌*◌, ◌/◌, ◌≤◌, ◌<◌, ◌≡◌, List, [], ◌∷◌, ◌++◌, arith,
}
use avme_wallet.Pangolin.Exchange.{exchange_out_exact, exchange_out_sound}
use avme_wallet.Pangolin.Words.{Row}

exchange_out_sound_example :
    (997 ≡ 1000 * 997 * 6000 / (5000 * 1000 + 1000 * 997))
    × (997 < 6000)
    × (5000 * 6000 ≤ (5000 + 1000) * (6000 - 997))
exchange_out_sound_example =
    exchange_out_sound 1000 5000 6000 997 (omega arith) (omega arith) (omega arith)
      (exchange_out_exact 1000 5000 6000 (omega arith) (omega arith) (omega arith) (omega arith))

abbrev rows : List Row
rows =
    record { type = codes "uint"; word = zeros 62 ++ codes "ff"; reading = codes "255" }
    ∷ record {
      type = codes "address";
      word = zeros 24 ++ replicate 40 b'a';
      reading = codes "0x" ++ replicate 40 b'a';
    }
    ∷ []
