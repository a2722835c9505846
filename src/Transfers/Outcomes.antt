-- ===== src/Transfers/Outcomes.antt =====
-- A transfer that is reported as sent is in the history.
use avme_wallet.Base.{Str, ◌≡◌, Bool, true, false, ◌||◌, Option, none, some, List, [], ◌∷◌}
use avme_wallet.Utils.Casts.{Casts}
use avme_wallet.Utils.Json.{Json}
use avme_wallet.Database.{Leveldb, Database}
use avme_wallet.Wallet.Accounts.{Keys, State}
use avme_wallet.Wallet.Sending.{Skeleton, Ethcore, sign_transaction}
use avme_wallet.Transfers.{Signal, tx_built, ledger_required, ledger_done, tx_signed, tx_sent}

-- A signal that reports that the transaction was sent.
abbrev pub is_sent : Signal → Bool
is_sent (tx_sent success link txid message) = success
is_sent (tx_built success) = false
is_sent ledger_required = false
is_sent ledger_done = false
is_sent (tx_signed success message) = false

abbrev pub any_sent : List Signal → Bool
any_sent [] = false
any_sent (s ∷ signals) = is_sent s || any_sent signals

module _ (K : Keys) (eth : Ethcore K) (L : Leveldb) where
  -- What the account's key or the device signs: the device's answer is a success.
  abbrev pub Signs : Option (Skeleton K → Bool × Str) → Str → Skeleton K → State K → Str → Type 0
  Signs none pass skeleton s signed = sign_transaction K eth skeleton pass s ≡ some signed
  Signs (some hardware) pass skeleton s signed = hardware skeleton ≡ (true, signed)
