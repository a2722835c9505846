-- ===== src/LastUsed/Wallets.antt =====
-- What getLastWallet reads behind saveLastWallet.
use avme_wallet.Base.{
  if◌then◌else◌, Bool-cases, some_inj, Str, codes, is_empty, ◌≡◌, refl, ap, inl, inr, true, false,
  some,
}
use avme_wallet.Utils.Json.Tree.{Value, string, object, done, member}
use avme_wallet.LastUsed.JsonFiles.{
  Disk, Printer, in_order, DiskLaws, WritesSeen, write_json-success, read_json-read,
}
use avme_wallet.LastUsed.{last_wallet_path, get_last_wallet, with_folder, save_last_wallet}

module _ (F : Disk) (j : Printer) (laws : DiskLaws F j) (seen : WritesSeen F j) where
  -- A wallet whose saving is reported as a success is the last wallet, as long as its folder is there.
  pub get_last_wallet-save :
      (config wallet : Str) (w w' : F.World)
      → save_last_wallet F j config wallet w ≡ some (true, w')
      → F.exists w' wallet ≡ true
      → get_last_wallet F j config w' ≡ some wallet
  unfolding save_last_wallet get_last_wallet in_order
  get_last_wallet-save config wallet w w' e folder = elim (Bool-cases (is_empty config)) [
    | inl y ↦
        let bad : false ≡ true = ap (λ r. r.0) (some_inj (rw (y, save_last_wallet) at e)) in cc
    | inr n ↦
        let w₁ = with_folder F j config w in
        let path = last_wallet_path config in
        let w₂ = if F.exists w₁ path then (F.remove w₁ path).1 else w₁ in
        let v : Value = object (member (codes "path") (string wallet) done) in
        let written =
          write_json-success F j laws seen path v w₂ w' (rw (n, save_last_wallet) at e) in
        let (there, e_read, s, e_dump) = laws.read-write w₂ w' path v refl written in
        rw
          (
            n,
            there,
            get_last_wallet,
            read_json-read F j laws path v w' s refl there e_read e_dump,
            folder,
          )
          refl
  ]
