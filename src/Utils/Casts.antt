-- ===== src/Utils/Casts.antt =====
-- What core/Utils.cpp takes from boost and from keccak: the numeric conversions of
-- `boost::lexical_cast` and of u256 streams, and `dev::sha3`. `none` is bad_lexical_cast.
use avme_wallet.Base.{length, Str, ℕ, ◌^◌, ◌≤◌, ◌<◌, ◌≡◌, Option, some}
use avme_wallet.Utils.Amounts.RoundTrip.{IsCanonical}

pub record Casts : Type 0 where
  -- boost::lexical_cast<u256>
  pub cast_u256 : Str → Option ℕ
  -- boost::lexical_cast<uint32_t>
  pub cast_u32 : Str → Option ℕ
  -- boost::lexical_cast<std::string> of an unsigned number
  pub text : ℕ → Str
  -- stream << std::hex << u256
  pub hex_text : ℕ → Str
  -- boost::lexical_cast<HexTo<T>> at the number of bits of T
  pub from_hex : ℕ → Str → Option ℕ

abbrev pub u256_mod : ℕ
u256_mod = 2 ^ 256

-- What boost documents of them.
pub record CastLaws (c : Casts) : Type 0 where
  pub cast_u256_bound : (s : Str) (n : ℕ) → c.cast_u256 s ≡ some n → n < u256_mod
  pub cast_u256-text : (n : ℕ) → n < u256_mod → c.cast_u256 (c.text n) ≡ some n
  pub cast_u32-text : (n : ℕ) → n < 2 ^ 32 → c.cast_u32 (c.text n) ≡ some n
  pub text-IsCanonical : (n : ℕ) → IsCanonical (c.text n)
  pub length-hex_text : (n : ℕ) → n < u256_mod → length (c.hex_text n) ≤ 64
