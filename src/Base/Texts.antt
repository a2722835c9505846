-- ===== src/Base/Texts.antt =====
-- A `std::string` is the list of its bytes.
use Prim.Native.Char.{code}
use Prim.Native.String.{String}
use Prim.Native.Nat.{ℕ, ◌≤◌}
use mathlib.Core.Bool.{Bool, true, false, ◌&&◌}
use mathlib.Core.List.{List, [], ◌∷◌}
use mathlib.Core.Logic.{◌↔◌}
use mathlib.Core.Path.{◌≡◌, refl}
use native.Mathlib.Omega.{arith}
use avme_wallet.Base.Tests.{◌==◌, if◌then◌else◌}
use avme_wallet.Base.Lists.{take, drop, replicate, All}

abbrev pub Str : Type 0
Str = List ℕ

-- The bytes of an ASCII literal.
abbrev pub codes : String → Str
codes String.[] = []
codes (String.◌∷◌ c s) = code c ∷ codes s

-- `a == b` on strings.
abbrev pub same : Str → Str → Bool
same [] [] = true
same [] (c ∷ t) = false
same (c ∷ s) [] = false
same (c ∷ s) (d ∷ t) = (c == d) && same s t

pub same→eq : (s t : Str) → same s t ≡ true → s ≡ t
same→eq [] [] h = refl
same→eq [] (c ∷ t) h = cc
same→eq (c ∷ s) [] h = cc
same→eq (c ∷ s) (d ∷ t) h = ground (arith, same→eq s t)

pub same_sym : (s t : Str) → same s t ≡ same t s
same_sym [] [] = refl
same_sym [] (c ∷ t) = refl
same_sym (c ∷ s) [] = refl
same_sym (c ∷ s) (d ∷ t) = ground (arith, same_sym s t)

pub same_refl : (s : Str) → same s s ≡ true
same_refl [] = refl
same_refl (c ∷ s) = ground (arith, same_refl s)

pub same_iff : (s t : Str) → (same s t ≡ true) ↔ (s ≡ t)
same_iff s t = (same→eq s t, λ e. rw e (same_refl t))

abbrev pub zeros : ℕ → Str
zeros k = replicate k b'0'

abbrev pub is_empty : Str → Bool
is_empty [] = true
is_empty (c ∷ s) = false

pub is_empty→nil : (s : Str) → is_empty s ≡ true → s ≡ []
is_empty→nil [] h = refl
is_empty→nil (c ∷ s) h = cc

-- `s.substr(2)` if the text begins with "0x", and the text itself if not.
unfoldable pub strip_0x : Str → Str
strip_0x s = if same (take 2 s) (codes "0x") then drop 2 s else s

abbrev pub Digits : Str → Type 0
Digits = All (λ c. (b'0' ≤ c) × (c ≤ b'9'))
