-- ===== src/Base/Text.antt =====
-- `std::string` as a list of bytes, and its members that the source calls.
use Prim.Native.Char.{code}
use Prim.Native.Nat.{ℕ, suc}
use Prim.Native.String.{String}
use mathlib.Core.Path.{◌≡◌, refl}
use mathlib.Core.Logic.{◌↔◌, ◌≢◌}
use mathlib.Core.Bool.{Bool, true, false, ◌&&◌}
use mathlib.Core.Option
use mathlib.Core.Option.{Option, none, some}
use mathlib.Core.List.{List, [], ◌∷◌}
use native.Mathlib.Omega.{arith}
use oai_cn5g_sepp.Base.Tests.{ltb, ◌=?◌, if◌then◌else◌}
use oai_cn5g_sepp.Base.Lists.{length, take, drop, is_empty}

abbrev pub Bytes : Type 0
Bytes = List ℕ

-- A literal. The source's literals are ASCII, so its code points are its bytes.
abbrev pub codes : String → Bytes
codes String.[] = []
codes (String.◌∷◌ c s) = code c ∷ codes s

infix 50 ◌==◌
unfoldable pub ◌==◌ : Bytes → Bytes → Bool
[] == [] = true
[] == (b ∷ t) = false
(a ∷ s) == [] = false
(a ∷ s) == (b ∷ t) = a =? b && s == t

-- `s.rfind(prefix, 0) == 0`
unfoldable pub starts_with : Bytes → Bytes → Bool
starts_with s [] = true
starts_with [] (p ∷ ps) = false
starts_with (c ∷ s) (p ∷ ps) = c =? p && starts_with s ps

-- `s.find(pattern)`, `none` for `npos`
unfoldable pub find : Bytes → Bytes → Option ℕ
unfolding starts_with
find [] p = if is_empty p then some 0 else none
find (c ∷ s) p =
    let later = Option.map suc (find s p) in if starts_with (c ∷ s) p then some 0 else later

-- `s.substr(pos, count)`, `none` for `std::out_of_range`
abbrev pub substr : Bytes → ℕ → ℕ → Option Bytes
substr s pos count = if ltb (length s) pos then none else some (take count (drop pos s))

-- `s.substr(pos)`
abbrev pub substr_from : Bytes → ℕ → Option Bytes
substr_from s pos = if ltb (length s) pos then none else some (drop pos s)

pub ==_iff : (s t : Bytes) → ((s == t) ≡ true) ↔ (s ≡ t)
unfolding ◌==◌
==_iff [] [] = ground arith
==_iff [] (b ∷ t) = ground arith
==_iff (a ∷ s) [] = ground arith
==_iff (a ∷ s) (b ∷ t) = ground (arith, ==_iff s t)

pub ==_refl : (s : Bytes) → (s == s) ≡ true
==_refl s = (==_iff s s).1 refl

pub ==-true : {s t : Bytes} → s ≡ t → (s == t) ≡ true
==-true {s} {t} h = (==_iff s t).1 h

pub ==-false : {s t : Bytes} → s ≢ t → (s == t) ≡ false
==-false {s} {t} h = ground (arith, ==_iff s t)
