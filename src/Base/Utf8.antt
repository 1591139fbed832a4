-- ===== src/Base/Utf8.antt =====
-- `utf8.ValidString`.
use nakama_playflow.Base.Tests.{leb, nat_eq, ◌==◌, if◌then◌else◌}
use nakama_playflow.Base.Strings.{Text}
use Prim.Native.Nat.{ℕ, zero, suc}
use mathlib.Core.Bool.{Bool, true, false, ◌&&◌}
use mathlib.Core.Option.{Option, none, some}
use mathlib.Core.List.{[], ◌∷◌}

-- What a first byte calls for: how many bytes more, and between which bounds the next one lies.
abbrev pub utf8_start : ℕ → Option (ℕ × ℕ × ℕ)
utf8_start c =
    if leb c 0x7f
    then some (0, 0x80, 0xbf)
    else if leb 0xc2 c && leb c 0xdf
    then some (1, 0x80, 0xbf)
    else if c == 0xe0
    then some (2, 0xa0, 0xbf)
    else if c == 0xed
    then some (2, 0x80, 0x9f)
    else if leb 0xe1 c && leb c 0xef
    then some (2, 0x80, 0xbf)
    else if c == 0xf0
    then some (3, 0x90, 0xbf)
    else if c == 0xf4
    then some (3, 0x80, 0x8f)
    else if leb 0xf1 c && leb c 0xf3
    then some (3, 0x80, 0xbf)
    else none

unfoldable pub utf8_from : ℕ → ℕ → ℕ → Text → Bool
utf8_from zero low high [] = true
utf8_from (suc n) low high [] = false
utf8_from zero low high (c ∷ s) = elim (utf8_start c) [
  | none ↦ false
  | some (n, low', high') ↦ utf8_from n low' high' s
]
utf8_from (suc n) low high (c ∷ s) =
    let rest = utf8_from n 0x80 0xbf s in if leb low c && leb c high then rest else false

unfoldable pub valid_utf8 : Text → Bool
unfolding utf8_from
valid_utf8 s = utf8_from 0 0x80 0xbf s
