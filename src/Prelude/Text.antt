-- ===== src/Prelude/Text.antt =====
-- `str.upper` and `str.lower` on ASCII letters, `sep.join` and `+` of texts.
use Prim.Native.Nat.{ℕ, ◌+◌, ◌-◌}
use Prim.Native.Char.{Char, code}
use Prim.Native.String.{String, char_at}
use mathlib.Core.Bool.{◌&&◌}
use mathlib.Core.List.{List, [], ◌∷◌}
pub use text.Mathlib.Text.{starts_with}
pub use Prim.Native.String.{◌++◌ as ◌<>◌}
use tlo.Prelude.Tests.{leb, if◌then◌else◌}

-- The letter of an alphabet at the place of a letter in the one that begins at `first`.
shift : ℕ → String → Char → Char
shift first letters c =
    if leb first (code c) && leb (code c) (first + 25) then char_at letters (code c - first) else c

unfoldable pub upper : String → String
unfolding shift
upper String.[] = String.[]
upper (String.◌∷◌ c s) = String.◌∷◌ (shift 97 "ABCDEFGHIJKLMNOPQRSTUVWXYZ" c) (upper s)

unfoldable pub lower : String → String
unfolding shift
lower String.[] = String.[]
lower (String.◌∷◌ c s) = String.◌∷◌ (shift 65 "abcdefghijklmnopqrstuvwxyz" c) (lower s)

unfoldable pub join : String → List String → String
join sep [] = ""
join sep (s ∷ []) = s
join sep (s ∷ t ∷ ss) = s <> (sep <> join sep (t ∷ ss))
