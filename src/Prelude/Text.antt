-- ===== src/Prelude/Text.antt =====
-- What the program uses of Python's `str`.
use Prim.Native.Nat.{◌-◌}
use Prim.Native.Char.{Char, code}
use Prim.Native.String.{String, [], ◌∷◌, char_at}
use mathlib.Core.Bool.{Bool, true, false, ◌&&◌}
use mathlib.Core.Option.{Option, none, some}
use text.Mathlib.Text.{◌==◌}
use autom.Prelude.Tests.{leb, if◌then◌else◌}

-- `ch.lower()` of an ASCII letter; the letters outside ASCII are left alone.
lower_char : Char → Char
lower_char c =
    let n = code c in
    if leb b'A' n && leb n b'Z' then char_at "abcdefghijklmnopqrstuvwxyz" (n - b'A') else c

unfoldable pub lower : String → String
unfolding lower_char
lower [] = []
lower (c ∷ s) = lower_char c ∷ lower s

-- `bool(s)`
abbrev pub is_truthy : String → Bool
is_truthy [] = false
is_truthy (c ∷ s) = true

-- `bool(x)` of a text or None
abbrev pub opt_truthy : Option String → Bool
opt_truthy none = false
opt_truthy (some s) = is_truthy s

-- `x == "..."` of a text or None
abbrev pub is_text : Option String → String → Bool
is_text none t = false
is_text (some s) t = s == t
