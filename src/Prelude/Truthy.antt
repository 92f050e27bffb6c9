-- ===== src/Prelude/Truthy.antt =====
-- What JavaScript takes for true, of values that may be missing.
use Prim.Native.Nat.{ℕ}
use mathlib.Core.Option.{Option, none, some}
use mathlib.Core.List.{[], ◌∷◌}
use cmnw.Prelude.Tests.{◌==◌, if◌then◌else◌}
use cmnw.Prelude.Strings.{Text, same_text}
use mathlib.Core.Bool.{Bool, true, false}

-- `x || null` on numbers, and on strings
unfoldable pub truthy_number : Option ℕ → Option ℕ
truthy_number none = none
truthy_number (some n) = if n == 0 then none else some n

unfoldable pub truthy_text : Option Text → Option Text
truthy_text none = none
truthy_text (some []) = none
truthy_text (some (c ∷ s)) = some (c ∷ s)

-- `===` on strings that may be null
abbrev pub same_option : Option Text → Option Text → Bool
same_option none none = true
same_option none (some t) = false
same_option (some s) none = false
same_option (some s) (some t) = same_text s t
