-- ===== src/Base/Text.antt =====
-- Go strings as lists of bytes, and what the program uses of `strings`, `strconv` and `fmt`.
pub mod Number
pub mod Split
use Prim.Native.Char.{code}
use Prim.Native.String.{String}
use Prim.Native.Nat.{ℕ}
use mathlib.Core.Bool.{Bool, true, false, ◌&&◌, ◌||◌}
use mathlib.Core.List.{List, [], ◌∷◌}
use lvs_nginx_controller.Base.Equality.{◌==◌, if◌then◌else◌, nat_eq}

abbrev pub Text : Type 0
Text = List ℕ

-- The bytes of an ASCII literal.
abbrev pub codes : String → Text
codes String.[] = []
codes (String.◌∷◌ c s) = code c ∷ codes s

abbrev push_head : ℕ → List Text → List Text
push_head c [] = (c ∷ []) ∷ []
push_head c (part ∷ parts) = (c ∷ part) ∷ parts

-- `strings.Split(s, sep)` at a separator of one byte. There is always a first part.
unfoldable pub split : ℕ → Text → List Text
split sep [] = [] ∷ []
split sep (c ∷ s) = let rest = split sep s in if c == sep then [] ∷ rest else push_head c rest

unfoldable pub starts_with : Text → Text → Bool
starts_with [] s = true
starts_with (p ∷ prefix) [] = false
starts_with (p ∷ prefix) (c ∷ s) = c == p && starts_with prefix s

-- `strings.Contains(s, part)`
unfoldable pub contains_text : Text → Text → Bool
unfolding starts_with
contains_text [] part = starts_with part []
contains_text (c ∷ s) part = starts_with part (c ∷ s) || contains_text s part

-- `strings.Replace(s, old, "", -1)` for an old text of one byte
unfoldable pub remove_all : ℕ → Text → Text
remove_all old [] = []
remove_all old (c ∷ s) = let rest = remove_all old s in if c == old then rest else c ∷ rest
