-- ===== src/Base/Text/Split.antt =====
-- What the parts of a split text are, and that printed numbers hold digits only.
use Prim.Native.Nat.{ℕ, zero, suc, ◌+◌, ◌/◌, ◌%◌}
use mathlib.Core.Path.{◌≡◌, refl}
use mathlib.Core.Bool.{true, false}
use mathlib.Core.List.{[], ◌∷◌, ◌++◌}
use native.Mathlib.Omega.{arith}
use lvs_nginx_controller.Base.Equality.{contains, nat_eq}
use lvs_nginx_controller.Base.Lists.{All}
use lvs_nginx_controller.Base.Text.{Text, split}
use lvs_nginx_controller.Base.Text.Number.{is_digit, decimal_loop, decimal}

-- A text without the separator is one part.
pub split-single : (sep : ℕ) (s : Text) → contains s sep ≡ false → split sep s ≡ s ∷ []
unfolding split
split-single sep [] h = refl
split-single sep (c ∷ s) h = ground (arith, split-single sep s)

-- The first part ends at the first separator.
pub split-append :
    (sep : ℕ) (s t : Text) → contains s sep ≡ false → split sep (s ++ (sep ∷ t)) ≡ s ∷ split sep t
unfolding split
split-append sep [] t h = ground arith
split-append sep (c ∷ s) t h = ground (arith, split-append sep s t)

abbrev pub AllDigits : Text → Type 0
AllDigits = All (λ c. is_digit c ≡ true)

AllDigits-append : (s t : Text) → AllDigits s → AllDigits t → AllDigits (s ++ t)
AllDigits-append [] t hs ht = ht
AllDigits-append (c ∷ s) t hs ht = (hs.0, AllDigits-append s t hs.1 ht)

decimal_loop-AllDigits : (fuel n : ℕ) → AllDigits (decimal_loop fuel n)
unfolding decimal_loop
decimal_loop-AllDigits zero n = (ground arith, tt)
decimal_loop-AllDigits (suc fuel) n = ground (
  arith,
  AllDigits-append (decimal_loop fuel (n / 10)) ((48 + n % 10) ∷ [])
      (decimal_loop-AllDigits fuel (n / 10)) (ground arith, tt),
)

-- A printed number consists of digits.
pub decimal-AllDigits : (n : ℕ) → AllDigits (decimal n)
unfolding decimal
decimal-AllDigits n = decimal_loop-AllDigits n n

-- No byte of such a text is below `0` or above `9`.
pub contains-AllDigits :
    (sep : ℕ) (s : Text) → is_digit sep ≡ false → AllDigits s → contains s sep ≡ false
contains-AllDigits sep [] h d = refl
contains-AllDigits sep (c ∷ s) h d = ground (arith, contains-AllDigits sep s h d.1)
