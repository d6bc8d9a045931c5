-- ===== src/Ipvs/Manager/Marks.antt =====
-- The port in the command of `Fwmark`.
use mathlib.Core.Path.{subst}
use lvs_nginx_controller.Base.{ℕ, ◌^◌, ◌<◌, ◌≤◌, inl, inr, Bool-cases, ◌≢◌, sym, nat_eq, arith, ltb}
use lvs_nginx_controller.Base.Text.Number.{decimal, decimal-eq-single}
use lvs_nginx_controller.Base.Text.Split.{AllDigits, decimal-AllDigits}
use lvs_nginx_controller.Ipvs.Manager.{rune_text}

not_digits : (n : ℕ) → n < 2 ^ 16 → 128 ≤ n → ¬ AllDigits (rune_text n)
unfolding rune_text
not_digits n h k d = ground arith

-- `string(dport)` is the text of the code point, never the decimal text of the port.
pub rune_text-ne-decimal : (n : ℕ) → n < 2 ^ 16 → rune_text n ≢ decimal n
unfolding rune_text
rune_text-ne-decimal n h e = elim (Bool-cases (ltb n 128)) [
  | inl small ↦ ground (arith, decimal-eq-single n n (ground arith))
  | inr large ↦ not_digits n h (ground arith) (subst AllDigits (sym e) (decimal-AllDigits n))
]
