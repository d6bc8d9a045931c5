-- ===== src/Net/Octets.antt =====
-- Dotted texts of printed octets: `net.ParseIP` reads four of them and no more.
use lvs_nginx_controller.Base.{
  ℕ, ◌+◌, ◌-◌, ◌*◌, ◌≤◌, ◌<◌, ◌≡◌, refl, ◌∙◌, false, some, [], ◌∷◌, ◌++◌, arith, nat_eq, ◌≢◌,
}
use lvs_nginx_controller.Base.Text.{Text}
use lvs_nginx_controller.Base.Text.Number.{
  is_digit, parse_uint, value, decimal, parse_uint-decimal, decimal-ne-nil,
}
use lvs_nginx_controller.Base.Text.Split.{AllDigits, decimal-AllDigits}
use lvs_nginx_controller.Net.{Ip, ipv4, dtoi_loop, octet, parse_ipv4, parse_as, parse_ip}

parse_uint-le : (m n : ℕ) (s : Text) → parse_uint m s ≡ value n → m ≤ n
unfolding parse_uint
parse_uint-le m n [] h = ground arith
parse_uint-le m n (c ∷ s) h = ground (arith, parse_uint-le (m * 10 + (c - 48)) n s)

dtoi_loop-append :
    (m n : ℕ) (s t : Text)
    → parse_uint m s ≡ value n
    → n < 0xFFFFFF
    → dtoi_loop m (s ++ t) ≡ dtoi_loop n t
unfolding parse_uint dtoi_loop
dtoi_loop-append m n [] t h k = ground arith
dtoi_loop-append m n (c ∷ s) t h k =
    ground
      (arith, dtoi_loop-append (m * 10 + (c - 48)) n s t, parse_uint-le (m * 10 + (c - 48)) n s)

-- What may follow a number: nothing, or a byte that is no digit.
abbrev Ends : Text → Type 0
Ends [] = Unit
Ends (c ∷ t) = is_digit c ≡ false

dtoi_loop_end : (n : ℕ) (t : Text) → Ends t → dtoi_loop n t ≡ some (n, t)
unfolding dtoi_loop
dtoi_loop_end n [] e = refl
dtoi_loop_end n (c ∷ t) e = ground arith

octet_of_digits :
    (s t : Text) (n : ℕ)
    → s ≢ []
    → AllDigits s
    → parse_uint 0 s ≡ value n
    → n ≤ 255
    → Ends t
    → octet (s ++ t) ≡ some (n, t)
unfolding octet
octet_of_digits [] t n h d p k e = absurd (h refl)
octet_of_digits (c ∷ s) t n h d p k e =
    ground (arith, dtoi_loop-append 0 n (c ∷ s) t, dtoi_loop_end n t e)

-- A printed octet is read back, up to the byte after it.
pub octet-decimal : (n : ℕ) (t : Text) → n ≤ 255 → Ends t → octet (decimal n ++ t) ≡ some (n, t)
octet-decimal n t k e =
    octet_of_digits (decimal n) t n (decimal-ne-nil n) (decimal-AllDigits n)
      (parse_uint-decimal n (omega arith)) k e

abbrev pub after_c : ℕ → Text → Text
after_c d rest = 46 ∷ (decimal d ++ rest)

abbrev pub after_b : ℕ → ℕ → Text → Text
after_b c d rest = 46 ∷ (decimal c ++ after_c d rest)

abbrev pub after_a : ℕ → ℕ → ℕ → Text → Text
after_a b c d rest = 46 ∷ (decimal b ++ after_b c d rest)

-- `a.b.c.d`, and then `rest`
abbrev pub quad : ℕ → ℕ → ℕ → ℕ → Text → Text
quad a b c d rest = decimal a ++ after_a b c d rest

module _ (a b c d : ℕ) (ha : a ≤ 255) (hb : b ≤ 255) (hc : c ≤ 255) (hd : d ≤ 255) where
  parse_ipv4-quad : parse_ipv4 (quad a b c d []) ≡ ipv4 a b c d
  unfolding parse_ipv4
  parse_ipv4-quad = ground (
    arith,
    octet-decimal a (after_a b c d []) ha refl,
    octet-decimal b (after_b c d []) hb refl,
    octet-decimal c (after_c d []) hc refl,
    octet-decimal d [] hd tt,
  )

  -- A dot and more after the fourth octet is an error.
  parse_ipv4-quad_more : (rest : Text) → parse_ipv4 (quad a b c d (46 ∷ rest)) ≡ []
  unfolding parse_ipv4
  parse_ipv4-quad_more rest = ground (
    arith,
    octet-decimal a (after_a b c d (46 ∷ rest)) ha refl,
    octet-decimal b (after_b c d (46 ∷ rest)) hb refl,
    octet-decimal c (after_c d (46 ∷ rest)) hc refl,
    octet-decimal d (46 ∷ rest) hd refl,
  )

parse_as-digits :
    (parse_ipv6 : Text → Ip) (whole s t : Text)
    → AllDigits s
    → parse_as parse_ipv6 whole (s ++ (46 ∷ t)) ≡ parse_ipv4 whole
unfolding parse_as
parse_as-digits parse_ipv6 whole [] t d = ground arith
parse_as-digits parse_ipv6 whole (c ∷ s) t d =
    ground (arith, parse_as-digits parse_ipv6 whole s t d.1)

module _ (parse_ipv6 : Text → Ip) (a b c d : ℕ) (ha : a ≤ 255) (hb : b ≤ 255) (hc : c ≤ 255)
    (hd : d ≤ 255) where
  pub parse_ip-quad : parse_ip parse_ipv6 (quad a b c d []) ≡ ipv4 a b c d
  unfolding parse_ip
  parse_ip-quad =
      parse_as-digits parse_ipv6 (quad a b c d []) (decimal a) (decimal b ++ after_b c d [])
        (decimal-AllDigits a)
      ∙ parse_ipv4-quad a b c d ha hb hc hd

  pub parse_ip-quad_more : (rest : Text) → parse_ip parse_ipv6 (quad a b c d (46 ∷ rest)) ≡ []
  unfolding parse_ip
  parse_ip-quad_more rest =
      parse_as-digits parse_ipv6 (quad a b c d (46 ∷ rest)) (decimal a)
        (decimal b ++ after_b c d (46 ∷ rest)) (decimal-AllDigits a)
      ∙ parse_ipv4-quad_more a b c d ha hb hc hd rest
