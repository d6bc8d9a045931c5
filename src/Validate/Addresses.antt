-- ===== src/Validate/Addresses.antt =====
-- Which texts `ValidateIPv4` takes for addresses, beside what `net.ParseIP` makes of them.
use lvs_nginx_controller.Base.{
  ℕ, ◌≤◌, ◌≡◌, ◌↔◌, refl, true, false, List, [], ◌∷◌, arith, All, length, contains, nat_eq,
}
use mathlib.Core.List.{append-nil}
use lvs_nginx_controller.Base.Text.{Text, split}
use lvs_nginx_controller.Base.Text.Number.{
  Parsed, pos, negsuc, failed, number, atoi, decimal, atoi-decimal,
}
use lvs_nginx_controller.Base.Text.Split.{
  split-single, split-append, decimal-AllDigits, contains-AllDigits,
}
use lvs_nginx_controller.Net.{Ip, ipv4, parse_ip}
use lvs_nginx_controller.Net.Octets.{quad, parse_ip-quad, parse_ip-quad_more}
use lvs_nginx_controller.Validate.{valid_part, valid_parts, validate_ipv4}

-- The part reads as a number from 0 to 255.
abbrev pub IsOctet : Text → Type 0
IsOctet x = (n : ℕ) × (atoi x ≡ number (pos n)) × (n ≤ 255)

valid_part-IsOctet : (x : Text) → valid_part x ≡ true → IsOctet x
unfolding valid_part
valid_part-IsOctet x = by_result (atoi x) refl
  where
    by_result : (r : Parsed) → atoi x ≡ r → valid_part x ≡ true → IsOctet x
    by_result (number (pos n)) e h = (n, e, ground arith)
    by_result (number (negsuc n)) e h = absurd (ground arith)
    by_result (failed r n) e h = absurd (ground arith)

IsOctet-valid_part : (x : Text) → IsOctet x → valid_part x ≡ true
unfolding valid_part
IsOctet-valid_part x o = ground arith

valid_parts-IsOctet : (xs : List Text) → valid_parts xs ≡ true → All IsOctet xs
unfolding valid_parts
valid_parts-IsOctet [] h = tt
valid_parts-IsOctet (x ∷ xs) h =
    (valid_part-IsOctet x (ground arith), valid_parts-IsOctet xs (ground arith))

IsOctet-valid_parts : (xs : List Text) → All IsOctet xs → valid_parts xs ≡ true
unfolding valid_parts
IsOctet-valid_parts [] h = refl
IsOctet-valid_parts (x ∷ xs) h =
    ground (arith, IsOctet-valid_part x h.0, IsOctet-valid_parts xs h.1)

-- `ValidateIPv4` accepts a text exactly when it has four or more parts between dots, each of
-- which reads as a number from 0 to 255, and then returns the text.
pub validate_ipv4_iff :
    (s t : Text)
    → (validate_ipv4 s ≡ (true, t))
      ↔ ((4 ≤ length (split 46 s)) × All IsOctet (split 46 s) × (t ≡ s))
unfolding validate_ipv4
validate_ipv4_iff s t = (
  λ h. (ground arith, valid_parts-IsOctet (split 46 s) (ground arith), ground arith),
  λ r. ground (arith, IsOctet-valid_parts (split 46 s) r.1),
)

decimal-IsOctet : (n : ℕ) → n ≤ 255 → IsOctet (decimal n)
decimal-IsOctet n h = (n, atoi-decimal n (omega arith), h)

no_dot : (n : ℕ) → contains (decimal n) 46 ≡ false
no_dot n = contains-AllDigits 46 (decimal n) refl (decimal-AllDigits n)

split-quad :
    (a b c d : ℕ) → split 46 (quad a b c d []) ≡ decimal a ∷ decimal b ∷ decimal c ∷ decimal d ∷ []
split-quad a b c d = rw (
  split-append 46 (decimal a) _ (no_dot a),
  split-append 46 (decimal b) _ (no_dot b),
  split-append 46 (decimal c) _ (no_dot c),
  append-nil,
  split-single 46 (decimal d) (no_dot d),
)

split-quad_more :
    (a b c d : ℕ) (rest : Text)
    → split 46 (quad a b c d (46 ∷ rest))
      ≡ decimal a ∷ decimal b ∷ decimal c ∷ decimal d ∷ split 46 rest
split-quad_more a b c d rest = rw (
  split-append 46 (decimal a) _ (no_dot a),
  split-append 46 (decimal b) _ (no_dot b),
  split-append 46 (decimal c) _ (no_dot c),
  split-append 46 (decimal d) rest (no_dot d),
)

module _ (parse_ipv6 : Text → Ip) (a b c d : ℕ) (ha : a ≤ 255) (hb : b ≤ 255) (hc : c ≤ 255)
    (hd : d ≤ 255) where
  -- A text of four printed octets is accepted, and `net.ParseIP` reads the address of these octets
  -- from what is returned.
  pub validate_ipv4-quad :
      (validate_ipv4 (quad a b c d []) ≡ (true, quad a b c d []))
      × (parse_ip parse_ipv6 (validate_ipv4 (quad a b c d [])).1 ≡ ipv4 a b c d)
  validate_ipv4-quad = (accepted, rw accepted (parse_ip-quad parse_ipv6 a b c d ha hb hc hd))
    where
      octets : All IsOctet (decimal a ∷ decimal b ∷ decimal c ∷ decimal d ∷ [])
      octets = (
        decimal-IsOctet a ha,
        (decimal-IsOctet b hb, (decimal-IsOctet c hc, (decimal-IsOctet d hd, tt))),
      )

      accepted : validate_ipv4 (quad a b c d []) ≡ (true, quad a b c d [])
      accepted =
          (validate_ipv4_iff (quad a b c d []) (quad a b c d [])).1
            (rw (split-quad a b c d) (omega arith, octets, refl))

  -- A fifth printed octet is accepted too, but `net.ParseIP` reads no address from the text.
  validate_ipv4-five :
      (e : ℕ)
      → e ≤ 255
      → let s = quad a b c d (46 ∷ decimal e) in
        (validate_ipv4 s ≡ (true, s)) × (parse_ip parse_ipv6 s ≡ [])
  validate_ipv4-five e he = (
    (validate_ipv4_iff _ _).1 (
        rw (split-quad_more a b c d (decimal e), split-single 46 (decimal e) (no_dot e))
          (omega arith, octets, refl)),
    parse_ip-quad_more parse_ipv6 a b c d ha hb hc hd (decimal e),
  )
    where
      octets : All IsOctet (decimal a ∷ decimal b ∷ decimal c ∷ decimal d ∷ decimal e ∷ [])
      octets = (
        decimal-IsOctet a ha,
        (
          decimal-IsOctet b hb,
          (decimal-IsOctet c hc, (decimal-IsOctet d hd, (decimal-IsOctet e he, tt))),
        ),
      )
