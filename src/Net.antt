-- ===== src/Net.antt =====
-- What the program uses of Go's package net: `net.IP` is a list of bytes, 4 or 16 of them, and nil
-- is the empty list. The parser of IPv6 texts is a parameter; that of IPv4 is written out.
pub mod Octets
use lvs_nginx_controller.Base.{
  ℕ, ◌+◌, ◌-◌, ◌*◌, Bool, true, false, Option, none, some, List, [], ◌∷◌, ◌++◌, ltb, leb, ◌==◌,
  ◌&&◌, ◌||◌, length, if◌then◌else◌, nat_eq, list_eq,
}
use lvs_nginx_controller.Base.Text.{Text, starts_with}
use lvs_nginx_controller.Base.Text.Number.{is_digit}

abbrev pub Ip : Type 0
Ip = List ℕ

abbrev pub v4_in_v6_prefix : Ip
v4_in_v6_prefix = 0 ∷ 0 ∷ 0 ∷ 0 ∷ 0 ∷ 0 ∷ 0 ∷ 0 ∷ 0 ∷ 0 ∷ 255 ∷ 255 ∷ []

-- `net.IPv4(a, b, c, d)`, of 16 bytes
abbrev pub ipv4 : ℕ → ℕ → ℕ → ℕ → Ip
ipv4 a b c d = v4_in_v6_prefix ++ (a ∷ b ∷ c ∷ d ∷ [])

-- An address of 4 bytes in its form of 16.
unfoldable pub long_form : Ip → Ip
long_form (a ∷ b ∷ c ∷ d ∷ []) = ipv4 a b c d
long_form ip = ip

-- `ip.Equal(x)`: the short and the long form of an IPv4 address are equal.
unfoldable pub ip_equal : Ip → Ip → Bool
unfolding long_form
ip_equal ip x = long_form ip == long_form x

-- Whether `ip.To4()` and `ip.To16()` give an address.
unfoldable pub is_ipv4 : Ip → Bool
unfolding starts_with
is_ipv4 ip = length ip == 4 || (length ip == 16 && starts_with v4_in_v6_prefix ip)

abbrev pub is_ip : Ip → Bool
is_ip ip = length ip == 4 || length ip == 16

infixl 5 ◌>>=◌
abbrev pub ◌>>=◌ {ℓ κ} : {A : Type ℓ} {B : Type κ} → Option A → (A → Option B) → Option B
none >>= f = none
some a >>= f = f a

-- `dtoi`: the digits in front, as long as their number stays below 0xFFFFFF, and what follows.
unfoldable pub dtoi_loop : ℕ → Text → Option (ℕ × Text)
dtoi_loop n [] = some (n, [])
dtoi_loop n (c ∷ s) =
    let next = n * 10 + (c - 48) in
    let rest = dtoi_loop next s in
    if is_digit c then (if ltb next 0xFFFFFF then rest else none) else some (n, c ∷ s)

unfoldable pub dtoi : Text → Option (ℕ × Text)
unfolding dtoi_loop
dtoi [] = none
dtoi (c ∷ s) = if is_digit c then dtoi_loop 0 (c ∷ s) else none

unfoldable pub octet : Text → Option (ℕ × Text)
unfolding dtoi
octet s = dtoi s >>= λ r. if leb r.0 255 then some r else none

abbrev pub dot : Text → Option Text
dot [] = none
dot (c ∷ s) = if c == 46 then some s else none

abbrev end_of_text : Text → Option (Unit {0})
end_of_text [] = some tt
end_of_text (c ∷ s) = none

abbrev or_nil : Option Ip → Ip
or_nil none = []
or_nil (some ip) = ip

unfoldable pub parse_ipv4 : Text → Ip
unfolding octet
parse_ipv4 s = or_nil do
  (a, s₁) ← octet s
  t₁ ← dot s₁
  (b, s₂) ← octet t₁
  t₂ ← dot s₂
  (c, s₃) ← octet t₂
  t₃ ← dot s₃
  (d, s₄) ← octet t₃
  _ ← end_of_text s₄
  some (ipv4 a b c d)

-- `net.ParseIP`: the first dot or colon decides which of the two parsers reads the text.
parse_as : (Text → Ip) → Text → Text → Ip
parse_as parse_ipv6 whole [] = []
parse_as parse_ipv6 whole (c ∷ s) =
    let rest = parse_as parse_ipv6 whole s in
    if c == 46 then parse_ipv4 whole else if c == 58 then parse_ipv6 whole else rest

unfoldable pub parse_ip : (Text → Ip) → Text → Ip
unfolding parse_as parse_ipv4
parse_ip parse_ipv6 s = parse_as parse_ipv6 s s
