-- ===== src/Validate.antt =====
-- The validation of ports and addresses (pkg/controller/utils.go).
pub mod Ports
pub mod Addresses
use lvs_nginx_controller.Base.{
  ℕ, ◌^◌, Bool, true, false, ◌||◌, List, [], ◌∷◌, length, ltb, if◌then◌else◌,
}
use lvs_nginx_controller.Base.Text.{Text, codes, split}
use lvs_nginx_controller.Base.Text.Number.{
  number, failed, Parsed, atoi, is_negative, exceeds, low_word,
}

abbrev pub err_port : ℕ
err_port = 0

-- `net.IP("0.0.0.0")` holds the bytes of the text.
abbrev pub err_addr : Text
err_addr = codes "0.0.0.0"

-- `ValidatePort`
unfoldable pub validate_port : Text → Bool × ℕ
unfolding atoi
validate_port port = elim (atoi port) [
  | number p ↦
      if is_negative p || exceeds 99999 p then (false, err_port) else (true, low_word (2 ^ 16) p)
  | failed e p ↦ (false, err_port)
]

-- The body of the loop of `ValidateIPv4`.
unfoldable pub valid_part : Text → Bool
unfolding atoi
valid_part x = elim (atoi x) [
  | number i ↦ if is_negative i || exceeds 255 i then false else true
  | failed e i ↦ false
]

unfoldable pub valid_parts : List Text → Bool
unfolding valid_part
valid_parts [] = true
valid_parts (x ∷ parts) = let rest = valid_parts parts in if valid_part x then rest else false

-- `ValidateIPv4`. The address that it returns holds the bytes of the text.
unfoldable pub validate_ipv4 : Text → Bool × Text
unfolding split valid_parts
validate_ipv4 ipv4 =
    if ltb (length (split 46 ipv4)) 4
    then (false, err_addr)
    else if valid_parts (split 46 ipv4)
    then (true, ipv4)
    else (false, err_addr)
