-- ===== src/Tests/Texts.antt =====
-- The theorems on the validation and on the comparison of ports, at concrete data.
use lvs_nginx_controller.Base.{
  ℕ, ◌≡◌, ◌≤◌, ◌-◌, ◌%◌, ◌^◌, ◌↔◌, refl, true, false, none, [], ◌∷◌, if◌then◌else◌, ltb, nat_eq,
  list_eq, arith, All, length,
}
use lvs_nginx_controller.Base.Text.{codes, split}
use lvs_nginx_controller.Base.Text.Number.{atoi, decimal, number, pos}
use lvs_nginx_controller.Base.Dict.{lookup}
use lvs_nginx_controller.Base.Dict.DeepEqual.{deep_equal, all_in}
use lvs_nginx_controller.Net.{parse_ip, ipv4}
use lvs_nginx_controller.Net.Octets.{quad}
use lvs_nginx_controller.Validate.{validate_port, validate_ipv4, err_port}
use lvs_nginx_controller.Validate.Ports.{
  validate_port_iff, validate_port-decimal, validate_port-aliases,
}
use lvs_nginx_controller.Validate.Addresses.{IsOctet, validate_ipv4_iff, validate_ipv4-quad}
use lvs_nginx_controller.Store.{PortMap, addition, l4_compare}
use lvs_nginx_controller.Store.Compare.{change, l4_compare_changed}
use lvs_nginx_controller.Tests.{memory}

validate_port_iff_example :
    (validate_port (codes "80") ≡ (true, 80))
    ↔ ((n : ℕ) × (atoi (codes "80") ≡ number (pos n)) × (n ≤ 99999) × (80 ≡ n % 2 ^ 16))
validate_port_iff_example = validate_port_iff (codes "80") 80

validate_port-decimal_example :
    validate_port (decimal 8080)
    ≡ (if ltb 99999 8080 then (false, err_port) else (true, 8080 % 2 ^ 16))
validate_port-decimal_example = validate_port-decimal 8080 (omega arith)

validate_port-aliases_example :
    (validate_port (decimal 65616) ≡ (true, 65616 - 2 ^ 16))
    × (validate_port (decimal 65616) ≡ validate_port (decimal (65616 - 2 ^ 16)))
validate_port-aliases_example = validate_port-aliases 65616 (omega arith) (omega arith)

validate_ipv4_iff_example : (validate_ipv4 (codes "10.1.0.2") ≡ (true, codes "10.1.0.2")) ↔ (
    (4 ≤ length (split 46 (codes "10.1.0.2")))
    × All IsOctet (split 46 (codes "10.1.0.2"))
    × (codes "10.1.0.2" ≡ codes "10.1.0.2"))
validate_ipv4_iff_example = validate_ipv4_iff (codes "10.1.0.2") (codes "10.1.0.2")

validate_ipv4-quad_example :
    (validate_ipv4 (quad 10 1 0 2 []) ≡ (true, quad 10 1 0 2 []))
    × (parse_ip memory.parse_ipv6 (validate_ipv4 (quad 10 1 0 2 [])).1 ≡ ipv4 10 1 0 2)
validate_ipv4-quad_example =
    validate_ipv4-quad memory.parse_ipv6 10 1 0 2 (omega arith) (omega arith) (omega arith)
      (omega arith)

abbrev old_ports : PortMap
old_ports = (80, codes "tcp") ∷ (443, codes "tcp") ∷ []

abbrev new_ports : PortMap
new_ports = (443, codes "tcp") ∷ (8080, codes "tcp") ∷ []

abbrev stale : PortMap
stale = (22, addition) ∷ []

l4_compare_changed_example :
    let r = l4_compare old_ports new_ports stale in
    (lookup 8080 r.old_one ≡ lookup 8080 new_ports)
    × (lookup 8080 r.new_one ≡ none)
    × (lookup 8080 r.delta_one ≡ change (lookup 8080 old_ports) (lookup 8080 new_ports))
unfolding lookup deep_equal all_in list_eq nat_eq
l4_compare_changed_example =
    l4_compare_changed old_ports new_ports stale (refl, (refl, tt)) (refl, (refl, tt)) refl 8080
