-- ===== src/Validate/Ports.antt =====
-- Which texts `ValidatePort` takes for ports, and for which port.
use lvs_nginx_controller.Base.{
  ℕ, ◌-◌, ◌%◌, ◌^◌, ◌≤◌, ◌<◌, ◌≡◌, ◌↔◌, ◌∙◌, sym, refl, ltb, if◌then◌else◌, true, false, arith,
}
use lvs_nginx_controller.Base.Text.{Text}
use lvs_nginx_controller.Base.Text.Number.{
  pos, negsuc, number, failed, Parsed, atoi, decimal, atoi-decimal,
}
use lvs_nginx_controller.Validate.{validate_port, err_port}

validate_port_of_atoi :
    (s : Text) (n : ℕ)
    → atoi s ≡ number (pos n)
    → validate_port s ≡ (if ltb 99999 n then (false, err_port) else (true, n % 2 ^ 16))
unfolding validate_port
validate_port_of_atoi s n e = ground arith

-- `ValidatePort` accepts a text with port p exactly when the text reads as a number from 0 to
-- 99999 whose low 16 bits are p.
pub validate_port_iff :
    (s : Text) (p : ℕ)
    → (validate_port s ≡ (true, p))
      ↔ ((n : ℕ) × (atoi s ≡ number (pos n)) × (n ≤ 99999) × (p ≡ n % 2 ^ 16))
validate_port_iff s p = (accepted, λ r. validate_port_of_atoi s r.0 r.1 ∙ ground arith)
  where
    by_result :
        (r : Parsed)
        → atoi s ≡ r
        → validate_port s ≡ (true, p)
        → (n : ℕ) × (atoi s ≡ number (pos n)) × (n ≤ 99999) × (p ≡ n % 2 ^ 16)
    by_result (number (pos n)) e h = (
      n,
      e,
      ground (arith, validate_port_of_atoi s n e),
      ground (arith, validate_port_of_atoi s n e),
    )
    by_result (number (negsuc n)) e h = absurd (unfold validate_port in ground arith)
    by_result (failed r n) e h = absurd (unfold validate_port in ground arith)

    accepted :
        validate_port s ≡ (true, p)
        → (n : ℕ) × (atoi s ≡ number (pos n)) × (n ≤ 99999) × (p ≡ n % 2 ^ 16)
    accepted = by_result (atoi s) refl

-- A printed number up to 99999 is accepted and gives its low 16 bits; a larger one that fits an
-- int is refused.
pub validate_port-decimal :
    (n : ℕ)
    → n < 2 ^ 63
    → validate_port (decimal n) ≡ (if ltb 99999 n then (false, err_port) else (true, n % 2 ^ 16))
validate_port-decimal n h = validate_port_of_atoi (decimal n) n (atoi-decimal n h)

-- The printed port numbers, 0 to 65535, are accepted as themselves.
pub validate_port-decimal_word : (n : ℕ) → n < 2 ^ 16 → validate_port (decimal n) ≡ (true, n)
validate_port-decimal_word n h = validate_port-decimal n (omega arith) ∙ ground arith

-- The printed numbers from 65536 to 99999 are no ports, and are accepted as the ports that lie
-- 65536 below them.
pub validate_port-aliases :
    (n : ℕ)
    → 2 ^ 16 ≤ n
    → n ≤ 99999
    → (validate_port (decimal n) ≡ (true, n - 2 ^ 16))
      × (validate_port (decimal n) ≡ validate_port (decimal (n - 2 ^ 16)))
validate_port-aliases n h k =
    (aliased, aliased ∙ sym (validate_port-decimal_word (n - 2 ^ 16) (omega arith)))
  where
    aliased : validate_port (decimal n) ≡ (true, n - 2 ^ 16)
    aliased = validate_port-decimal n (omega arith) ∙ ground arith
