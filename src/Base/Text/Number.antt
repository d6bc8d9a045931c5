-- ===== src/Base/Text/Number.antt =====
-- Signed integers as texts: `strconv.Atoi` where int has 64 bits, and decimal printing.
use Prim.Native.Nat.{ℕ, zero, suc, ◌+◌, ◌-◌, ◌*◌, ◌/◌, ◌%◌, ◌^◌, ◌≤◌, ◌<◌}
use mathlib.Core.Path.{◌≡◌, refl, sym, ap, ◌∙◌}
use mathlib.Core.Logic.{◌≢◌, inl, inr}
use mathlib.Core.Bool.{Bool, true, false, ◌&&◌}
use mathlib.Core.List.{List, [], ◌∷◌, ◌++◌}
use native.Mathlib.Omega.{arith}
use lvs_nginx_controller.Base.Equality.{◌==◌, if◌then◌else◌, leb, ltb, nat_eq, Bool-cases}

-- `negsuc n` is -(n + 1).
pub data ℤ : Type 0 where
  pos : ℕ → ℤ
  negsuc : ℕ → ℤ

abbrev pub neg : ℕ → ℤ
neg zero = pos 0
neg (suc n) = negsuc n

abbrev pub is_negative : ℤ → Bool
is_negative (pos n) = false
is_negative (negsuc n) = true

-- `k < a`
abbrev pub exceeds : ℕ → ℤ → Bool
exceeds k (pos n) = ltb k n
exceeds k (negsuc n) = false

-- `uint16(a)` and `uint32(a)` keep the low bits of the two's complement.
abbrev pub low_word : ℕ → ℤ → ℕ
low_word m (pos n) = n % m
low_word m (negsuc n) = m - 1 - n % m

pub data NumError : Type 0 where
  syntax range : NumError

-- What `Atoi` returns: the number is 0 beside a syntax error, and the nearest int beside a range
-- error.
pub data Parsed : Type 0 where
  number : ℤ → Parsed
  failed : NumError → ℤ → Parsed

pub data Digits : Type 0 where
  value : ℕ → Digits
  bad_digit : Digits
  too_big : Digits

abbrev pub is_digit : ℕ → Bool
is_digit c = leb 48 c && leb c 57

-- The loop of `ParseUint(s, 10, 64)`: the first bad digit or the first overflow ends it.
unfoldable pub parse_uint : ℕ → List ℕ → Digits
parse_uint n [] = value n
parse_uint n (c ∷ s) =
    let next = n * 10 + (c - 48) in
    let rest = parse_uint next s in
    if is_digit c then (if ltb next (2 ^ 64) then rest else too_big) else bad_digit

-- `ParseUint` refuses the empty text.
abbrev parse_unsigned : List ℕ → Digits
parse_unsigned [] = bad_digit
parse_unsigned (c ∷ s) = parse_uint 0 (c ∷ s)

-- The range tests of `ParseInt` without and with a minus sign.
abbrev positive : Digits → Parsed
positive (value n) = if ltb n (2 ^ 63) then number (pos n) else failed range (pos (2 ^ 63 - 1))
positive bad_digit = failed syntax (pos 0)
positive too_big = failed range (pos (2 ^ 63 - 1))

abbrev negative : Digits → Parsed
negative (value n) = if leb n (2 ^ 63) then number (neg n) else failed range (negsuc (2 ^ 63 - 1))
negative bad_digit = failed syntax (pos 0)
negative too_big = failed range (negsuc (2 ^ 63 - 1))

unfoldable pub atoi : List ℕ → Parsed
unfolding parse_uint
atoi [] = failed syntax (pos 0)
atoi (c ∷ s) =
    if c == 45
    then negative (parse_unsigned s)
    else if c == 43
    then positive (parse_unsigned s)
    else positive (parse_uint 0 (c ∷ s))

-- `%v` of an unsigned integer. The fuel is the number itself.
unfoldable pub decimal_loop : ℕ → ℕ → List ℕ
decimal_loop zero n = (48 + n % 10) ∷ []
decimal_loop (suc fuel) n =
    let more = decimal_loop fuel (n / 10) ++ ((48 + n % 10) ∷ []) in
    if ltb n 10 then (48 + n) ∷ [] else more

unfoldable pub decimal : ℕ → List ℕ
unfolding decimal_loop
decimal n = decimal_loop n n

abbrev then_parse : Digits → List ℕ → Digits
then_parse (value n) s = parse_uint n s
then_parse bad_digit s = bad_digit
then_parse too_big s = too_big

parse_uint-append : (n : ℕ) (s t : List ℕ) → parse_uint n (s ++ t) ≡ then_parse (parse_uint n s) t
unfolding parse_uint
parse_uint-append n [] t = refl
parse_uint-append n (c ∷ s) t = ground (arith, parse_uint-append (n * 10 + (c - 48)) s t)

parse_uint-digit :
    (n d : ℕ) → d < 10 → n * 10 + d < 2 ^ 64 → parse_uint n ((48 + d) ∷ []) ≡ value (n * 10 + d)
unfolding parse_uint
parse_uint-digit n d h k = ground arith

parse_uint-decimal_loop :
    (fuel n : ℕ) → n ≤ fuel → n < 2 ^ 64 → parse_uint 0 (decimal_loop fuel n) ≡ value n
unfolding decimal_loop
parse_uint-decimal_loop zero n h k = ground (arith, parse_uint-digit 0 (n % 10))
parse_uint-decimal_loop (suc fuel) n h k = ground (
  arith,
  parse_uint-digit 0 n,
  parse_uint-digit (n / 10) (n % 10),
  parse_uint-append 0 (decimal_loop fuel (n / 10)) ((48 + n % 10) ∷ []),
  parse_uint-decimal_loop fuel (n / 10),
)

append-ne-nil : (s : List ℕ) (c : ℕ) → s ++ (c ∷ []) ≢ []
append-ne-nil [] c = λ h. cc
append-ne-nil (x ∷ s) c = λ h. cc

decimal_loop-ne-nil : (fuel n : ℕ) → decimal_loop fuel n ≢ []
unfolding decimal_loop
decimal_loop-ne-nil zero n = λ h. cc
decimal_loop-ne-nil (suc fuel) n = elim (Bool-cases (ltb n 10)) [
  | inl small ↦ rw small (λ h. cc)
  | inr large ↦ rw large (append-ne-nil (decimal_loop fuel (n / 10)) (48 + n % 10))
]

-- An unsigned text has no sign.
atoi_unsigned :
    (s : List ℕ) (n : ℕ) → s ≢ [] → parse_uint 0 s ≡ value n → atoi s ≡ positive (value n)
unfolding atoi
atoi_unsigned [] n h p = absurd (h refl)
atoi_unsigned (c ∷ s) n h p = ground arith

-- `Atoi` reads back what `%v` prints.
pub atoi-decimal : (n : ℕ) → n < 2 ^ 63 → atoi (decimal n) ≡ number (pos n)
unfolding decimal
atoi-decimal n h =
    atoi_unsigned (decimal_loop n n) n (decimal_loop-ne-nil n n)
      (parse_uint-decimal_loop n n (omega arith) (omega arith))
    ∙ ground arith

pub parse_uint-decimal : (n : ℕ) → n < 2 ^ 63 → parse_uint 0 (decimal n) ≡ value n
unfolding decimal
parse_uint-decimal n h = parse_uint-decimal_loop n n (omega arith) (omega arith)

pub decimal-ne-nil : (n : ℕ) → decimal n ≢ []
unfolding decimal
decimal-ne-nil n = decimal_loop-ne-nil n n

parse_uint-dashed :
    (m n : ℕ) (s rest : List ℕ)
    → parse_uint m s ≡ value n
    → parse_uint m (s ++ (45 ∷ rest)) ≡ bad_digit
unfolding parse_uint
parse_uint-dashed m n [] rest h = ground arith
parse_uint-dashed m n (c ∷ s) rest h =
    ground (arith, parse_uint-dashed (m * 10 + (c - 48)) n s rest)

atoi-bad :
    (c : ℕ) (s : List ℕ)
    → is_digit c ≡ true
    → parse_uint 0 (c ∷ s) ≡ bad_digit
    → atoi (c ∷ s) ≡ failed syntax (pos 0)
unfolding atoi
atoi-bad c s d h = ground arith

-- A dash behind the digits is a syntax error.
pub atoi-dashed :
    (n : ℕ) (rest : List ℕ) → n < 2 ^ 63 → atoi (decimal n ++ (45 ∷ rest)) ≡ failed syntax (pos 0)
atoi-dashed n rest h = by_text (decimal n) refl
  where
    by_text : (s : List ℕ) → decimal n ≡ s → atoi (s ++ (45 ∷ rest)) ≡ failed syntax (pos 0)
    by_text [] e = absurd (decimal-ne-nil n e)
    by_text (c ∷ s) e =
        let parsed = sym (ap (parse_uint 0) e) ∙ parse_uint-decimal n h in
        atoi-bad c (s ++ (45 ∷ rest)) (unfold parse_uint in ground arith)
          (parse_uint-dashed 0 n (c ∷ s) rest parsed)

append-eq-single : (s : List ℕ) (c d : ℕ) → s ≢ [] → s ++ (d ∷ []) ≡ c ∷ [] → ⊥
append-eq-single [] c d h e = h refl
append-eq-single (x ∷ []) c d h e = cc
append-eq-single (x ∷ y ∷ s) c d h e = cc

decimal_loop-eq-single :
    (fuel n c : ℕ) → n ≤ fuel → decimal_loop fuel n ≡ c ∷ [] → (n < 10) × (c ≡ 48 + n)
unfolding decimal_loop
decimal_loop-eq-single zero n c k h = ground arith
decimal_loop-eq-single (suc fuel) n c k h = ground (
  arith,
  append-eq-single (decimal_loop fuel (n / 10)) c (48 + n % 10) (decimal_loop-ne-nil fuel (n / 10)),
)

-- Only a number below ten has a text of one byte, its digit.
pub decimal-eq-single : (n c : ℕ) → decimal n ≡ c ∷ [] → (n < 10) × (c ≡ 48 + n)
unfolding decimal
decimal-eq-single n c h = decimal_loop-eq-single n n c (omega arith) h
