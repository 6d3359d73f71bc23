-- ===== src/Text/Decimal.antt =====
-- The decimal print of an int (the verb d of fmt, strconv.Itoa) and strconv.Atoi.
use micro_conf.Base.{
  ℕ, zero, suc, ◌+◌, ◌-◌, ◌*◌, ◌/◌, ◌%◌, ◌^◌, ◌<◌, ◌≤◌, ◌≡◌, ◌≢◌, ◌∙◌, sym, refl, ◌||◌, Option,
  none, some, [], ◌∷◌, arith, ◌==◌, ltb, leb, if◌then◌else◌, All,
}
use micro_conf.Text.Bytes.{Bytes, Lacks, codes}

-- `negsuc n` is -(n + 1).
pub data ℤ : Type 0 where
  pos : ℕ → ℤ
  negsuc : ℕ → ℤ

emit : ℕ → ℕ → Bytes → Bytes
emit zero n out = out
emit (suc fuel) n out =
    let rest = emit fuel (n / 10) ((b'0' + n % 10) ∷ out) in
    if ltb n 10 then (b'0' + n) ∷ out else rest

-- The number is a bound on the number of its digits.
unfoldable pub digits : ℕ → Bytes
unfolding emit
digits n = emit (suc n) n []

unfoldable pub format_int : ℤ → Bytes
unfolding digits
format_int (pos n) = digits n
format_int (negsuc n) = b'-' ∷ digits (suc n)

-- The value of the digits behind those that spell `n`; no digit at all is the caller's case.
unfoldable pub scan : ℕ → Bytes → Option ℕ
scan n [] = some n
scan n (c ∷ s) =
    let rest = scan (n * 10 + (c - b'0')) s in if ltb c b'0' || ltb b'9' c then none else rest

unfoldable pub parse_nat : Bytes → Option ℕ
unfolding scan
parse_nat [] = none
parse_nat (c ∷ s) = scan 0 (c ∷ s)

abbrev pub max_int : ℕ
max_int = 2 ^ 63 - 1

unfoldable pub in_range : Option ℕ → Option ℤ
in_range none = none
in_range (some n) = if leb n max_int then some (pos n) else none

unfoldable pub in_range_minus : Option ℕ → Option ℤ
in_range_minus none = none
in_range_minus (some zero) = some (pos 0)
in_range_minus (some (suc n)) = if leb n max_int then some (negsuc n) else none

-- strconv.Atoi: an optional sign, at least one digit, and a value that fits an int64.
unfoldable pub atoi : Bytes → Option ℤ
unfolding parse_nat in_range in_range_minus
atoi [] = none
atoi (c ∷ s) =
    if c == b'-'
    then in_range_minus (parse_nat s)
    else if c == b'+'
    then in_range (parse_nat s)
    else in_range (parse_nat (c ∷ s))

scan_digit : (m d : ℕ) (s : Bytes) → d < 10 → scan m ((b'0' + d) ∷ s) ≡ scan (m * 10 + d) s
unfolding scan
scan_digit m d s h = ground arith

-- Reading the digits that the loop writes in front of `out` gives the number back.
scan-emit : (fuel n : ℕ) (out : Bytes) → n < fuel → scan 0 (emit fuel n out) ≡ scan n out
unfolding emit
scan-emit zero n out h = absurd (omega arith)
scan-emit (suc fuel) n out h = ground (
  arith,
  scan-emit fuel (n / 10) ((b'0' + n % 10) ∷ out),
  scan_digit (n / 10) (n % 10) out,
  scan_digit 0 n out,
)

abbrev pub IsDigit : ℕ → Type 0
IsDigit c = (b'0' ≤ c) × (c ≤ b'9')

pub IsDigit-colon : ¬ IsDigit b':'
IsDigit-colon h = omega arith

emit-IsDigit :
    (fuel n : ℕ) (out : Bytes) → n < fuel → All IsDigit out → All IsDigit (emit fuel n out)
unfolding emit
emit-IsDigit zero n out h d = absurd (omega arith)
emit-IsDigit (suc fuel) n out h d =
    ground (arith, emit-IsDigit fuel (n / 10) ((b'0' + n % 10) ∷ out))

pub digits-IsDigit : (n : ℕ) → All IsDigit (digits n)
unfolding digits
digits-IsDigit n = emit-IsDigit (suc n) n [] (omega arith) tt

-- A byte that is no digit does not occur among digits.
pub IsDigit-Lacks : (c : ℕ) (s : Bytes) → ¬ IsDigit c → All IsDigit s → Lacks c s
IsDigit-Lacks c [] h d = tt
IsDigit-Lacks c (x ∷ s) h (dx, ds) = ((λ e. h (ground arith)), IsDigit-Lacks c s h ds)

emit-ne-nil : (fuel n : ℕ) (out : Bytes) → n < fuel → emit fuel n out ≢ []
unfolding emit
emit-ne-nil zero n out h = absurd (omega arith)
emit-ne-nil (suc fuel) n out h = ground (arith, emit-ne-nil fuel (n / 10) ((b'0' + n % 10) ∷ out))

digits-ne-nil : (n : ℕ) → digits n ≢ []
unfolding digits
digits-ne-nil n = emit-ne-nil (suc n) n [] (omega arith)

scan-digits : (n : ℕ) → scan 0 (digits n) ≡ some n
unfolding digits scan
scan-digits n = scan-emit (suc n) n [] (omega arith)

parse_nat-scan : (s : Bytes) → s ≢ [] → parse_nat s ≡ scan 0 s
unfolding parse_nat
parse_nat-scan [] h = absurd (h refl)
parse_nat-scan (c ∷ s) h = refl

pub parse_nat-digits : (n : ℕ) → parse_nat (digits n) ≡ some n
parse_nat-digits n = parse_nat-scan (digits n) (digits-ne-nil n) ∙ scan-digits n

-- A text of digits has no sign.
atoi_digits : (s : Bytes) → s ≢ [] → All IsDigit s → atoi s ≡ in_range (parse_nat s)
unfolding atoi
atoi_digits [] h d = absurd (h refl)
atoi_digits (c ∷ s) h d = ground arith

-- The integers of 64 bits.
abbrev pub Fits : ℤ → Type 0
Fits (pos n) = n ≤ max_int
Fits (negsuc n) = n ≤ max_int

-- Atoi reads every int64 back from its decimal print.
pub atoi-format_int : (z : ℤ) → Fits z → atoi (format_int z) ≡ some z
unfolding format_int in_range
atoi-format_int (pos n) h =
    ground (arith, atoi_digits (digits n) (digits-ne-nil n) (digits-IsDigit n), parse_nat-digits n)
atoi-format_int (negsuc n) h =
    unfold atoi in_range_minus in ground (arith, parse_nat-digits (suc n))

minus_42 : atoi (codes "-42") ≡ some (negsuc 41)
unfolding atoi
minus_42 = refl

printed : format_int (pos 8080) ≡ codes "8080"
unfolding format_int
printed = refl

out_of_range : atoi (codes "9223372036854775808") ≡ none
unfolding atoi
out_of_range = refl

-- A text whose bytes the decimal print never uses.
pub format_int-Lacks : (c : ℕ) (z : ℤ) → ¬ IsDigit c → c ≢ b'-' → Lacks c (format_int z)
unfolding format_int
format_int-Lacks c (pos n) h m = IsDigit-Lacks c (digits n) h (digits-IsDigit n)
format_int-Lacks c (negsuc n) h m =
    ((λ e. m (sym e)), IsDigit-Lacks c (digits (suc n)) h (digits-IsDigit (suc n)))
