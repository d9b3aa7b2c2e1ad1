-- ===== src/Text/Decimal.antt =====
-- strconv.FormatInt and strconv.ParseInt in base 10 for 64 bits, and their round trip.
use bke_console_service.Prelude.{
  Bool-cases, inl, inr, ◌≢◌, refl, ℕ, zero, suc, ◌+◌, ◌-◌, ◌*◌, ◌/◌, ◌%◌, ◌^◌, ◌<◌, ◌≡◌, ◌&&◌, [],
  ◌∷◌, ◌++◌, Option, none, some, arith, ltb, leb, ◌==◌, if◌then◌else◌,
}
use bke_console_service.Prelude.Int.{ℤ, pos, negsuc}
use bke_console_service.Text.{Text}

-- The digits of a number below the fuel, the last one put at the end.
unfoldable pub digits : ℕ → ℕ → Text
digits zero n = []
digits (suc fuel) n =
    let before = digits fuel (n / 10) in
    if ltb n 10 then (n + 48) ∷ [] else before ++ (n % 10 + 48) ∷ []

-- strconv.FormatInt(i, 10)
unfoldable pub format_int : ℤ → Text
unfolding digits
format_int (pos n) = digits (suc n) n
format_int (negsuc n) = b'-' ∷ digits (suc (suc n)) (suc n)

unfoldable pub parse_digits : ℕ → Text → Option ℕ
parse_digits acc [] = some acc
parse_digits acc (c ∷ s) =
    let rest = parse_digits (acc * 10 + (c - 48)) s in if leb 48 c && leb c 57 then rest else none

unfoldable pub positive : Option ℕ → Option ℤ
positive none = none
positive (some n) = if ltb n (2 ^ 63) then some (pos n) else none

unfoldable pub negative : Option ℕ → Option ℤ
negative none = none
negative (some zero) = some (pos 0)
negative (some (suc n)) = if ltb n (2 ^ 63) then some (negsuc n) else none

unfoldable pub parse_unsigned : Text → Option ℕ
unfolding parse_digits
parse_unsigned [] = none
parse_unsigned (c ∷ s) = parse_digits 0 (c ∷ s)

-- strconv.ParseInt(s, 10, 64); `none` stands for both of its errors
unfoldable pub parse_int : Text → Option ℤ
unfolding parse_unsigned positive negative
parse_int [] = none
parse_int (c ∷ s) =
    if c == b'+'
    then positive (parse_unsigned s)
    else if c == b'-'
    then negative (parse_unsigned s)
    else positive (parse_unsigned (c ∷ s))

-- The range of a Go int64.
abbrev pub FitsInt64 : ℤ → Type 0
FitsInt64 (pos n) = n < 2 ^ 63
FitsInt64 (negsuc n) = n < 2 ^ 63

parse_digits-append :
    (acc n : ℕ) (s t : Text)
    → parse_digits acc s ≡ some n
    → parse_digits acc (s ++ t) ≡ parse_digits n t
unfolding parse_digits
parse_digits-append acc n [] t h = ground arith
parse_digits-append acc n (c ∷ s) t h =
    ground (arith, parse_digits-append (acc * 10 + (c - 48)) n s t)

snoc-ne-nil : (s : Text) (c : ℕ) → s ++ c ∷ [] ≢ []
snoc-ne-nil [] c = λ e. cc e
snoc-ne-nil (d ∷ s) c = λ e. cc e

last_digit : (n : ℕ) → parse_digits (n / 10) ((n % 10 + 48) ∷ []) ≡ some n
unfolding parse_digits
last_digit n = ground arith

one_digit : (n : ℕ) → n < 10 → parse_digits 0 ((n + 48) ∷ []) ≡ some n
unfolding parse_digits
one_digit n h = ground arith

parse_digits-digits : (fuel n : ℕ) → n < fuel → parse_digits 0 (digits fuel n) ≡ some n
unfolding digits
parse_digits-digits zero n h = absurd (omega arith)
parse_digits-digits (suc fuel) n h = ground (
  arith,
  parse_digits-digits fuel (n / 10),
  parse_digits-append 0 (n / 10) (digits fuel (n / 10)) ((n % 10 + 48) ∷ []),
  last_digit n,
  one_digit n,
)

digits-ne-nil : (fuel n : ℕ) → digits (suc fuel) n ≢ []
unfolding digits
digits-ne-nil fuel n = elim (Bool-cases (ltb n 10)) [
  | inl small ↦ rw small (λ e. cc e)
  | inr large ↦ rw large (snoc-ne-nil (digits fuel (n / 10)) _)
]

parse_int_of_digits :
    (s : Text) (n : ℕ)
    → s ≢ []
    → parse_digits 0 s ≡ some n
    → n < 2 ^ 63
    → parse_int s ≡ some (pos n)
unfolding parse_int parse_digits
parse_int_of_digits [] n h e b = absurd (h refl)
parse_int_of_digits (c ∷ s) n h e b = ground arith

parse_negative :
    (s : Text) (n : ℕ)
    → s ≢ []
    → parse_digits 0 s ≡ some (suc n)
    → n < 2 ^ 63
    → parse_int (b'-' ∷ s) ≡ some (negsuc n)
unfolding parse_int parse_digits
parse_negative [] n h e b = absurd (h refl)
parse_negative (c ∷ s) n h e b = ground arith

-- Every int64 that is written in decimal is read back as itself.
pub parse_int-format_int : (z : ℤ) → FitsInt64 z → parse_int (format_int z) ≡ some z
unfolding format_int
parse_int-format_int (pos n) h =
    parse_int_of_digits _ n (digits-ne-nil n n) (parse_digits-digits (suc n) n (omega arith)) h
parse_int-format_int (negsuc n) h =
    parse_negative _ n (digits-ne-nil (suc n) (suc n))
      (parse_digits-digits (suc (suc n)) (suc n) (omega arith)) h
