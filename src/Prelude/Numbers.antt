-- ===== src/Prelude/Numbers.antt =====
-- Numbers read from decimal texts: `strconv.ParseUint`, `ParseInt` and `Atoi` of the source, and
-- `ParseBool`. A number that is out of range comes with the value that the source returns beside its error.
use Prim.Native.Nat.{ℕ, zero, suc, ◌+◌, ◌-◌, ◌*◌, ◌/◌, ◌%◌, ◌^◌, ◌≤◌, ◌<◌}
use Prim.Native.Char.{code}
use Prim.Native.String.{String, ◌++◌, ◌∷◌ as str_cons}
use mathlib.Core.Logic.{inl, inr}
use niova_mdsvc.Prelude.Decimal.{digit, decimal, itoa, utoa}
use mathlib.Core.Path.{ap, sym, ◌≡◌, refl, ◌∙◌}
use mathlib.Core.Bool.{Bool, true, false, ◌||◌}
use mathlib.Core.List.{[], ◌∷◌}
use native.Mathlib.Nat.{pow-succ'}
use native.Mathlib.Omega.{arith}
use text.Mathlib.TextLemmas.{nil-append, cons-append}
use niova_mdsvc.Prelude.Tests.{◌==◌, ltb, if◌then◌else◌, Bool-cases, lt→ltb}
use niova_mdsvc.Prelude.Texts.{is_empty, is_empty-append}
use niova_mdsvc.Prelude.Lists.{elem}
use niova_mdsvc.Prelude.Words.{two63, two64}

pub data Parsed : Type 0 where
  number : ℕ → Parsed
  bad_syntax : Parsed
  out_of_range : ℕ → Parsed

-- The loop of `ParseUint` over the digits; `max` is the largest number of the width.
unfoldable pub scan : ℕ → ℕ → String → Parsed
scan max n String.[] = number n
scan max n (String.◌∷◌ c s) =
    let d = code c - b'0' in
    let rest = scan max (n * 10 + d) s in
    if ltb (code c) b'0' || ltb b'9' (code c)
    then bad_syntax
    else if ltb max (n * 10 + d)
    then out_of_range max
    else rest

unfoldable pub parse_uint : ℕ → String → Parsed
unfolding scan
parse_uint max String.[] = bad_syntax
parse_uint max (String.◌∷◌ c s) = scan max 0 (str_cons c s)

abbrev pub max_u8 : ℕ
max_u8 = 2 ^ 8 - 1

abbrev pub max_u32 : ℕ
max_u32 = 2 ^ 32 - 1

abbrev pub max_u64 : ℕ
max_u64 = 2 ^ 64 - 1

-- `ParseInt` on the text behind the sign; a negative number is its bit pattern.
unfoldable pub signed : Bool → Parsed → Parsed
signed neg bad_syntax = bad_syntax
signed neg (out_of_range n) = out_of_range (if neg then two63 else two63 - 1)
signed false (number n) = if ltb n two63 then number n else out_of_range (two63 - 1)
signed true (number n) = if ltb two63 n then out_of_range two63 else number ((two64 - n) % two64)

unfoldable pub parse_int : String → Parsed
unfolding parse_uint signed
parse_int String.[] = bad_syntax
parse_int (String.◌∷◌ c s) =
    if code c == b'+'
    then signed false (parse_uint max_u64 s)
    else if code c == b'-'
    then signed true (parse_uint max_u64 s)
    else signed false (parse_uint max_u64 (str_cons c s))

-- The number that `Atoi` returns, whatever its error.
unfoldable pub value_of_parsed : Parsed → ℕ
value_of_parsed (number n) = n
value_of_parsed bad_syntax = 0
value_of_parsed (out_of_range n) = n

unfoldable pub atoi : String → ℕ
unfolding parse_int value_of_parsed
atoi s = value_of_parsed (parse_int s)

-- `ParseBool`, false on an error.
unfoldable pub parse_bool : String → Bool
parse_bool s = elem s ("1" ∷ "t" ∷ "T" ∷ "TRUE" ∷ "true" ∷ "True" ∷ [])

minus_five : atoi "-5" ≡ two64 - 5
unfolding atoi
minus_five = refl

too_large : parse_uint max_u8 "256" ≡ out_of_range 255
unfolding parse_uint
too_large = refl

no_number : parse_int "12x" ≡ bad_syntax
unfolding parse_int
no_number = refl

number_eq : {m n : ℕ} → number m ≡ number n → m ≡ n
number_eq h = cc

scan-append :
    (max : ℕ) (s t : String) (n m : ℕ)
    → scan max n s ≡ number m
    → scan max n (s ++ t) ≡ scan max m t
unfolding scan
scan-append max String.[] t n m h = rw (nil-append t) (ap (λ (k : ℕ). scan max k t) (number_eq h))
scan-append max (String.◌∷◌ c s) t n m h =
    rw (cons-append c s t) (ground (arith, scan-append max s t (n * 10 + (code c - 48)) m))

scan-digit : (max d n : ℕ) → d < 10 → n * 10 + d ≤ max → scan max n (digit d) ≡ number (n * 10 + d)
unfolding scan digit
scan-digit max zero n h k = ground arith
scan-digit max (suc zero) n h k = ground arith
scan-digit max (suc (suc zero)) n h k = ground arith
scan-digit max (suc (suc (suc zero))) n h k = ground arith
scan-digit max (suc (suc (suc (suc zero)))) n h k = ground arith
scan-digit max (suc (suc (suc (suc (suc zero))))) n h k = ground arith
scan-digit max (suc (suc (suc (suc (suc (suc zero)))))) n h k = ground arith
scan-digit max (suc (suc (suc (suc (suc (suc (suc zero))))))) n h k = ground arith
scan-digit max (suc (suc (suc (suc (suc (suc (suc (suc zero)))))))) n h k = ground arith
scan-digit max (suc (suc (suc (suc (suc (suc (suc (suc (suc zero))))))))) n h k = ground arith
scan-digit max (suc (suc (suc (suc (suc (suc (suc (suc (suc (suc d)))))))))) n h k =
    absurd (omega arith)

tenth-lt : (fuel n : ℕ) → n < 10 ^ suc fuel → n / 10 < 10 ^ fuel
tenth-lt fuel n h = let bound : n < 10 * 10 ^ fuel = rw (← pow-succ' 10 fuel) h in omega arith

scan_none : (max n : ℕ) → n ≡ 0 → scan max 0 "" ≡ number n
unfolding scan
scan_none max n h = ap number (sym h)

scan-decimal : (max fuel n : ℕ) → n < 10 ^ fuel → n ≤ max → scan max 0 (decimal fuel n) ≡ number n
unfolding decimal
scan-decimal max zero n h k = scan_none max n (omega arith)
scan-decimal max (suc fuel) n h k = elim (Bool-cases (ltb n 10)) [
  | inl small ↦
      rw (small, decimal)
        (scan-digit max n 0 (ground arith) (omega arith) ∙ ap number (omega arith))
  | inr large ↦
      rw (large, decimal)
        (scan-append max (decimal fuel (n / 10)) (digit (n % 10)) 0 (n / 10)
            (scan-decimal max fuel (n / 10) (tenth-lt fuel n h) (omega arith))
          ∙ scan-digit max (n % 10) (n / 10) (omega arith) (omega arith)
          ∙ ap number (omega arith))
]

-- `-` and `+` are no digits.
parse_int-scan :
    (s : String) (n : ℕ) → parse_uint max_u64 s ≡ number n → n < two63 → parse_int s ≡ number n
unfolding parse_int parse_uint scan signed
parse_int-scan String.[] n h k = cc
parse_int-scan (String.◌∷◌ c s) n h k = ground arith

parse_uint-scan :
    (max : ℕ) (s : String) (n : ℕ)
    → is_empty s ≡ false
    → scan max 0 s ≡ number n
    → parse_uint max s ≡ number n
unfolding parse_uint
parse_uint-scan max String.[] n e h = cc
parse_uint-scan max (String.◌∷◌ c s) n e h = h

is_empty-digit : (d : ℕ) → d < 10 → is_empty (digit d) ≡ false
unfolding digit
is_empty-digit zero h = refl
is_empty-digit (suc zero) h = refl
is_empty-digit (suc (suc zero)) h = refl
is_empty-digit (suc (suc (suc zero))) h = refl
is_empty-digit (suc (suc (suc (suc zero)))) h = refl
is_empty-digit (suc (suc (suc (suc (suc zero))))) h = refl
is_empty-digit (suc (suc (suc (suc (suc (suc zero)))))) h = refl
is_empty-digit (suc (suc (suc (suc (suc (suc (suc zero))))))) h = refl
is_empty-digit (suc (suc (suc (suc (suc (suc (suc (suc zero)))))))) h = refl
is_empty-digit (suc (suc (suc (suc (suc (suc (suc (suc (suc zero))))))))) h = refl
is_empty-digit (suc (suc (suc (suc (suc (suc (suc (suc (suc (suc d)))))))))) h =
    absurd (omega arith)

is_empty-decimal : (fuel n : ℕ) → is_empty (decimal (suc fuel) n) ≡ false
unfolding decimal
is_empty-decimal fuel n = elim (Bool-cases (ltb n 10)) [
  | inl small ↦ rw (small, decimal) (is_empty-digit n (ground arith))
  | inr large ↦
      rw (large, decimal)
        (is_empty-append (decimal fuel (n / 10)) (digit (n % 10))
          (is_empty-digit (n % 10) (omega arith)))
]

itoa-decimal : (n : ℕ) → n < two63 → itoa n ≡ decimal 20 n
unfolding itoa
itoa-decimal n h = rw (lt→ltb n two63 h) refl

pub is_empty-itoa : (n : ℕ) → n < two63 → is_empty (itoa n) ≡ false
is_empty-itoa n h = rw (itoa-decimal n h) (is_empty-decimal 19 n)

pub parse_uint-utoa : (max n : ℕ) → n < two64 → n ≤ max → parse_uint max (utoa n) ≡ number n
unfolding utoa
parse_uint-utoa max n h k =
    parse_uint-scan max (decimal 20 n) n (is_empty-decimal 19 n)
      (scan-decimal max 20 n (omega arith) k)

pub parse_uint-itoa : (max n : ℕ) → n < two63 → n ≤ max → parse_uint max (itoa n) ≡ number n
parse_uint-itoa max n h k = rw (itoa-decimal n h) (
    parse_uint-scan max (decimal 20 n) n (is_empty-decimal 19 n)
      (scan-decimal max 20 n (omega arith) k))

pub parse_int-itoa : (n : ℕ) → n < two63 → parse_int (itoa n) ≡ number n
parse_int-itoa n h = parse_int-scan (itoa n) n (parse_uint-itoa max_u64 n h (omega arith)) h

pub atoi-itoa : (n : ℕ) → n < two63 → atoi (itoa n) ≡ n
unfolding atoi value_of_parsed
atoi-itoa n h = ap value_of_parsed (parse_int-itoa n h)
