-- ===== src/Tailwind/Numbers.antt =====
-- The numbers that packages/opentui-dom/src/bridge/tailwind-mapper.ts reads with `parseFloat` and `parseInt`.
-- A number is an exact decimal, where the program has the nearest double.
use effect_native.Prelude.{
  ℕ, ◌+◌, ◌-◌, ◌*◌, ◌/◌, ◌^◌, ◌==◌, Bool, true, false, ◌&&◌, ◌||◌, Option, none, some, [], ◌∷◌,
  Text, codes, starts_with, leb, length, if◌then◌else◌,
}
use effect_native.Prelude.Int.{pos, negsuc}
use effect_native.Tailwind.Values.{Value, Number, decimal, unbounded, number, infinity}

unfoldable pub is_digit : ℕ → Bool
is_digit c = leb b'0' c && leb c b'9'

-- The longest front of digits, and what follows it.
unfoldable pub digit_run : Text → Text × Text
unfolding is_digit
digit_run [] = ([], [])
digit_run (c ∷ s) =
    let (run, rest) = digit_run s in if is_digit c then (c ∷ run, rest) else ([], c ∷ s)

unfoldable pub parse_digits : ℕ → Text → ℕ
parse_digits n [] = n
parse_digits n (c ∷ s) = parse_digits (n * 10 + (c - b'0')) s

-- The exponent after the digits of a number, if there is one, with its sign.
unfoldable pub signed_exponent : Text → Bool × ℕ
unfolding digit_run parse_digits
signed_exponent [] = (false, 0)
signed_exponent (c ∷ s) =
    if c == b'-'
    then (true, parse_digits 0 (digit_run s).0)
    else if c == b'+'
    then (false, parse_digits 0 (digit_run s).0)
    else (false, parse_digits 0 (digit_run (c ∷ s)).0)

unfoldable pub exponent : Text → Bool × ℕ
unfolding signed_exponent
exponent [] = (false, 0)
exponent (c ∷ s) = if (c == b'e') || (c == b'E') then signed_exponent s else (false, 0)

-- A number from the digits before and after its point, and its exponent.
abbrev pub number_of : Bool → Text → Text → Bool × ℕ → Option Number
unfolding parse_digits
number_of negative [] [] e = none
number_of negative [] (d ∷ fraction) (below, e) =
    if below
    then some (decimal negative (parse_digits 0 (d ∷ fraction)) 0 (length (d ∷ fraction) + e))
    else some (decimal negative (parse_digits 0 (d ∷ fraction)) e (length (d ∷ fraction)))
number_of negative (c ∷ whole) fraction (below, e) =
    if below
    then some (
        decimal negative (parse_digits (parse_digits 0 (c ∷ whole)) fraction) 0
          (length fraction + e))
    else some
        (decimal negative (parse_digits (parse_digits 0 (c ∷ whole)) fraction) e (length fraction))

-- The part of a number behind its whole digits.
unfoldable pub after_whole : Bool → Text → Text → Option Number
unfolding digit_run exponent number_of
after_whole negative whole [] = number_of negative whole [] (false, 0)
after_whole negative whole (c ∷ s) =
    if c == b'.'
    then number_of negative whole (digit_run s).0 (exponent (digit_run s).1)
    else number_of negative whole [] (exponent (c ∷ s))

unfoldable pub parse_unsigned : Bool → Text → Option Number
unfolding digit_run after_whole starts_with
parse_unsigned negative s =
    if starts_with (codes "Infinity") s
    then some (unbounded negative)
    else after_whole negative (digit_run s).0 (digit_run s).1

-- `parseFloat` of a text without white space; NaN is `none`.
unfoldable pub parse_float : Text → Option Number
unfolding parse_unsigned
parse_float [] = none
parse_float (c ∷ s) =
    if c == b'-'
    then parse_unsigned true s
    else if c == b'+'
    then parse_unsigned false s
    else parse_unsigned false (c ∷ s)

-- `Math.round(num / 4)`, which is the floor of `(num + 2) / 4`.
unfoldable pub round_quarter : Number → Value
round_quarter (unbounded negative) = infinity negative
round_quarter (decimal false m up down) =
    number (pos ((m * 10 ^ up + 2 * 10 ^ down) / (4 * 10 ^ down)))
round_quarter (decimal true m up down) =
    if leb (m * 10 ^ up) (2 * 10 ^ down)
    then number (pos 0)
    else number (negsuc ((m * 10 ^ up + 2 * 10 ^ down - 1) / (4 * 10 ^ down) - 1))
