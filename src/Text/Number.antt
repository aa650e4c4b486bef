-- ===== src/Text/Number.antt =====
-- strconv.ParseInt(s, 10, 64) and strconv.Atoi of the standard library.
use cli_control_account.Base.{
  ℕ, ◌+◌, ◌-◌, ◌*◌, ◌^◌, [], ◌∷◌, Bool, true, false, ◌&&◌, ltb, leb, ◌==◌, if◌then◌else◌,
}
use cli_control_account.Base.Int.{ℤ, pos, sub_ℕ}
use cli_control_account.Text.{Text}

-- What the digits of a text give; a number that leaves 64 bits ends the reading.
pub data Digits : Type 0 where
  bad_syntax too_large : Digits
  number : ℕ → Digits

abbrev pub is_digit : ℕ → Bool
is_digit c = leb b'0' c && leb c b'9'

unfoldable pub digits_from : ℕ → Text → Digits
digits_from n [] = number n
digits_from n (c ∷ s) =
    let m = n * 10 + (c - b'0') in
    let rest = digits_from m s in
    if is_digit c then (if ltb m (2 ^ 64) then rest else too_large) else bad_syntax

unfoldable pub digits : Text → Digits
unfolding digits_from
digits [] = bad_syntax
digits (c ∷ s) = digits_from 0 (c ∷ s)

-- The value and whether there is no error. A number out of range has the nearest value.
abbrev not_negative : Digits → ℤ × Bool
not_negative bad_syntax = (pos 0, false)
not_negative too_large = (pos (2 ^ 63 - 1), false)
not_negative (number n) = if ltb n (2 ^ 63) then (pos n, true) else (pos (2 ^ 63 - 1), false)

abbrev negative : Digits → ℤ × Bool
negative bad_syntax = (pos 0, false)
negative too_large = (sub_ℕ 0 (2 ^ 63), false)
negative (number n) = if leb n (2 ^ 63) then (sub_ℕ 0 n, true) else (sub_ℕ 0 (2 ^ 63), false)

unfoldable pub parse_int : Text → ℤ × Bool
unfolding digits
parse_int [] = (pos 0, false)
parse_int (c ∷ s) =
    if c == b'-'
    then negative (digits s)
    else if c == b'+'
    then not_negative (digits s)
    else not_negative (digits (c ∷ s))

-- strconv.Atoi, whose error is dropped
abbrev pub atoi : Text → ℤ
atoi s = (parse_int s).0
