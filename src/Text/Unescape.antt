-- ===== src/Text/Unescape.antt =====
-- url.PathUnescape of the standard library.
use cli_control_account.Base.{
  ℕ, zero, suc, ◌+◌, ◌-◌, ◌*◌, [], ◌∷◌, true, false, ◌&&◌, leb, Option, none, some, ◌==◌,
  if◌then◌else◌,
}
use cli_control_account.Text.{Text}

unfoldable pub unhex : ℕ → Option ℕ
unhex c =
    if leb b'0' c && leb c b'9'
    then some (c - b'0')
    else if leb b'a' c && leb c b'f'
    then some (c - b'a' + 10)
    else if leb b'A' c && leb c b'F'
    then some (c - b'A' + 10)
    else none

abbrev cons_byte : Option ℕ → Option ℕ → Option Text → Option Text
cons_byte (some h) (some l) (some s) = some ((h * 16 + l) ∷ s)
cons_byte _ _ _ = none

abbrev cons_plain : ℕ → Option Text → Option Text
cons_plain c none = none
cons_plain c (some s) = some (c ∷ s)

-- The first two bytes after a percent sign.
abbrev escaped : Text → Option Text → Option Text
escaped (d ∷ e ∷ s) rest = cons_byte (unhex d) (unhex e) rest
escaped _ rest = none

-- The rest of a path, where `skip` bytes belong to an escape that is already read.
unfoldable pub unescape_from : ℕ → Text → Option Text
unfolding unhex
unescape_from skip [] = some []
unescape_from zero (c ∷ s) = elim (c == b'%') [
  | true ↦ escaped s (unescape_from 2 s)
  | false ↦ cons_plain c (unescape_from 0 s)
]
unescape_from (suc skip) (c ∷ s) = unescape_from skip s

-- `none` is the error of a percent sign without two hexadecimal digits.
unfoldable pub path_unescape : Text → Option Text
unfolding unescape_from
path_unescape s = unescape_from 0 s
