-- ===== src/Prelude/Hex.antt =====
-- Hexadecimal text, as `format!` writes it and `from_str_radix(_, 16)` reads it.
use Prim.Native.Nat.{ℕ, ◌+◌, ◌-◌, ◌*◌, ◌/◌, ◌%◌, ◌<◌}
use mathlib.Core.Path.{◌≡◌}
use mathlib.Core.Bool.{false, ◌&&◌}
use mathlib.Core.Option.{Option, none, some}
use mathlib.Core.List.{[], ◌∷◌}
use native.Mathlib.Omega.{arith}
use vanity_manager.Prelude.Tests.{ltb, leb, ◌==◌, if◌then◌else◌}
use vanity_manager.Prelude.Text.{Str}

unfoldable pub hex_lower : ℕ → ℕ
hex_lower d = if ltb d 10 then d + b'0' else d - 10 + b'a'

unfoldable pub hex_upper : ℕ → ℕ
hex_upper d = if ltb d 10 then d + b'0' else d - 10 + b'A'

-- `format!("{:04x}", c)` for a code point, which has at most six digits.
unfoldable pub format_04x : ℕ → Str
format_04x c =
    let low =
      hex_lower (c / 4096 % 16)
      ∷ hex_lower (c / 256 % 16)
      ∷ hex_lower (c / 16 % 16)
      ∷ hex_lower (c % 16)
      ∷ [] in
    if ltb c 0x10000
    then low
    else if ltb c 0x100000
    then hex_lower (c / 65536) ∷ low
    else hex_lower (c / 1048576) ∷ hex_lower (c / 65536 % 16) ∷ low

-- `format!("{:02X}", b)` for a byte.
unfoldable pub format_02X : ℕ → Str
format_02X b = hex_upper (b / 16) ∷ hex_upper (b % 16) ∷ []

-- `char::to_digit(16)`
unfoldable pub hex_value : ℕ → Option ℕ
hex_value c =
    if leb b'0' c && leb c b'9'
    then some (c - b'0')
    else if leb b'a' c && leb c b'f'
    then some (c - b'a' + 10)
    else if leb b'A' c && leb c b'F'
    then some (c - b'A' + 10)
    else none

hex_digits : ℕ → Str → Option ℕ
hex_digits n [] = some n
hex_digits n (c ∷ s) = elim (hex_value c) [ none ↦ none | some d ↦ hex_digits (n * 16 + d) s ]

-- `u32::from_str_radix(s, 16)` for at most eight characters, where it cannot overflow.
unfoldable pub from_str_radix_16 : Str → Option ℕ
unfolding hex_digits
from_str_radix_16 [] = none
from_str_radix_16 (c ∷ []) = hex_value c
from_str_radix_16 (c ∷ d ∷ s) = if c == b'+' then hex_digits 0 (d ∷ s) else hex_digits 0 (c ∷ d ∷ s)

pub hex_value-hex_lower : (d : ℕ) → d < 16 → hex_value (hex_lower d) ≡ some d
unfolding hex_value hex_lower
hex_value-hex_lower d h = ground arith

pub hex_value-hex_upper : (d : ℕ) → d < 16 → hex_value (hex_upper d) ≡ some d
unfolding hex_value hex_upper
hex_value-hex_upper d h = ground arith

pub hex_lower-lt : (d : ℕ) → d < 16 → hex_lower d < 128
unfolding hex_lower
hex_lower-lt d h = ground arith

hex_lower-ne : (d : ℕ) → d < 16 → (hex_lower d == b'+') ≡ false
unfolding hex_lower
hex_lower-ne d h = ground arith

-- Four digits are read back.
pub from_str_radix_16-format_04x : (c : ℕ) → c < 0x10000 → from_str_radix_16 (format_04x c) ≡ some c
unfolding format_04x from_str_radix_16
from_str_radix_16-format_04x c h = ground (
  arith,
  hex_value-hex_lower (c / 4096 % 16),
  hex_value-hex_lower (c / 256 % 16),
  hex_value-hex_lower (c / 16 % 16),
  hex_value-hex_lower (c % 16),
  hex_lower-ne (c / 4096 % 16),
)
