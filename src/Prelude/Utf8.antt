-- ===== src/Prelude/Utf8.antt =====
-- `std::str::from_utf8`, one byte at a time, and its round trip with `as_bytes`.
use Prim.Native.Nat.{ℕ, zero, suc, ◌+◌, ◌-◌, ◌*◌}
use mathlib.Core.Path.{◌≡◌, refl}
use mathlib.Core.Bool.{true, ◌&&◌}
use mathlib.Core.Option
use mathlib.Core.Option.{Option, none, some}
use mathlib.Core.List.{[], ◌∷◌, ◌++◌, flat_map}
use native.Mathlib.Omega.{arith}
use vanity_manager.Prelude.Tests.{ltb, leb, ◌==◌, if◌then◌else◌}
use vanity_manager.Prelude.Lists.{All}
use vanity_manager.Prelude.Text.{Str, Bytes, is_char, encode_utf8, as_bytes}

-- The continuation bytes still wanted, the bits so far, and the range of the next byte.
record Pending : Type 0 where
  need : ℕ
  bits : ℕ
  lo : ℕ
  hi : ℕ

abbrev fresh : Pending
fresh = record { need = 0; bits = 0; lo = 0x80; hi = 0xbf }

abbrev lead : ℕ → ℕ → ℕ → ℕ → Option (Pending × Option ℕ)
lead need bits lo hi = some (record { need = need; bits = bits; lo = lo; hi = hi }, none)

-- The table of well-formed lead bytes.
first_byte : ℕ → Option (Pending × Option ℕ)
first_byte b =
    if ltb b 0x80
    then some (fresh, some b)
    else if ltb b 0xc2
    then none
    else if ltb b 0xe0
    then lead 1 (b - 0xc0) 0x80 0xbf
    else if b == 0xe0
    then lead 2 0 0xa0 0xbf
    else if b == 0xed
    then lead 2 13 0x80 0x9f
    else if ltb b 0xf0
    then lead 2 (b - 0xe0) 0x80 0xbf
    else if b == 0xf0
    then lead 3 0 0x90 0xbf
    else if ltb b 0xf4
    then lead 3 (b - 0xf0) 0x80 0xbf
    else if b == 0xf4
    then lead 3 4 0x80 0x8f
    else none

next_byte : ℕ → Pending → ℕ → Option (Pending × Option ℕ)
next_byte zero p b = first_byte b
next_byte (suc zero) p b =
    if leb p.lo b && leb b p.hi then some (fresh, some (p.bits * 64 + (b - 0x80))) else none
next_byte (suc (suc n)) p b =
    if leb p.lo b && leb b p.hi then lead (suc n) (p.bits * 64 + (b - 0x80)) 0x80 0xbf else none

abbrev emit : Option ℕ → Str → Str
emit none s = s
emit (some c) s = c ∷ s

decode_utf8 : Pending → Bytes → Option Str
unfolding next_byte first_byte
decode_utf8 p [] = if p.need == 0 then some [] else none
decode_utf8 p (b ∷ bs) = elim (next_byte p.need p b) [
  | none ↦ none
  | some (p', c) ↦ Option.map (emit c) (decode_utf8 p' bs)
]

unfoldable pub from_utf8 : Bytes → Option Str
unfolding decode_utf8
from_utf8 bs = decode_utf8 fresh bs

decode_utf8-encode_utf8 :
    (c : ℕ) (bs : Bytes)
    → is_char c ≡ true
    → decode_utf8 fresh (encode_utf8 c ++ bs) ≡ Option.map (emit (some c)) (decode_utf8 fresh bs)
unfolding decode_utf8 encode_utf8
decode_utf8-encode_utf8 c bs h = ground arith

-- Every text of valid characters is read back from its bytes.
pub from_utf8-as_bytes : (s : Str) → All (λ c. is_char c ≡ true) s → from_utf8 (as_bytes s) ≡ some s
unfolding from_utf8 as_bytes flat_map
from_utf8-as_bytes [] h = refl
from_utf8-as_bytes (c ∷ s) h =
    ground (arith, decode_utf8-encode_utf8 c (flat_map encode_utf8 s) h.0, from_utf8-as_bytes s h.1)
