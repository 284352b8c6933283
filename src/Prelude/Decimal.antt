-- ===== src/Prelude/Decimal.antt =====
-- Decimal text, as `to_string` writes it and `parse::<u64>` reads it.
use Prim.Native.Nat.{ℕ, zero, suc, ◌+◌, ◌-◌, ◌*◌, ◌/◌, ◌%◌, ◌<◌, ◌^◌}
use mathlib.Core.Path.{◌≡◌, refl, ◌∙◌}
use mathlib.Core.Bool.{◌&&◌}
use mathlib.Core.Option.{Option, none, some}
use mathlib.Core.List.{[], ◌∷◌, ◌++◌}
use native.Mathlib.Omega.{arith}
use vanity_manager.Prelude.Tests.{Bool-cases, ltb, leb, ◌==◌, if◌then◌else◌}
use vanity_manager.Prelude.Lists.{All, All-append}
use mathlib.Core.Logic.{inl, inr}
use vanity_manager.Prelude.Text.{Str}

-- Enough fuel is any number above the one that is written.
show_fuel : ℕ → ℕ → Str
show_fuel zero n = []
show_fuel (suc fuel) n =
    let front = show_fuel fuel (n / 10) in
    if ltb n 10 then (n + b'0') ∷ [] else front ++ (n % 10 + b'0') ∷ []

-- `n.to_string()`
unfoldable pub to_string : ℕ → Str
unfolding show_fuel
to_string n = show_fuel (suc n) n

digit : ℕ → Option ℕ
digit c = if leb b'0' c && leb c b'9' then some (c - b'0') else none

digits_from : ℕ → Str → Option ℕ
unfolding digit
digits_from n [] = some n
digits_from n (c ∷ s) = elim (digit c) [ none ↦ none | some d ↦ digits_from (n * 10 + d) s ]

-- The digits of an unsigned number, of which there is at least one.
unfoldable pub digits : Str → Option ℕ
unfolding digits_from
digits [] = none
digits (c ∷ s) = digits_from 0 (c ∷ s)

abbrev below : ℕ → Option ℕ → Option ℕ
below bound none = none
below bound (some n) = if ltb n bound then some n else none

unsigned : Str → Option ℕ
unfolding digits
unsigned [] = none
unsigned (c ∷ s) = if c == b'+' then digits s else digits (c ∷ s)

-- `s.parse::<u64>().ok()`
unfoldable pub parse_u64 : Str → Option ℕ
unfolding unsigned
parse_u64 s = below (2 ^ 64) (unsigned s)

-- `s.parse::<usize>()` on wasm32.
unfoldable pub parse_usize : Str → Option ℕ
unfolding unsigned
parse_usize s = below (2 ^ 32) (unsigned s)

digits_from-append :
    (s t : Str) (n m : ℕ) → digits_from n s ≡ some m → digits_from n (s ++ t) ≡ digits_from m t
unfolding digits_from
digits_from-append [] t n m h = ground arith
digits_from-append (c ∷ s) t n m h = ground (arith, digits_from-append s t (n * 10 + (c - b'0')) m)

last_digit : (n d : ℕ) → d < 10 → digits_from n ((d + b'0') ∷ []) ≡ some (n * 10 + d)
unfolding digits_from
last_digit n d h = ground arith

digits_from-show_fuel : (fuel n : ℕ) → n < fuel → digits_from 0 (show_fuel fuel n) ≡ some n
unfolding show_fuel
digits_from-show_fuel zero n h = absurd (omega arith)
digits_from-show_fuel (suc fuel) n h = ground (
  arith,
  digits_from-append (show_fuel fuel (n / 10)) ((n % 10 + b'0') ∷ []) 0 (n / 10),
  digits_from-show_fuel fuel (n / 10),
  last_digit (n / 10) (n % 10),
  last_digit 0 n,
)

show_fuel-lt : (fuel n : ℕ) → All (λ c. c < 128) (show_fuel fuel n)
unfolding show_fuel
show_fuel-lt zero n = tt
show_fuel-lt (suc fuel) n = elim (Bool-cases (ltb n 10)) [
  | inl one ↦ rw (one, show_fuel) (ground arith, tt)
  | inr more ↦
      rw (more, show_fuel)
        (All-append _ (show_fuel fuel (n / 10)) _ (show_fuel-lt fuel (n / 10)) (omega arith, tt))
]

-- Decimal text is ASCII.
pub to_string-lt : (n : ℕ) → All (λ c. c < 128) (to_string n)
unfolding to_string
to_string-lt n = show_fuel-lt (suc n) n

digits-snoc : (s : Str) (c : ℕ) → digits (s ++ c ∷ []) ≡ digits_from 0 (s ++ c ∷ [])
unfolding digits
digits-snoc [] c = refl
digits-snoc (d ∷ s) c = refl

digits-show_fuel :
    (fuel n : ℕ) → digits (show_fuel (suc fuel) n) ≡ digits_from 0 (show_fuel (suc fuel) n)
unfolding show_fuel
digits-show_fuel fuel n = elim (Bool-cases (ltb n 10)) [
  | inl one ↦ rw (one, show_fuel) (digits-snoc [] (n + b'0'))
  | inr more ↦ rw (more, show_fuel) (digits-snoc (show_fuel fuel (n / 10)) (n % 10 + b'0'))
]

-- A number is read back from its text.
pub digits-to_string : (n : ℕ) → digits (to_string n) ≡ some n
unfolding to_string
digits-to_string n = digits-show_fuel n n ∙ digits_from-show_fuel (suc n) n (omega arith)
