-- ===== src/Prelude/Text.antt =====
-- Rust's `str` as the list of its Unicode code points, and what the program uses of `str` from the
-- standard library. Byte lengths and byte views go through UTF-8.
use Prim.Native.Nat.{ℕ, zero, suc, ◌+◌, ◌-◌, ◌/◌, ◌%◌}
use Prim.Native.Char.{code}
use Prim.Native.String.{String}
use mathlib.Core.Bool.{Bool, true, false, ◌&&◌, ◌||◌}
use mathlib.Core.Option.{Option, none, some}
use mathlib.Core.List.{List, [], ◌∷◌, ◌++◌, flat_map}
use vanity_manager.Prelude.Tests.{ltb, leb, ◌==◌, if◌then◌else◌}
use vanity_manager.Prelude.Lists.{length}

abbrev pub Str : Type 0
Str = List ℕ

abbrev pub Bytes : Type 0
Bytes = List ℕ

abbrev pub codes : String → Str
codes String.[] = []
codes (String.◌∷◌ c s) = code c ∷ codes s

-- `==` on strings.
unfoldable pub str_eq : Str → Str → Bool
str_eq [] [] = true
str_eq [] (_ ∷ _) = false
str_eq (_ ∷ _) [] = false
str_eq (c ∷ s) (d ∷ t) = (c == d) && str_eq s t

unfoldable pub is_empty : Str → Bool
is_empty [] = true
is_empty (_ ∷ _) = false

-- `s.strip_prefix(p)`
unfoldable pub strip_prefix : Str → Str → Option Str
strip_prefix [] s = some s
strip_prefix (c ∷ p) [] = none
strip_prefix (c ∷ p) (d ∷ s) = if c == d then strip_prefix p s else none

-- `s.starts_with(p)`
unfoldable pub starts_with : Str → Str → Bool
starts_with [] s = true
starts_with (c ∷ p) [] = false
starts_with (c ∷ p) (d ∷ s) = (c == d) && starts_with p s

-- `s.contains(p)`
unfoldable pub contains : Str → Str → Bool
unfolding starts_with
contains p [] = starts_with p []
contains p (c ∷ s) = starts_with p (c ∷ s) || contains p s

-- `s.ends_with(c)` for a char.
unfoldable pub ends_with : ℕ → Str → Bool
ends_with c [] = false
ends_with c (d ∷ []) = d == c
ends_with c (_ ∷ d ∷ s) = ends_with c (d ∷ s)

-- `s.pop()`
unfoldable pub pop : Str → Str
pop [] = []
pop (c ∷ []) = []
pop (c ∷ d ∷ s) = c ∷ pop (d ∷ s)

-- `s.replace(from, to)`, for a `from` that is not empty: `skip` characters of a match are left out.
replace_from : Str → Str → ℕ → Str → Str
unfolding starts_with
replace_from from to skip [] = []
replace_from from to (suc skip) (c ∷ s) = replace_from from to skip s
replace_from from to zero (c ∷ s) =
    let matched = to ++ replace_from from to (length from - 1) s in
    let kept = c ∷ replace_from from to zero s in if starts_with from (c ∷ s) then matched else kept

unfoldable pub replace : Str → Str → Str → Str
unfolding replace_from
replace from to s = replace_from from to zero s

-- `s.split_once(c)`
unfoldable pub split_once : ℕ → Str → Option (Str × Str)
split_once c [] = none
split_once c (d ∷ s) =
    if d == c
    then some ([], s)
    else elim (split_once c s) [ none ↦ none | some (a, b) ↦ some (d ∷ a, b) ]

-- `s.split(c)`, which has at least one part: the first, and the rest.
unfoldable pub split_parts : ℕ → Str → Str × List Str
split_parts c [] = ([], [])
split_parts c (d ∷ s) =
    let (first, rest) = split_parts c s in if d == c then ([], first ∷ rest) else (d ∷ first, rest)

unfoldable pub split : ℕ → Str → List Str
unfolding split_parts
split c s = let (first, rest) = split_parts c s in first ∷ rest

-- `s.split(c).next().unwrap_or("")`
unfoldable pub first_part : ℕ → Str → Str
first_part c [] = []
first_part c (d ∷ s) = if d == c then [] else d ∷ first_part c s

-- `char::is_whitespace`: the Unicode property White_Space.
unfoldable pub is_whitespace : ℕ → Bool
is_whitespace c =
    (leb 9 c && leb c 13)
    || c == 32
    || c == 0x85
    || c == 0xa0
    || c == 0x1680
    || (leb 0x2000 c && leb c 0x200a)
    || c == 0x2028
    || c == 0x2029
    || c == 0x202f
    || c == 0x205f
    || c == 0x3000

unfoldable pub trim_start : Str → Str
trim_start [] = []
trim_start (c ∷ s) = if is_whitespace c then trim_start s else c ∷ s

-- Characters at the end that pass the test are dropped.
unfoldable pub trim_end_by : (ℕ → Bool) → Str → Str
unfolding is_empty
trim_end_by p [] = []
trim_end_by p (c ∷ s) = let rest = trim_end_by p s in if is_empty rest && p c then [] else c ∷ rest

-- `s.trim()`
unfoldable pub trim : Str → Str
unfolding trim_start trim_end_by is_whitespace
trim s = trim_end_by is_whitespace (trim_start s)

-- `s.trim_end_matches(c)`
unfoldable pub trim_end_matches : ℕ → Str → Str
unfolding trim_end_by
trim_end_matches c s = trim_end_by (λ d. d == c) s

-- `char::len_utf8` and `str::len`.
unfoldable pub len_utf8 : ℕ → ℕ
len_utf8 c = if ltb c 0x80 then 1 else if ltb c 0x800 then 2 else if ltb c 0x10000 then 3 else 4

unfoldable pub str_len : Str → ℕ
unfolding len_utf8
str_len [] = 0
str_len (c ∷ s) = len_utf8 c + str_len s

-- `char::encode_utf8` and `str::as_bytes`.
unfoldable pub encode_utf8 : ℕ → Bytes
encode_utf8 c =
    if ltb c 0x80
    then c ∷ []
    else if ltb c 0x800
    then (0xc0 + c / 64) ∷ (0x80 + c % 64) ∷ []
    else if ltb c 0x10000
    then (0xe0 + c / 4096) ∷ (0x80 + c / 64 % 64) ∷ (0x80 + c % 64) ∷ []
    else (0xf0 + c / 262144) ∷ (0x80 + c / 4096 % 64) ∷ (0x80 + c / 64 % 64) ∷ (0x80 + c % 64) ∷ []

unfoldable pub as_bytes : Str → Bytes
unfolding encode_utf8 flat_map
as_bytes = flat_map encode_utf8

-- `char::from_u32`: a scalar value, which is no surrogate.
abbrev pub is_char : ℕ → Bool
is_char c = ltb c 0xd800 || (leb 0xe000 c && ltb c 0x110000)

-- `&s[n..]` at a byte offset: `none` is the panic off a character boundary.
unfoldable pub slice_from : ℕ → Str → Option Str
unfolding len_utf8
slice_from zero s = some s
slice_from (suc n) [] = none
slice_from (suc n) (c ∷ s) =
    let rest = slice_from (suc n - len_utf8 c) s in if leb (len_utf8 c) (suc n) then rest else none

-- `a.cmp(b)` on strings, as a Boolean `a <= b`. UTF-8 keeps the order of code points.
unfoldable pub str_le : Str → Str → Bool
str_le [] _ = true
str_le (_ ∷ _) [] = false
str_le (c ∷ s) (d ∷ t) = if ltb c d then true else if c == d then str_le s t else false
