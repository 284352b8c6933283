-- ===== src/Subject/RoundTrip.antt =====
-- What `decode_subject` makes of an encoded key (shared/src/store.rs).
use mathlib.Core.List.{flat_map}
use mathlib.Core.Path.{ap₂}
use vanity_manager.Prelude.{
  ℕ, zero, ◌/◌, ◌%◌, ◌<◌, ◌≡◌, refl, ap, ◌≢◌, true, none, some, [], ◌∷◌, ◌++◌, map, arith, Str,
  Bytes, as_bytes, encode_utf8, from_utf8, from_utf8-as_bytes, format_04x, from_str_radix_16,
  hex_lower, hex_lower-lt, from_str_radix_16-format_04x, is_char, ◌==◌, if◌then◌else◌, All,
  All-append,
}
use vanity_manager.Subject.{
  encode_subject_char, encode_subject, escape_at, decode_byte, decode_bytes, decode_subject,
}

-- What the decoder gives back for a character: the two separators become one.
unfoldable pub canonical : ℕ → ℕ
canonical c = if c == b'|' then b':' else c

-- Characters of the Basic Multilingual Plane, which four hexadecimal digits hold.
abbrev pub IsBmp : ℕ → Type 0
IsBmp c = (is_char c ≡ true) × (c < 0x10000)

abbrev IsAscii : ℕ → Type 0
IsAscii c = c < 128

as_bytes-ascii : (s : Str) → All IsAscii s → as_bytes s ≡ s
unfolding as_bytes flat_map encode_utf8
as_bytes-ascii [] h = refl
as_bytes-ascii (c ∷ s) h = ground (arith, as_bytes-ascii s h.1)

format_04x-IsAscii : (c : ℕ) → c < 0x10000 → All IsAscii (format_04x c)
unfolding format_04x
format_04x-IsAscii c h = ground (
  arith,
  hex_lower-lt (c / 4096 % 16),
  hex_lower-lt (c / 256 % 16),
  hex_lower-lt (c / 16 % 16),
  hex_lower-lt (c % 16),
)

encode_subject_char-IsAscii : (c : ℕ) → c < 0x10000 → All IsAscii (encode_subject_char c)
unfolding encode_subject_char
encode_subject_char-IsAscii c h = ground (arith, format_04x-IsAscii c h)

All-ascii : (s : Str) → All IsAscii s → All (λ c. is_char c ≡ true) s
All-ascii [] h = tt
All-ascii (c ∷ s) (h, hs) = (ground arith, All-ascii s hs)

from_utf8-ascii : (s : Str) → All IsAscii s → from_utf8 s ≡ some s
from_utf8-ascii s h = cc (ap from_utf8 (as_bytes-ascii s h), from_utf8-as_bytes s (All-ascii s h))

-- Four hexadecimal digits behind the marker are one escape.
escape_at-digits :
    (a b c d n : ℕ) (t : Bytes)
    → All IsAscii (a ∷ b ∷ c ∷ d ∷ [])
    → from_str_radix_16 (a ∷ b ∷ c ∷ d ∷ []) ≡ some n
    → is_char n ≡ true
    → escape_at (b'_' ∷ b'_' ∷ a ∷ b ∷ c ∷ d ∷ t) ≡ some n
unfolding escape_at
escape_at-digits a b c d n t h e k = rw (from_utf8-ascii (a ∷ b ∷ c ∷ d ∷ []) h) (rw e (rw k refl))

format_04x_short :
    (c : ℕ)
    → c < 0x10000
    → format_04x c
      ≡ hex_lower (c / 4096 % 16)
        ∷ hex_lower (c / 256 % 16)
        ∷ hex_lower (c / 16 % 16)
        ∷ hex_lower (c % 16)
        ∷ []
unfolding format_04x
format_04x_short c h = ground arith

decode_bytes-format_04x :
    (c : ℕ) (t : Bytes)
    → IsBmp c
    → decode_bytes zero (b'_' ∷ b'_' ∷ (format_04x c ++ t)) ≡ c ∷ decode_bytes zero t
unfolding decode_bytes
decode_bytes-format_04x c t (k, h) =
    let x = from_str_radix_16-format_04x c h in
    let y = format_04x-IsAscii c h in
    let e = format_04x_short c h in
    rw e (rw (escape_at-digits _ _ _ _ c t (rw e at y) (rw e at x) k, decode_bytes) refl)

escape_at-plain : (c : ℕ) (t : Bytes) → c ≢ b'_' → escape_at (c ∷ t) ≡ none
unfolding escape_at
escape_at-plain c (b ∷ h3 ∷ h2 ∷ h1 ∷ h0 ∷ t) h = ground arith
escape_at-plain c _ h = refl

decode_bytes-plain :
    (c : ℕ) (t : Bytes) → c ≢ b'_' → decode_bytes zero (c ∷ t) ≡ decode_byte c ∷ decode_bytes zero t
unfolding decode_bytes
decode_bytes-plain c t h = rw (escape_at-plain c t h, decode_bytes) refl

decode_bytes-encode :
    (c : ℕ) (t : Bytes)
    → IsBmp c
    → decode_bytes zero (encode_subject_char c ++ t) ≡ canonical c ∷ decode_bytes zero t
unfolding encode_subject_char canonical decode_byte
decode_bytes-encode c t h =
    ground (arith, decode_bytes-plain c t, decode_bytes-plain b'.' t, decode_bytes-format_04x c t h)

encode_subject-IsAscii : (s : Str) → All IsBmp s → All IsAscii (encode_subject s)
unfolding encode_subject
encode_subject-IsAscii [] h = tt
encode_subject-IsAscii (c ∷ s) h =
    All-append IsAscii (encode_subject_char c) (encode_subject s)
      (encode_subject_char-IsAscii c h.0.1) (encode_subject-IsAscii s h.1)

decode_bytes-encode_subject :
    (s : Str) → All IsBmp s → decode_bytes zero (encode_subject s) ≡ map canonical s
unfolding encode_subject
decode_bytes-encode_subject [] h = unfold decode_bytes in refl
decode_bytes-encode_subject (c ∷ s) h =
    ground (arith, decode_bytes-encode c (encode_subject s) h.0, decode_bytes-encode_subject s h.1)

-- Decoding an encoded key gives back the key with each pipe turned into a colon, for every key of
-- characters below U+10000.
pub decode_subject-encode_subject :
    (key : Str) → All IsBmp key → decode_subject (encode_subject key) ≡ map canonical key
unfolding decode_subject
decode_subject-encode_subject key h =
    rw (as_bytes-ascii (encode_subject key) (encode_subject-IsAscii key h))
      (decode_bytes-encode_subject key h)

encode_subject_char-canonical : (c : ℕ) → encode_subject_char (canonical c) ≡ encode_subject_char c
unfolding encode_subject_char canonical
encode_subject_char-canonical c = ground arith

encode_subject-canonical : (s : Str) → encode_subject (map canonical s) ≡ encode_subject s
unfolding encode_subject
encode_subject-canonical [] = refl
encode_subject-canonical (c ∷ s) =
    ap₂ ◌++◌ (encode_subject_char-canonical c) (encode_subject-canonical s)

-- A key that a listing gives back addresses the same subject as the key that was stored, for every key
-- of characters below U+10000.
pub encode_subject-decode_subject :
    (key : Str)
    → All IsBmp key
    → encode_subject (decode_subject (encode_subject key)) ≡ encode_subject key
encode_subject-decode_subject key h =
    rw (decode_subject-encode_subject key h) (encode_subject-canonical key)
