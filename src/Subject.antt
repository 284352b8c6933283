-- ===== src/Subject.antt =====
-- The subject encoding of shared/src/store.rs: how the NATS backend spells a key on the network.
pub mod RoundTrip
pub mod Keys
use vanity_manager.Prelude.{
  ℕ, zero, suc, Bool, false, true, ◌&&◌, ◌||◌, Option, none, some, List, [], ◌∷◌, ◌++◌, Str, Bytes,
  codes, is_empty, ends_with, as_bytes, from_utf8, format_04x, format_02X, from_str_radix_16,
  is_char, take, leb, ◌==◌, if◌then◌else◌,
}
use mathlib.Core.List.{flat_map}

-- `'A'..='Z' | 'a'..='z' | '0'..='9'`
unfoldable pub is_alphanumeric : ℕ → Bool
is_alphanumeric c =
    (leb b'A' c && leb c b'Z') || (leb b'a' c && leb c b'z') || (leb b'0' c && leb c b'9')

abbrev pub escape_prefix : Str
escape_prefix = codes "__"

-- What one round of `encode_subject` appends.
unfoldable pub encode_subject_char : ℕ → Str
unfolding is_alphanumeric
encode_subject_char c =
    if is_alphanumeric c || c == b'-'
    then c ∷ []
    else if c == b':' || c == b'|'
    then b'.' ∷ []
    else escape_prefix ++ format_04x c

unfoldable pub encode_subject : Str → Str
unfolding flat_map
encode_subject = flat_map encode_subject_char

-- `from_utf8(hex).unwrap_or("003f")`
abbrev or_question_mark : Option Str → Str
or_question_mark none = codes "003f"
or_question_mark (some s) = s

abbrev from_u32 : Option ℕ → Option ℕ
from_u32 none = none
from_u32 (some code) = if is_char code then some code else none

-- The character of an escape `__HHHH` at the head of the bytes, if there is one.
unfoldable pub escape_at : Bytes → Option ℕ
escape_at (a ∷ b ∷ h3 ∷ h2 ∷ h1 ∷ h0 ∷ _) =
    if a == b'_' && b == b'_'
    then from_u32 (from_str_radix_16 (or_question_mark (from_utf8 (h3 ∷ h2 ∷ h1 ∷ h0 ∷ []))))
    else none
escape_at _ = none

-- A byte that begins no escape.
unfoldable pub decode_byte : ℕ → ℕ
decode_byte b = if b == b'.' then b':' else b

-- The loop of `decode_subject` over the bytes that are left; `skip` of them belong to an escape.
unfoldable pub decode_bytes : ℕ → Bytes → Str
decode_bytes skip [] = []
decode_bytes (suc skip) (b ∷ bs) = decode_bytes skip bs
decode_bytes zero (b ∷ bs) = elim (escape_at (b ∷ bs)) [
  | some c ↦ c ∷ decode_bytes 5 bs
  | none ↦ decode_byte b ∷ decode_bytes zero bs
]

unfoldable pub decode_subject : Str → Str
unfolding as_bytes
decode_subject subject = decode_bytes zero (as_bytes subject)

unfoldable pub subject_prefix_match : Str → Str
unfolding is_empty ends_with
subject_prefix_match prefix =
    let encoded = encode_subject prefix in
    if is_empty encoded
    then codes ">"
    else if ends_with b'.' encoded
    then encoded ++ codes ">"
    else encoded ++ codes ".>"

-- What one round of `url_form_encode` appends.
unfoldable pub url_form_byte : ℕ → Str
unfolding is_alphanumeric
url_form_byte b =
    if is_alphanumeric b || b == b'-' || b == b'_' || b == b'.' || b == b'~'
    then b ∷ []
    else b'%' ∷ format_02X b

unfoldable pub url_form_encode : Str → Str
unfolding flat_map as_bytes
url_form_encode s = flat_map url_form_byte (as_bytes s)
