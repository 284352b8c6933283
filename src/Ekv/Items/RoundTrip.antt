-- ===== src/Ekv/Items/RoundTrip.antt =====
-- The item names of shared/src/ekv.rs are unambiguous, and use the characters that EdgeKV accepts.
use mathlib.Core.List.{flat_map}
use vanity_manager.Prelude.{
  ℕ, zero, suc, ◌+◌, ◌*◌, ◌/◌, ◌%◌, ◌<◌, ◌≡◌, refl, ap, ◌≢◌, true, ◌||◌, Option, none, some, [],
  ◌∷◌, ◌++◌, arith, Str, Bytes, codes, as_bytes, encode_utf8, from_utf8-as_bytes, is_char,
  hex_value, hex_upper, hex_value-hex_upper, format_02X, split_once, to_string, unwrap_or, ◌==◌,
  if◌then◌else◌, All, All-append,
}
use vanity_manager.Keys.RoundTrip.{Lacks, split_once-append}
use vanity_manager.Subject.{is_alphanumeric}
use vanity_manager.Ekv.Items.{
  encode_ekv_byte, encode_ekv_key, ekv_prefixes_key, ekv_prefixes_shard_key,
}

-- A text of valid characters.
abbrev pub IsText : Str → Type 0
IsText = All (λ c. is_char c ≡ true)

-- A character that EdgeKV accepts in an item name.
abbrev pub IsItemChar : ℕ → Type 0
IsItemChar c = (is_alphanumeric c || c == b'-' || c == b'_') ≡ true

-- The byte of an escape `_XX` at the head of a name, if there is one.
escaped_byte : Str → Option ℕ
escaped_byte (c ∷ h ∷ l ∷ _) =
    if c == b'_' then some (unwrap_or 0 (hex_value h) * 16 + unwrap_or 0 (hex_value l)) else none
escaped_byte _ = none

-- The reference decoder: `skip` characters belong to an escape.
read_name : ℕ → Str → Bytes
read_name skip [] = []
read_name (suc skip) (c ∷ s) = read_name skip s
read_name zero (c ∷ s) = elim (escaped_byte (c ∷ s)) [
  | some b ↦ b ∷ read_name 2 s
  | none ↦ c ∷ read_name zero s
]

escaped_byte-plain : (c : ℕ) (s : Str) → c ≢ b'_' → escaped_byte (c ∷ s) ≡ none
unfolding escaped_byte
escaped_byte-plain c (h ∷ l ∷ s) n = ground arith
escaped_byte-plain c _ n = refl

escaped_byte-hex :
    (b : ℕ) (s : Str)
    → b < 256
    → escaped_byte (b'_' ∷ hex_upper (b / 16) ∷ hex_upper (b % 16) ∷ s) ≡ some b
unfolding escaped_byte
escaped_byte-hex b s h = ground (arith, hex_value-hex_upper (b / 16), hex_value-hex_upper (b % 16))

read_name-plain : (c : ℕ) (s : Str) → c ≢ b'_' → read_name zero (c ∷ s) ≡ c ∷ read_name zero s
unfolding read_name
read_name-plain c s n = rw (escaped_byte-plain c s n, read_name) refl

read_name-escaped :
    (b : ℕ) (s : Str)
    → b < 256
    → read_name zero (b'_' ∷ hex_upper (b / 16) ∷ hex_upper (b % 16) ∷ s) ≡ b ∷ read_name zero s
unfolding read_name
read_name-escaped b s h = rw (escaped_byte-hex b s h, read_name) refl

read_name-encode :
    (b : ℕ) (s : Str) → b < 256 → read_name zero (encode_ekv_byte b ++ s) ≡ b ∷ read_name zero s
unfolding encode_ekv_byte format_02X
read_name-encode b s h = ground (arith, read_name-plain b s, read_name-escaped b s)

read_name-flat_map :
    (bs : Bytes) → All (λ b. b < 256) bs → read_name zero (flat_map encode_ekv_byte bs) ≡ bs
unfolding flat_map
read_name-flat_map [] h = unfold read_name in refl
read_name-flat_map (b ∷ bs) h =
    ground (arith, read_name-encode b (flat_map encode_ekv_byte bs) h.0, read_name-flat_map bs h.1)

encode_utf8-lt : (c : ℕ) → is_char c ≡ true → All (λ b. b < 256) (encode_utf8 c)
unfolding encode_utf8
encode_utf8-lt c h = ground arith

as_bytes-lt : (s : Str) → IsText s → All (λ b. b < 256) (as_bytes s)
unfolding as_bytes flat_map
as_bytes-lt [] h = tt
as_bytes-lt (c ∷ s) h =
    All-append (λ b. b < 256) (encode_utf8 c) (flat_map encode_utf8 s) (encode_utf8-lt c h.0)
      (as_bytes-lt s h.1)

read_name-encode_ekv_key : (s : Str) → IsText s → read_name zero (encode_ekv_key s) ≡ as_bytes s
unfolding encode_ekv_key
read_name-encode_ekv_key s h = read_name-flat_map (as_bytes s) (as_bytes-lt s h)

-- Two texts of valid characters with the same item name are the same text.
pub encode_ekv_key_injective :
    (s t : Str) → IsText s → IsText t → encode_ekv_key s ≡ encode_ekv_key t → s ≡ t
encode_ekv_key_injective s t hs ht e = ground (
  arith,
  from_utf8-as_bytes s hs,
  from_utf8-as_bytes t ht,
  read_name-encode_ekv_key s hs,
  read_name-encode_ekv_key t ht,
)

hex_upper-IsItemChar : (d : ℕ) → d < 16 → IsItemChar (hex_upper d)
unfolding hex_upper is_alphanumeric
hex_upper-IsItemChar d h = ground arith

encode_ekv_byte-IsItemChar : (b : ℕ) → b < 256 → All IsItemChar (encode_ekv_byte b)
unfolding encode_ekv_byte format_02X
encode_ekv_byte-IsItemChar b h =
    ground (arith, hex_upper-IsItemChar (b / 16), hex_upper-IsItemChar (b % 16))

flat_map-IsItemChar :
    (bs : Bytes) → All (λ b. b < 256) bs → All IsItemChar (flat_map encode_ekv_byte bs)
unfolding flat_map
flat_map-IsItemChar [] h = tt
flat_map-IsItemChar (b ∷ bs) h =
    All-append IsItemChar (encode_ekv_byte b) (flat_map encode_ekv_byte bs)
      (encode_ekv_byte-IsItemChar b h.0) (flat_map-IsItemChar bs h.1)

-- The item name of a text of valid characters holds letters, digits, `-` and `_` alone.
pub encode_ekv_key-IsItemChar : (s : Str) → IsText s → All IsItemChar (encode_ekv_key s)
unfolding encode_ekv_key
encode_ekv_key-IsItemChar s h = flat_map-IsItemChar (as_bytes s) (as_bytes-lt s h)

-- The text of a shard's name behind the host.
unfoldable pub shard_suffix : ℕ → Str
shard_suffix zero = codes "prefixes"
shard_suffix (suc n) = codes "prefixes-" ++ to_string (suc n)

pub shard_key :
    (host : Str) (n : ℕ)
    → ekv_prefixes_shard_key host n ≡ encode_ekv_key (host ++ (codes "::" ++ shard_suffix n))
unfolding ekv_prefixes_shard_key ekv_prefixes_key shard_suffix
shard_key host zero = refl
shard_key host (suc n) = refl

-- Texts that agree, and whose first colons end hosts, have the same host and the same rest.
pub same_host :
    (host host' s t : Str)
    → Lacks b':' host
    → Lacks b':' host'
    → host ++ b':' ∷ s ≡ host' ++ b':' ∷ t
    → (host ≡ host') × (s ≡ t)
same_host host host' s t h h' e =
    let split = split_once-append b':' host s h in
    let split' = split_once-append b':' host' t h' in
    let both : ◌≡◌ {A = Option (Str × Str)} (some (host, s)) (some (host', t)) =
      cc (split, split', ap (split_once b':') e) in
    ground arith
