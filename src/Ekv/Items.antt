-- ===== src/Ekv/Items.antt =====
-- The item names of shared/src/ekv.rs, as the EdgeWorker rebuilds them.
pub mod RoundTrip
pub mod Apart
use mathlib.Core.List.{flat_map}
use vanity_manager.Prelude.{
  ℕ, zero, suc, ◌++◌, ◌||◌, [], ◌∷◌, Str, Bytes, codes, as_bytes, format_02X, to_string, ◌==◌,
  if◌then◌else◌,
}
use vanity_manager.Subject.{is_alphanumeric}

-- What one round of `encode_ekv_key` appends.
unfoldable pub encode_ekv_byte : ℕ → Str
unfolding is_alphanumeric
encode_ekv_byte b = if is_alphanumeric b || b == b'-' then b ∷ [] else b'_' ∷ format_02X b

unfoldable pub encode_ekv_key : Str → Str
unfolding flat_map as_bytes
encode_ekv_key s = flat_map encode_ekv_byte (as_bytes s)

-- What one round of `url_encode` appends.
unfoldable pub url_encode_byte : ℕ → Str
unfolding is_alphanumeric
url_encode_byte b =
    if is_alphanumeric b
      || b == b'-'
      || b == b'.'
      || b == b'_'
      || b == b'~'
      || b == b':'
      || b == b'@'
    then b ∷ []
    else b'%' ∷ format_02X b

unfoldable pub url_encode : Str → Str
unfolding flat_map as_bytes
url_encode s = flat_map url_encode_byte (as_bytes s)

unfoldable pub ekv_host_key : Str → Str
ekv_host_key host = encode_ekv_key (codes "_hosts::" ++ host)

unfoldable pub ekv_exact_key : Str → Str → Str
ekv_exact_key host path = encode_ekv_key (host ++ (codes "::exact::" ++ path))

unfoldable pub ekv_prefixes_key : Str → Str
ekv_prefixes_key host = encode_ekv_key (host ++ codes "::prefixes")

unfoldable pub ekv_prefixes_shard_key : Str → ℕ → Str
ekv_prefixes_shard_key host zero = ekv_prefixes_key host
ekv_prefixes_shard_key host (suc n) =
    encode_ekv_key (host ++ (codes "::prefixes-" ++ to_string (suc n)))
