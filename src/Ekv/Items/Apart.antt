-- ===== src/Ekv/Items/Apart.antt =====
-- The items of different hosts, rules and shards have different names (shared/src/ekv.rs). A host that
-- `normalize_host` made holds no colon.
use vanity_manager.Prelude.{
  ℕ, zero, suc, ◌≡◌, refl, ◌∙◌, ◌≢◌, [], ◌∷◌, ◌++◌, arith, Str, codes, All, All-append, to_string,
  to_string-lt, ◌<◌,
}
use vanity_manager.Keys.RoundTrip.{Lacks}
use vanity_manager.Ekv.Items.{ekv_host_key, ekv_exact_key, ekv_prefixes_shard_key}
use vanity_manager.Ekv.Items.RoundTrip.{
  IsText, encode_ekv_key_injective, same_host, shard_key, shard_suffix,
}

-- A host as the keys want it: valid characters, none of them a colon.
pub record IsHost (host : Str) : Type 0 where
  pub text : IsText host
  pub no_colon : Lacks b':' host

exact-IsText :
    (host path : Str) → IsHost host → IsText path → IsText (host ++ (codes "::exact::" ++ path))
exact-IsText host path h k =
    All-append _ host _ h.text (All-append _ (codes "::exact::") path (ground arith) k)

-- Hosts hold no colon, and hosts and paths are valid text: rules with the same item name have the same
-- host and path.
pub ekv_exact_key_injective :
    (host path host' path' : Str)
    → IsHost host
    → IsHost host'
    → IsText path
    → IsText path'
    → ekv_exact_key host path ≡ ekv_exact_key host' path'
    → (host ≡ host') × (path ≡ path')
unfolding ekv_exact_key
ekv_exact_key_injective host path host' path' h h' k k' e =
    let same =
      encode_ekv_key_injective _ _ (exact-IsText host path h k) (exact-IsText host' path' h' k')
        e in
    let (hosts, rest) =
      same_host host host' (codes ":exact::" ++ path) (codes ":exact::" ++ path') h.no_colon
        h'.no_colon same in
    (hosts, ground arith)

exact-not-host : (path host : Str) → codes "exact::" ++ path ≡ host → Lacks b':' host → ⊥
exact-not-host path host e h =
    let l : Lacks b':' (codes "exact::" ++ path) = rw (← e) at h in l.1.1.1.1.1.0 refl

exact-not-shard : (path : Str) (n : ℕ) → codes ":exact::" ++ path ≡ b':' ∷ shard_suffix n → ⊥
unfolding shard_suffix
exact-not-shard path zero e = ground arith
exact-not-shard path (suc n) e = ground arith

pub ascii-IsText : (s : Str) → All (λ c. c < 128) s → IsText s
ascii-IsText [] h = tt
ascii-IsText (c ∷ s) h = (ground arith, ascii-IsText s h.1)

shard_suffix-IsText : (n : ℕ) → IsText (shard_suffix n)
unfolding shard_suffix
shard_suffix-IsText zero = ground arith
shard_suffix-IsText (suc n) =
    All-append _ (codes "prefixes-") (to_string (suc n)) (ground arith)
      (ascii-IsText (to_string (suc n)) (to_string-lt (suc n)))

-- Hosts hold no colon, and hosts and paths are valid text: a rule's item is no host's sentinel.
pub ekv_exact_key-ne-ekv_host_key :
    (host path host' : Str)
    → IsHost host
    → IsHost host'
    → IsText path
    → ekv_exact_key host path ≢ ekv_host_key host'
unfolding ekv_exact_key ekv_host_key
ekv_exact_key-ne-ekv_host_key host path host' h h' k e =
    let same =
      encode_ekv_key_injective _ _ (exact-IsText host path h k)
        (All-append _ (codes "_hosts::") host' (ground arith) h'.text) e in
    let (hosts, rest) =
      same_host host (codes "_hosts") (codes ":exact::" ++ path) (b':' ∷ host') h.no_colon
        (omega arith) same in
    exact-not-host path host' (ground arith) h'.no_colon

-- Hosts hold no colon, and hosts and paths are valid text: a rule's item is no shard of a manifest.
pub ekv_exact_key-ne-ekv_prefixes_shard_key :
    (host path host' : Str) (n : ℕ)
    → IsHost host
    → IsHost host'
    → IsText path
    → ekv_exact_key host path ≢ ekv_prefixes_shard_key host' n
unfolding ekv_exact_key
ekv_exact_key-ne-ekv_prefixes_shard_key host path host' n h h' k e =
    let same =
      encode_ekv_key_injective _ _ (exact-IsText host path h k)
        (All-append _ host' _ h'.text
          (All-append _ (codes "::") _ (ground arith) (shard_suffix-IsText n)))
        (e ∙ shard_key host' n) in
    let (hosts, rest) =
      same_host host host' (codes ":exact::" ++ path) (b':' ∷ shard_suffix n) h.no_colon h'.no_colon
        same in
    exact-not-shard path n rest
