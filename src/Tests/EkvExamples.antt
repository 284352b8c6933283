-- ===== src/Tests/EkvExamples.antt =====
-- The properties of the EdgeKV client at inputs that meet their hypotheses, and runs of its definitions.
use vanity_manager.Prelude.{
  ℕ, zero, suc, ◌≡◌, refl, ◌≢◌, ◌⊎◌, ◌&&◌, List, [], ◌∷◌, arith, codes, map, filter, All,
}
use mathlib.Core.List.{Perm}
use vanity_manager.Model.{Redirect, EkvPrefixEntry, prefix, match_type_eq, prefix_entry_from}
use vanity_manager.Ekv.{EkvConfig, div_ceil, send, put, push_shards, push_prefixes}
use vanity_manager.Ekv.Items.{encode_ekv_key, ekv_exact_key, ekv_host_key, ekv_prefixes_shard_key}
use vanity_manager.Ekv.Items.RoundTrip.{
  IsItemChar, encode_ekv_key_injective, encode_ekv_key-IsItemChar,
}
use vanity_manager.Ekv.Items.Apart.{
  IsHost, ekv_exact_key_injective, ekv_exact_key-ne-ekv_host_key,
  ekv_exact_key-ne-ekv_prefixes_shard_key,
}
use vanity_manager.Ekv.Manifest.{build_prefix_manifest}
use vanity_manager.Ekv.Manifest.Laws.{LongestFirst, build_prefix_manifest-LongestFirst}
use vanity_manager.Exec.{ok}
use vanity_manager.Ekv.Shards.{IsWhole, IsSharded, push_prefixes-shards}
use vanity_manager.Tests.Memory.{Machine, memory, memory-HttpLog, holding, rule}

encode_ekv_key_injective_example : codes "a_é" ≡ codes "a_é"
encode_ekv_key_injective_example =
    encode_ekv_key_injective (codes "a_é") (codes "a_é") (ground arith) (ground arith) refl

encode_ekv_key-IsItemChar_example : All IsItemChar (encode_ekv_key (codes "h::/a é"))
encode_ekv_key-IsItemChar_example = encode_ekv_key-IsItemChar (codes "h::/a é") (ground arith)

h-IsHost : IsHost (codes "h.example")
h-IsHost = record { text = ground arith; no_colon = omega arith }

ekv_exact_key_injective_example :
    (codes "h.example" ≡ codes "h.example") × (codes "/a:b" ≡ codes "/a:b")
ekv_exact_key_injective_example =
    ekv_exact_key_injective (codes "h.example") (codes "/a:b") (codes "h.example") (codes "/a:b")
      h-IsHost h-IsHost (ground arith) (ground arith) refl

ekv_exact_key-ne-ekv_host_key_example :
    ekv_exact_key (codes "h.example") (codes "/a") ≢ ekv_host_key (codes "h.example")
ekv_exact_key-ne-ekv_host_key_example =
    ekv_exact_key-ne-ekv_host_key (codes "h.example") (codes "/a") (codes "h.example") h-IsHost
      h-IsHost (ground arith)

ekv_exact_key-ne-ekv_prefixes_shard_key_example :
    ekv_exact_key (codes "h.example") (codes "/a") ≢ ekv_prefixes_shard_key (codes "h.example") 2
ekv_exact_key-ne-ekv_prefixes_shard_key_example =
    ekv_exact_key-ne-ekv_prefixes_shard_key (codes "h.example") (codes "/a") (codes "h.example") 2
      h-IsHost h-IsHost (ground arith)

abbrev two_prefixes : List Redirect
two_prefixes = rule prefix (codes "h") (codes "/a") ∷ rule prefix (codes "h") (codes "/a/b") ∷ []

build_prefix_manifest-LongestFirst_example :
    LongestFirst (build_prefix_manifest two_prefixes)
    × Perm (build_prefix_manifest two_prefixes) (
        map prefix_entry_from
          (filter (λ r. match_type_eq r.match_type prefix && r.enabled) two_prefixes))
build_prefix_manifest-LongestFirst_example = build_prefix_manifest-LongestFirst two_prefixes

abbrev replicate : ℕ → EkvPrefixEntry → List EkvPrefixEntry
replicate zero x = []
replicate (suc n) x = x ∷ replicate n x

abbrev long_manifest : List EkvPrefixEntry
unfolding prefix_entry_from
long_manifest = replicate 2501 (prefix_entry_from (rule prefix (codes "h") (codes "/a")))

abbrev config : EkvConfig
config = record {
  host = codes "edge";
  client_token = codes "c";
  client_secret = codes "s";
  access_token = codes "a";
  network = codes "staging";
  namespace = codes "vanity-manager";
  group = codes "redirects";
}

abbrev idle : Machine
idle = holding []

pushed_long : (push_prefixes memory config (codes "h") long_manifest idle).0 ≡ ok tt
unfolding push_prefixes push_shards put send div_ceil long_manifest
pushed_long = refl

push_prefixes-shards_example :
    IsWhole memory memory-HttpLog config
      (codes "h")
      long_manifest
      idle
      (push_prefixes memory config (codes "h") long_manifest idle).1
    ⊎ IsSharded memory memory-HttpLog config
        (codes "h")
        long_manifest
        idle
        (push_prefixes memory config (codes "h") long_manifest idle).1
push_prefixes-shards_example =
    push_prefixes-shards memory memory-HttpLog config (codes "h") long_manifest idle pushed_long
