-- ===== src/Ekv/Shards.antt =====
-- The requests by which `push_prefixes` of shared/src/ekv.rs writes a prefix manifest: the shards are small enough,
-- and together they are the manifest.
use vanity_manager.Prelude.{
  ℕ, zero, suc, ◌+◌, ◌*◌, ◌≤◌, ◌<◌, ◌≡◌, refl, sym, ap, ◌∙◌, ◌⊎◌, inl, inr, List, [], ◌∷◌, ◌++◌,
  arith, length, drop, take-append-drop, length-take-le, All, Str, Bytes, codes, leb, Bool-cases,
  append_assoc, append-nil,
}
use native.Mathlib.Nat.{zero-add}
use vanity_manager.Exec.{ok, Env, bind-ok}
use vanity_manager.Model.{EkvPrefixEntry}
use vanity_manager.Ekv.Items.{ekv_prefixes_key, ekv_prefixes_shard_key}
use vanity_manager.Ekv.Requests.{Outline, put_of, HttpLog, put-log}
use vanity_manager.Ekv.{
  EkvConfig, prefix_shard_limit, div_ceil, shard_entries, put, shard_body, push_shards,
  push_prefixes,
}

suc-add : (m n : ℕ) → suc m + n ≡ suc (m + n)
suc-add m n = omega arith

module _ {A : Type 0} where
  drop-nil : (n : ℕ) → drop {A = A} n [] ≡ []
  drop-nil zero = refl
  drop-nil (suc n) = refl

  drop-drop : (n m : ℕ) (xs : List A) → drop n (drop m xs) ≡ drop (m + n) xs
  drop-drop n zero xs = rw (zero-add n) refl
  drop-drop n (suc m) [] = rw (suc-add m n) (drop-nil n)
  drop-drop n (suc m) (x ∷ xs) = rw (suc-add m n) (drop-drop n m xs)

  drop-all : (n : ℕ) (xs : List A) → length xs ≤ n → drop n xs ≡ []
  drop-all zero [] h = refl
  drop-all zero (x ∷ xs) h = absurd (omega arith)
  drop-all (suc n) [] h = refl
  drop-all (suc n) (x ∷ xs) h = drop-all n xs (omega arith)

-- The shards from `s` on, `left` of them.
unfoldable shards_from : List EkvPrefixEntry → ℕ → ℕ → List (List EkvPrefixEntry)
shards_from manifest s zero = []
shards_from manifest s (suc left) = shard_entries manifest s ∷ shards_from manifest (suc s) left

-- What a reader joins.
unfoldable pub joined : List (List EkvPrefixEntry) → List EkvPrefixEntry
joined [] = []
joined (shard ∷ shards) = shard ++ joined shards

next : (s : ℕ) → suc s * prefix_shard_limit ≡ s * prefix_shard_limit + prefix_shard_limit
next s = omega arith

joined-drop :
    (manifest : List EkvPrefixEntry) (s left : ℕ)
    → length manifest ≤ (s + left) * prefix_shard_limit
    → joined (shards_from manifest s left) ≡ drop (s * prefix_shard_limit) manifest
unfolding joined shards_from shard_entries
joined-drop manifest s zero h = sym (drop-all (s * prefix_shard_limit) manifest (omega arith))
joined-drop manifest s (suc left) h =
    rw
      (
        joined-drop manifest (suc s) left (omega arith),
        next s,
        sym (drop-drop prefix_shard_limit (s * prefix_shard_limit) manifest),
      )
      (take-append-drop prefix_shard_limit (drop (s * prefix_shard_limit) manifest))

length-shards_from :
    (manifest : List EkvPrefixEntry) (s left : ℕ) → length (shards_from manifest s left) ≡ left
unfolding shards_from
length-shards_from manifest s zero = refl
length-shards_from manifest s (suc left) = ap suc (length-shards_from manifest (suc s) left)

-- A shard that is small enough.
abbrev pub IsShard : List EkvPrefixEntry → Type 0
IsShard shard = length shard ≤ prefix_shard_limit

shards_from-IsShard :
    (manifest : List EkvPrefixEntry) (s left : ℕ) → All IsShard (shards_from manifest s left)
unfolding shards_from shard_entries
shards_from-IsShard manifest s zero = tt
shards_from-IsShard manifest s (suc left) =
    (length-take-le prefix_shard_limit _, shards_from-IsShard manifest (suc s) left)

module _ (e : Env) where
  open e use {World, serde}

  -- The requests that put shards as bare arrays, the first of them with number `s`.
  unfoldable pub numbered : EkvConfig → Str → ℕ → List (List EkvPrefixEntry) → List Outline
  numbered cfg host s [] = []
  numbered cfg host s (shard ∷ shards) =
      put_of cfg (ekv_prefixes_shard_key host s) (serde.entries_to_vec shard)
      ∷ numbered cfg host (suc s) shards

  -- The body of the first of several shards: their number `n`, and its entries.
  abbrev pub first_body : ℕ → List EkvPrefixEntry → Bytes
  first_body n shard =
      serde.to_vec
        (serde.object ((codes "n", serde.number n) ∷ (codes "p", serde.entries shard) ∷ []))

  module _ (http : HttpLog e) where
    open http use {log}

    -- Later shards, all of which are put.
    push_shards-log :
        (cfg : EkvConfig) (host : Str) (manifest : List EkvPrefixEntry) (n s left : ℕ) (w : World)
        → (push_shards e cfg host manifest n (suc s) left w).0 ≡ ok tt
        → log (push_shards e cfg host manifest n (suc s) left w).1
          ≡ log w ++ numbered cfg host (suc s) (shards_from manifest (suc s) left)
    unfolding push_shards numbered shards_from shard_body
    push_shards-log cfg host manifest n s zero w h = sym (append-nil (log w))
    push_shards-log cfg host manifest n s (suc left) w h =
        let key = ekv_prefixes_shard_key host (suc s) in
        let body = shard_body e manifest n (suc s) in
        let w' = (put e cfg key body w).1 in
        let later = push_shards e cfg host manifest n (suc (suc s)) left in
        let (_, _, same) = bind-ok (put e cfg key body) (λ _. later) w tt h in
        ap (λ x. log x.1) same
        ∙ (push_shards-log cfg host manifest n (suc s) left w' (sym (ap (λ x. x.0) same) ∙ h)
            ∙ (ap
                  (λ l.
                    l ++ numbered cfg host (suc (suc s)) (shards_from manifest (suc (suc s)) left))
                  (put-log e http cfg key body w)
                ∙ append_assoc (log w) (put_of cfg key body ∷ []) _))

    -- The prefix manifest of a host has been put in one item, as the bare array of its entries.
    abbrev pub IsWhole : EkvConfig → Str → List EkvPrefixEntry → World → World → Type 0
    IsWhole cfg host manifest w w' =
        (length manifest ≤ prefix_shard_limit)
        × (log w'
            ≡ log w ++ put_of cfg (ekv_prefixes_key host) (serde.entries_to_vec manifest) ∷ [])

    -- It has been put in shards that are small enough and join to it: the first one with the number of shards, then
    -- the others from number 1 on.
    abbrev pub IsSharded : EkvConfig → Str → List EkvPrefixEntry → World → World → Type 0
    IsSharded cfg host manifest w w' =
        (prefix_shard_limit < length manifest)
        × ((first : List EkvPrefixEntry) × (others : List (List EkvPrefixEntry)) × (joined
                (first ∷ others)
              ≡ manifest)
            × All IsShard (first ∷ others)
            × (log w'
                ≡ log w
                  ++ put_of cfg (ekv_prefixes_shard_key host 0)
                      (first_body (suc (length others)) first)
                    ∷ numbered cfg host 1 others))

    push_shards-IsSharded :
        (cfg : EkvConfig) (host : Str) (manifest : List EkvPrefixEntry) (n : ℕ) (w : World)
        → prefix_shard_limit < length manifest
        → length manifest ≤ n * prefix_shard_limit
        → (push_shards e cfg host manifest n 0 n w).0 ≡ ok tt
        → IsSharded cfg host manifest w (push_shards e cfg host manifest n 0 n w).1
    unfolding push_shards shards_from shard_body
    push_shards-IsSharded cfg host manifest zero w more enough h = absurd (omega arith)
    push_shards-IsSharded cfg host manifest (suc left) w more enough h =
        let key = ekv_prefixes_shard_key host 0 in
        let body = shard_body e manifest (suc left) 0 in
        let w' = (put e cfg key body w).1 in
        let later = push_shards e cfg host manifest (suc left) 1 left in
        let others = shards_from manifest 1 left in
        let (_, _, same) = bind-ok (put e cfg key body) (λ _. later) w tt h in
        (
          more,
          (
            shard_entries manifest 0,
            others,
            joined-drop manifest 0 (suc left) (omega arith),
            shards_from-IsShard manifest 0 (suc left),
            ap (λ x. log x.1) same
                ∙ (push_shards-log cfg host manifest (suc left) 0 left w'
                      (sym (ap (λ x. x.0) same) ∙ h)
                    ∙ (ap (λ l. l ++ numbered cfg host 1 others) (put-log e http cfg key body w)
                        ∙ (append_assoc (log w) (put_of cfg key body ∷ []) _
                            ∙ ap
                                (λ n.
                                  log w
                                  ++ put_of cfg key (first_body (suc n) (shard_entries manifest 0))
                                    ∷ numbered cfg host 1 others)
                                (sym (length-shards_from manifest 1 left))))),
          ),
        )

    -- Where requests are logged in the order in which they are sent: a `push_prefixes` that succeeds has put the manifest
    -- whole in one item, if it has at most 2500 entries, and else has put shards of at most 2500 entries that join to the
    -- manifest, in their order and under their numbers, the first one with the number of shards. It sends no other request.
    pub push_prefixes-shards :
        (cfg : EkvConfig) (host : Str) (manifest : List EkvPrefixEntry) (w : World)
        → (push_prefixes e cfg host manifest w).0 ≡ ok tt
        → IsWhole cfg host manifest w (push_prefixes e cfg host manifest w).1
          ⊎ IsSharded cfg host manifest w (push_prefixes e cfg host manifest w).1
    unfolding push_prefixes div_ceil
    push_prefixes-shards cfg host manifest w h =
        let n = div_ceil (length manifest) prefix_shard_limit in
        elim (Bool-cases (leb (length manifest) prefix_shard_limit)) [
          | inl few ↦ rw few (inl (ground arith, put-log e http cfg _ _ w))
          | inr many ↦ rw many (
              inr (
                push_shards-IsSharded cfg host manifest n w (ground arith) (omega arith)
                  (rw many at h)))
        ]
