-- ===== src/Admin/Hosts/Sums.antt =====
-- The statistics of the hosts (admin-api/src/handlers.rs, stats) against the metadata that the store holds.
use vanity_manager.Prelude.{
  ℕ, ◌+◌, ◌%◌, ◌^◌, ◌≡◌, refl, sym, ap, ◌∙◌, inl, inr, Bool, true, false, Option, none, some, List,
  [], ◌∷◌, Str, Bytes, arith, length, Any, ◌↔◌, starts_with, is_some, and_then, if◌then◌else◌,
  Bool-cases,
}
use vanity_manager.Exec.{ok, Env, bind-ok, ◌>>=◌}
use vanity_manager.Exec.Returns.{Returns, Returns-bind, Returns-pure}
use mathlib.Core.Path.{ap₂}
use vanity_manager.Model.{HostMeta}
use vanity_manager.Store.{Backend}
use vanity_manager.Store.Laws.{StoreLaws}
use vanity_manager.Kv.{get_host}
use vanity_manager.Kv.Laws.{get_host-stored, get_host-keeps}
use vanity_manager.Admin.Hosts.{
  add_u64, sub_u64, RuleSums, Stats, no_sums, add_host, sum_hosts, figures, count_of, stats_of,
  stats_in,
}
use vanity_manager.Admin.{Reply, failure, answer}
use vanity_manager.Store
use vanity_manager.Keys.{
  prefix_host, prefix_pending_ekv, meta_last_snapshot, meta_last_ekv_push, counter_ekv_pushes,
  counter_ekv_errors, counter_pending_drained,
}

add_u64-mod : (a b c : ℕ) → (add_u64 a b + c) % 2 ^ 64 ≡ (a + (b + c)) % 2 ^ 64
unfolding add_u64
add_u64-mod a b c = omega arith

sub_u64-mod : (a b : ℕ) → sub_u64 ((a + b) % 2 ^ 64) (a % 2 ^ 64) ≡ b % 2 ^ 64
unfolding sub_u64
sub_u64-mod a b = omega arith

-- The rules of a host that is there, and is enabled or is not.
abbrev count_if : Bool → Option HostMeta → ℕ
count_if c none = 0
count_if true (some meta) = if meta.enabled then meta.rule_count else 0
count_if false (some meta) = if meta.enabled then 0 else meta.rule_count

-- The sum over the hosts that the keys hold, without a bound.
abbrev pub counted : Bool → (Str → Option HostMeta) → List Str → ℕ
counted c at [] = 0
counted c at (key ∷ keys) = count_if c (at key) + counted c at keys

-- Sums that have been added up to some number of hosts, as 64-bit integers.
record Summed (s : RuleSums) (on off hosts : ℕ) : Type 0 where
  total : s.total ≡ (on + off) % 2 ^ 64
  enabled : s.enabled ≡ on % 2 ^ 64
  unique_hosts : s.unique_hosts ≡ hosts

Summed-add_host :
    (found : Option HostMeta) (s : RuleSums) (on off hosts : ℕ)
    → Summed s on off hosts
    → Summed (add_host found s) (on + count_if true found) (off + count_if false found) (hosts + 1)
unfolding add_host add_u64
Summed-add_host none s on off hosts h = record {
  total = omega (arith, h.total);
  enabled = omega (arith, h.enabled);
  unique_hosts = omega (arith, h.unique_hosts);
}
Summed-add_host (some meta) s on off hosts h = elim (Bool-cases meta.enabled) [
  | inl live ↦ record {
    total = rw live (omega (arith, h.total));
    enabled = rw live (omega (arith, h.enabled));
    unique_hosts = omega (arith, h.unique_hosts);
  }
  | inr dead ↦ record {
    total = rw dead (omega (arith, h.total));
    enabled = rw dead (omega (arith, h.enabled));
    unique_hosts = omega (arith, h.unique_hosts);
  }
]

module _ (e : Env) (b : Backend) (laws : StoreLaws e b) where
  open e use {World, serde}
  open laws use {view}

  -- The metadata that a key holds.
  abbrev pub host_at : (Str → Option Bytes) → Str → Option HostMeta
  host_at m key = and_then (m key) serde.host_from_slice

  sum_hosts-Summed :
      (m : Str → Option Bytes) (keys : List Str) (s t : RuleSums) (on off hosts : ℕ) (w : World)
      → view w ≡ m
      → Summed s on off hosts
      → (sum_hosts e b keys s w).0 ≡ ok t
      → Summed t
          (on + counted true (host_at m) keys)
          (off + counted false (host_at m) keys)
          (hosts + length keys)
  unfolding sum_hosts
  sum_hosts-Summed m [] s t on off hosts w held h run =
      let same : s ≡ t = cc in
      record {
        total = omega (arith, h.total, ap (λ (x : RuleSums). x.total) same);
        enabled = omega (arith, h.enabled, ap (λ (x : RuleSums). x.enabled) same);
        unique_hosts = omega (arith, h.unique_hosts, ap (λ (x : RuleSums). x.unique_hosts) same);
      }
  sum_hosts-Summed m (key ∷ keys) s t on off hosts w held h run =
      let (found, read, same) =
        bind-ok (get_host e b key) (λ found. sum_hosts e b keys (add_host found s)) w t run in
      let stored : found ≡ host_at m key =
        get_host-stored e b laws key w found read ∙ ap (λ n. host_at n key) held in
      let rest =
        sum_hosts-Summed m keys (add_host found s) t (on + count_if true found)
          (off + count_if false found) (hosts + 1) (get_host e b key w).1
          (get_host-keeps e b laws key w ∙ held) (Summed-add_host found s on off hosts h)
          (sym (ap (λ x. x.0) same) ∙ run) in
      let on_here = ap (count_if true) stored in
      let off_here = ap (count_if false) stored in
      record {
        total = omega (arith, rest.total, on_here, off_here);
        enabled = omega (arith, rest.enabled, on_here);
        unique_hosts = omega (arith, rest.unique_hosts);
      }

  -- The sums that start at nothing.
  sum_hosts-counted :
      (m : Str → Option Bytes) (keys : List Str) (t : RuleSums) (w : World)
      → view w ≡ m
      → (sum_hosts e b keys no_sums w).0 ≡ ok t
      → Summed t (counted true (host_at m) keys) (counted false (host_at m) keys) (length keys)
  sum_hosts-counted m keys t w held run =
      let s =
        sum_hosts-Summed m keys no_sums t 0 0 0 w held
          (record { total = omega arith; enabled = omega arith; unique_hosts = refl }) run in
      record {
        total = omega (arith, s.total);
        enabled = omega (arith, s.enabled);
        unique_hosts = omega (arith, s.unique_hosts);
      }

  -- Statistics that show the sums.
  abbrev Shows : RuleSums → Reply Stats → Type 0
  Shows sums (failure _ _) = ⊥
  Shows sums (answer status t) =
      (status ≡ 200)
      × (t.total_rules ≡ sums.total)
      × (t.enabled ≡ sums.enabled)
      × (t.disabled ≡ sub_u64 sums.total sums.enabled)
      × (t.unique_hosts ≡ sums.unique_hosts)

  shown :
      (sums : RuleSums) (reply : Reply Stats)
      → Shows sums reply
      → (t : Stats) × (reply ≡ answer 200 t)
        × (t.total_rules ≡ sums.total)
        × (t.enabled ≡ sums.enabled)
        × (t.disabled ≡ sub_u64 sums.total sums.enabled)
        × (t.unique_hosts ≡ sums.unique_hosts)
  shown sums (failure _ _) h = absurd h
  shown sums (answer status t) (ok_status, total, on, off, hosts) =
      (t, ap (λ n. answer n t) ok_status, total, on, off, hosts)

  stats_of-Returns : (sums : RuleSums) → Returns (Shows sums) (stats_of e b sums)
  unfolding stats_of
  stats_of-Returns sums = Returns-bind (Store.keys_with_prefix e b prefix_pending_ekv) _ (λ pending.
      Returns-bind (Store.get e b meta_last_snapshot) _ (λ last_snapshot.
        Returns-bind (Store.get e b meta_last_ekv_push) _ (λ last_ekv_push.
          Returns-bind (count_of e b counter_ekv_pushes) _ (λ ekv_pushes.
            Returns-bind (count_of e b counter_ekv_errors) _ (λ ekv_errors.
              Returns-bind (count_of e b counter_pending_drained) _ (λ drained.
                Returns-pure (Shows sums)
                  (answer 200 (
                    figures e sums pending last_snapshot last_ekv_push ekv_pushes ekv_errors
                      drained))
                  (refl, refl, refl, refl, refl)))))))

  -- A backend that keeps the laws: if the statistics of its hosts succeed, they answer for the keys of hosts that the
  -- store lists, as 64-bit integers: the rules of all hosts, those of the enabled hosts, those of the others, and
  -- the number of the keys.
  pub stats_in-counted :
      (w : World) (reply : Reply Stats)
      → (stats_in e b w).0 ≡ ok reply
      → (keys : List Str) × ((k : Str)
          → Any (λ j. j ≡ k) keys
            ↔ ((starts_with prefix_host k ≡ true) × (is_some (view w k) ≡ true)))
        × (t : Stats) × (reply ≡ answer 200 t)
        × (t.total_rules
            ≡ (counted true (host_at (view w)) keys + counted false (host_at (view w)) keys)
              % 2 ^ 64)
        × (t.enabled ≡ counted true (host_at (view w)) keys % 2 ^ 64)
        × (t.disabled ≡ counted false (host_at (view w)) keys % 2 ^ 64)
        × (t.unique_hosts ≡ length keys)
  unfolding stats_in
  stats_in-counted w reply h =
      let (keys, listed, h₁) =
        bind-ok (Store.keys_with_prefix e b prefix_host)
          (λ keys. sum_hosts e b keys no_sums >>= stats_of e b) w reply h in
      let w₁ = (Store.keys_with_prefix e b prefix_host w).1 in
      let (sums, summed, h₂) =
        bind-ok (sum_hosts e b keys no_sums) (stats_of e b) w₁ reply (sym (ap (λ x. x.0) h₁) ∙ h) in
      let (t, answered, total, live, dead, hosts) = shown sums reply (
        (stats_of-Returns sums).at (sum_hosts e b keys no_sums w₁).1 reply
          (sym (ap (λ x. x.0) (h₁ ∙ h₂)) ∙ h)) in
      let s = sum_hosts-counted (view w) keys sums w₁ (laws.keys_keeps prefix_host w) summed in
      (
        keys,
        λ k. laws.keys_view prefix_host k w keys listed,
        t,
        answered,
        total ∙ s.total,
        live ∙ s.enabled,
        dead ∙ (ap₂ sub_u64 s.total s.enabled ∙ sub_u64-mod _ _),
        hosts ∙ s.unique_hosts,
      )
