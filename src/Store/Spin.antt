-- ===== src/Store/Spin.antt =====
-- The Spin backend fills the laws of a backend, if Spin's store has those of a map. `SpinLaws` states
-- what the Spin SDK documents of `key_value::Store`.
use vanity_manager.Prelude.{
  ◌≡◌, refl, ◌∙◌, ◌⊎◌, ℤ, ap, ◌↔◌, inl, inr, Bool, false, true, Option, none, some, List, [], ◌∷◌,
  arith, Str, Bytes, str_eq, starts_with, is_some, if◌then◌else◌, filter, Any, Bool-cases,
}
use vanity_manager.Exec.{ok, Env, Result-cases}
use vanity_manager.Store
use vanity_manager.Exec.Keeps.{Keeps, keeps_rules}
use vanity_manager.Store.{Backend, spin}
use vanity_manager.Store.Laws.{StoreLaws}

pub record SpinLaws (e : Env) : Type 0 where
  pub view : e.World → Str → Option Bytes
  pub get_view : (k : Str) (w : e.World) (o : Option Bytes) → (e.kv_get k w).0 ≡ ok o → o ≡ view w k
  pub get_keeps : (k : Str) (w : e.World) → view (e.kv_get k w).1 ≡ view w
  pub exists_view :
      (k : Str) (w : e.World) (x : Bool) → (e.kv_exists k w).0 ≡ ok x → x ≡ is_some (view w k)
  pub exists_keeps : (k : Str) (w : e.World) → view (e.kv_exists k w).1 ≡ view w
  pub keys_view :
      (k : Str) (w : e.World) (ks : List Str)
      → (e.kv_get_keys w).0 ≡ ok ks
      → Any (λ j. j ≡ k) ks ↔ (is_some (view w k) ≡ true)
  pub keys_keeps : (w : e.World) → view (e.kv_get_keys w).1 ≡ view w
  pub set_view :
      (k j : Str) (v : Bytes) (w : e.World)
      → (e.kv_set k v w).0 ≡ ok tt
      → view (e.kv_set k v w).1 j ≡ (if str_eq k j then some v else view w j)
  pub set_others :
      (k j : Str) (v : Bytes) (w : e.World)
      → str_eq k j ≡ false
      → view (e.kv_set k v w).1 j ≡ view w j
  pub set_self :
      (k : Str) (v : Bytes) (w : e.World)
      → (view (e.kv_set k v w).1 k ≡ view w k) ⊎ (view (e.kv_set k v w).1 k ≡ some v)
  pub delete_view :
      (k j : Str) (w : e.World)
      → (e.kv_delete k w).0 ≡ ok tt
      → view (e.kv_delete k w).1 j ≡ (if str_eq k j then none else view w j)
  pub delete_others :
      (k j : Str) (w : e.World) → str_eq k j ≡ false → view (e.kv_delete k w).1 j ≡ view w j
  pub open_keeps : (w : e.World) → view (e.open_default w).1 ≡ view w

-- The keys that pass a test are those of the list that do.
Any-filter :
    (p : Str → Bool) (k : Str) (ks : List Str)
    → Any (λ j. j ≡ k) (filter p ks) ↔ ((p k ≡ true) × Any (λ j. j ≡ k) ks)
Any-filter p k [] = (λ x. elim x [ ], λ h. h.1)
Any-filter p k (x ∷ ks) =
    let (to, from) = Any-filter p k ks in
    elim (Bool-cases (p x)) [
      | inl t ↦ rw t (
        λ h. elim h [
          | inl same ↦ (rw same at t, inl same)
          | inr later ↦ ((to later).0, inr (to later).1)
        ],
        λ h. elim h.1 [ inl same ↦ inl same | inr later ↦ inr (from (h.0, later)) ],
      )
      | inr f ↦ rw f (
        λ h. ((to h).0, inr (to h).1),
        λ h. elim h.1 [ inl same ↦ cc (ap p same, h.0, f) | inr later ↦ from (h.0, later) ],
      )
    ]

module _ (e : Env) (laws : SpinLaws e) where
  keys_result :
      (p : Str) (w : e.World) (ks : List Str)
      → (Store.keys_with_prefix e spin p w).0 ≡ ok ks
      → (all : List Str) × ((e.kv_get_keys w).0 ≡ ok all) × (ks ≡ filter (starts_with p) all)
  unfolding Store.keys_with_prefix
  keys_result p w ks h = elim (Result-cases (e.kv_get_keys w).0) [
    | inl (all, listed) ↦ (all, listed, ground arith)
    | inr (x, failed) ↦ ground arith
  ]

  pub keys_view_lem :
      (p k : Str) (w : e.World) (ks : List Str)
      → (Store.keys_with_prefix e spin p w).0 ≡ ok ks
      → Any (λ j. j ≡ k) ks ↔ ((starts_with p k ≡ true) × (is_some (laws.view w k) ≡ true))
  keys_view_lem p k w ks h =
      let (all, listed, kept) = keys_result p w ks h in
      let (to, from) = laws.keys_view k w all listed in
      let (out, back) = Any-filter (starts_with p) k all in
      rw kept (λ m. ((out m).0, to (out m).1), λ m. back (m.0, from m.1))

  pub keys_keeps_lem :
      (p : Str) (w : e.World) → laws.view (Store.keys_with_prefix e spin p w).1 ≡ laws.view w
  unfolding Store.keys_with_prefix
  keys_keeps_lem p w = elim (Result-cases (e.kv_get_keys w).0) [
    | inl (all, listed) ↦ ground (arith, laws.keys_keeps w)
    | inr (x, failed) ↦ ground (arith, laws.keys_keeps w)
  ]

  get-Keeps : (j k : Str) (o : Option Bytes) → Keeps (λ w. laws.view w j ≡ o) (e.kv_get k)
  get-Keeps j k o = record { at = λ w h. ap (λ m. m j) (laws.get_keeps k w) ∙ h }

  set-Keeps :
      (j k : Str) (o : Option Bytes) (v : Bytes)
      → str_eq k j ≡ false
      → Keeps (λ w. laws.view w j ≡ o) (e.kv_set k v)
  set-Keeps j k o v other = record { at = λ w h. laws.set_others k j v w other ∙ h }

  pub incr_others_lem :
      (k j : Str) (d : ℤ) (w : e.World)
      → str_eq k j ≡ false
      → laws.view (Store.incr e spin k d w).1 j ≡ laws.view w j
  unfolding Store.incr
  incr_others_lem k j d w other =
      let o = laws.view w j in
      let kept : Keeps (λ w'. laws.view w' j ≡ o) (Store.incr e spin k d) =
        search (keeps_rules, get-Keeps, set-Keeps) in
      kept.at w refl

  -- Each operation of the backend by the law of the operation of the store that it calls.
  unfoldable pub spin_laws : StoreLaws e spin
  unfolding Store.get Store.set Store.delete Store.exists
  spin_laws = record {
    view = laws.view;
    get_view = laws.get_view;
    get_keeps = laws.get_keeps;
    exists_view = laws.exists_view;
    exists_keeps = laws.exists_keeps;
    keys_view = keys_view_lem;
    keys_keeps = keys_keeps_lem;
    set_view = laws.set_view;
    set_others = laws.set_others;
    set_self = laws.set_self;
    incr_others = incr_others_lem;
    delete_view = laws.delete_view;
    delete_others = laws.delete_others;
    open_keeps = laws.open_keeps;
  }

  -- Over Spin's store the backend fills its laws: a prefix listing that succeeds names the keys that start
  -- with the prefix and hold something, and reads, writes and deletes act on one map.
  pub spin-StoreLaws : StoreLaws e spin
  unfolding spin_laws
  spin-StoreLaws = spin_laws
