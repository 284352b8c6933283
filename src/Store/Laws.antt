-- ===== src/Store/Laws.antt =====
-- What a caller relies on of a backend: a call that succeeds has read or written one map from keys to
-- bytes. A call that fails has read nothing, and a failed write or delete has left the other keys alone.
use vanity_manager.Prelude.{
  ◌≡◌, ◌↔◌, ◌⊎◌, ℕ, ℤ, Bool, false, true, Option, none, some, List, Str, Bytes, str_eq, starts_with,
  is_some, if◌then◌else◌, Any,
}
use vanity_manager.Exec.{ok, Env, HttpRequest}
use vanity_manager.Store
use vanity_manager.Store.{Backend}

pub record StoreLaws (e : Env) (b : Backend) : Type 0 where
  -- What the store holds.
  pub view : e.World → Str → Option Bytes
  pub get_view :
      (k : Str) (w : e.World) (o : Option Bytes) → (Store.get e b k w).0 ≡ ok o → o ≡ view w k
  pub get_keeps : (k : Str) (w : e.World) → view (Store.get e b k w).1 ≡ view w
  pub exists_view :
      (k : Str) (w : e.World) (x : Bool) → (Store.exists e b k w).0 ≡ ok x → x ≡ is_some (view w k)
  pub exists_keeps : (k : Str) (w : e.World) → view (Store.exists e b k w).1 ≡ view w
  pub keys_view :
      (p k : Str) (w : e.World) (ks : List Str)
      → (Store.keys_with_prefix e b p w).0 ≡ ok ks
      → Any (λ j. j ≡ k) ks ↔ ((starts_with p k ≡ true) × (is_some (view w k) ≡ true))
  pub keys_keeps : (p : Str) (w : e.World) → view (Store.keys_with_prefix e b p w).1 ≡ view w
  pub set_view :
      (k j : Str) (v : Bytes) (w : e.World)
      → (Store.set e b k v w).0 ≡ ok tt
      → view (Store.set e b k v w).1 j ≡ (if str_eq k j then some v else view w j)
  pub set_others :
      (k j : Str) (v : Bytes) (w : e.World)
      → str_eq k j ≡ false
      → view (Store.set e b k v w).1 j ≡ view w j
  -- A write that fails has written or has not.
  pub set_self :
      (k : Str) (v : Bytes) (w : e.World)
      → (view (Store.set e b k v w).1 k ≡ view w k) ⊎ (view (Store.set e b k v w).1 k ≡ some v)
  pub delete_view :
      (k j : Str) (w : e.World)
      → (Store.delete e b k w).0 ≡ ok tt
      → view (Store.delete e b k w).1 j ≡ (if str_eq k j then none else view w j)
  pub delete_others :
      (k j : Str) (w : e.World) → str_eq k j ≡ false → view (Store.delete e b k w).1 j ≡ view w j
  pub incr_others :
      (k j : Str) (d : ℤ) (w : e.World)
      → str_eq k j ≡ false
      → view (Store.incr e b k d w).1 j ≡ view w j
  -- Opening the store changes nothing.
  pub open_keeps : (w : e.World) → view (e.open_default w).1 ≡ view w

-- What happens outside of the backend leaves its contents alone: the clock, random numbers, and requests to
-- other services.
pub record IsApart (e : Env) (b : Backend) (laws : StoreLaws e b) : Type 0 where
  pub now_view : (w : e.World) → laws.view (e.now w).1 ≡ laws.view w
  pub alphanumeric_view : (n : ℕ) (w : e.World) → laws.view (e.alphanumeric n w).1 ≡ laws.view w
  pub http_view : (r : HttpRequest) (w : e.World) → laws.view (e.http_send r w).1 ≡ laws.view w

-- Reads and listings of the backend succeed.
pub record Answers (e : Env) (b : Backend) : Type 0 where
  pub get_ok : (k : Str) (w : e.World) → (o : Option Bytes) × ((Store.get e b k w).0 ≡ ok o)
  pub keys_ok :
      (p : Str) (w : e.World) → (ks : List Str) × ((Store.keys_with_prefix e b p w).0 ≡ ok ks)

-- A store that accepts every write and every deletion.
pub record Accepts (e : Env) (b : Backend) : Type 0 where
  pub set_ok : (k : Str) (v : Bytes) (w : e.World) → (Store.set e b k v w).0 ≡ ok tt
  pub delete_ok : (k : Str) (w : e.World) → (Store.delete e b k w).0 ≡ ok tt
