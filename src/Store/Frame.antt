-- ===== src/Store/Frame.antt =====
-- What a property of one key is kept by: all that reads, and all writes of other keys (shared/src/store.rs).
use mathlib.Core.Path.{subst}
use vanity_manager.Prelude.{ℤ, ◌≡◌, sym, false, Option, Str, Bytes, str_eq}
use vanity_manager.Exec.{Env}
use vanity_manager.Exec.Keeps.{Keeps}
use vanity_manager.Store
use vanity_manager.Store.{Backend}
use vanity_manager.Store.Laws.{StoreLaws}

module _ (e : Env) (b : Backend) (laws : StoreLaws e b) (key : Str)
    (Q : Option Bytes → Type 0) where
  open e use {World}
  open laws use {view}

  abbrev pub AtKey : World → Type 0
  AtKey w = Q (view w key)

  pub AtKey-view : (w w' : World) → view w' ≡ view w → AtKey w → AtKey w'
  AtKey-view w w' same h = subst (λ m. Q (m key)) (sym same) h

  pub AtKey-key : (w w' : World) → view w' key ≡ view w key → AtKey w → AtKey w'
  AtKey-key w w' same h = subst Q (sym same) h

  pub get-Keeps : (k : Str) → Keeps AtKey (Store.get e b k)
  get-Keeps k = record { at = λ w h. AtKey-view w _ (laws.get_keeps k w) h }

  pub exists-Keeps : (k : Str) → Keeps AtKey (Store.exists e b k)
  exists-Keeps k = record { at = λ w h. AtKey-view w _ (laws.exists_keeps k w) h }

  pub keys-Keeps : (p : Str) → Keeps AtKey (Store.keys_with_prefix e b p)
  keys-Keeps p = record { at = λ w h. AtKey-view w _ (laws.keys_keeps p w) h }

  pub set-Keeps : (k : Str) (v : Bytes) → str_eq k key ≡ false → Keeps AtKey (Store.set e b k v)
  set-Keeps k v other = record { at = λ w h. AtKey-key w _ (laws.set_others k key v w other) h }

  pub delete-Keeps : (k : Str) → str_eq k key ≡ false → Keeps AtKey (Store.delete e b k)
  delete-Keeps k other = record { at = λ w h. AtKey-key w _ (laws.delete_others k key w other) h }

  pub incr-Keeps : (k : Str) (d : ℤ) → str_eq k key ≡ false → Keeps AtKey (Store.incr e b k d)
  incr-Keeps k d other = record { at = λ w h. AtKey-key w _ (laws.incr_others k key d w other) h }
