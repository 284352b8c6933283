-- ===== src/Admin/Upkeep.antt =====
-- The bulk maintenance of admin-api/src/handlers.rs: `mark_synced` and `clear_pending`. Their loops stop at
-- the end of their keys or when 25 seconds have gone by.
pub mod Progress
use vanity_manager.Prelude.{
  ℕ, ltb, zero, suc, ◌+◌, ◌-◌, ◌%◌, ◌^◌, pos, lt_i64, Bool, true, false, not, Option, none, some,
  List, [], ◌∷◌, Str, codes, is_empty, str_eq, str_le, length, take, drop, min, if◌then◌else◌,
  unwrap_or,
}
use vanity_manager.Exec.{Result, ok, err, Exec, ◌>>=◌, pure, is_ok, Env}
use vanity_manager.Model.{Redirect, HostMeta}
use vanity_manager.Keys.{prefix_rule, prefix_host, prefix_pending_ekv}
use vanity_manager.Store
use vanity_manager.Store.{Backend, open_from_config}
use vanity_manager.Kv.{get_rule, set_rule, get_host, set_host}
use vanity_manager.Ekv.Manifest.{sort_by}
use vanity_manager.Sync.{timestamp}
use vanity_manager.Admin.{Request, query_param}
use vanity_manager.Admin.Rules.{number_param}

module _ (e : Env) where
  open e use {World, Time, now, milliseconds_since}

  -- `elapsed >= stop_after_ms`
  unfoldable pub out_of_time : Time → Time → Bool
  out_of_time started t = not (lt_i64 (milliseconds_since t started) (pos 25000))

  abbrev stamp_stored_rule : Backend → Str → Str → Option Redirect → World → Bool × World
  stamp_stored_rule b at key none w = (false, w)
  stamp_stored_rule b at key (some r) w =
      if is_empty r.ekv_synced_at
      then (let (s, w') = set_rule e b key (record r { ekv_synced_at = at }) w in (is_ok s, w'))
      else (true, w)

  abbrev stamp_stored_host : Backend → Str → Str → Option HostMeta → World → Bool × World
  stamp_stored_host b at key none w = (false, w)
  stamp_stored_host b at key (some h) w =
      if is_empty h.ekv_synced_at
      then (let (s, w') = set_host e b key (record h { ekv_synced_at = at }) w in (is_ok s, w'))
      else (true, w)

  -- Whether the item of a key is stamped afterwards.
  unfoldable pub stamp : Backend → Bool → Str → Str → World → Bool × World
  stamp b hosts at key w =
      if hosts
      then (let (r, w') = get_host e b key w in
          elim r [ err _ ↦ (false, w') | ok found ↦ stamp_stored_host b at key found w' ])
      else (let (r, w') = get_rule e b key w in
          elim r [ err _ ↦ (false, w') | ok found ↦ stamp_stored_rule b at key found w' ])

  -- The counts of a loop over keys: those that went well, and the others.
  pub record Tally : Type 0 where
    pub done : ℕ
    pub errors : ℕ
    pub world : World

  unfoldable pub tally : Bool → World → Tally → Tally
  tally true w t = record t { done = t.done + 1; world = w }
  tally false w t = record t { errors = t.errors + 1; world = w }

  -- A loop that works on one key after the other, until it runs out of time.
  unfoldable pub each_in_time : Time → (Str → World → Bool × World) → List Str → Tally → Tally
  each_in_time started work [] t = t
  each_in_time started work (key ∷ keys) t =
      let (fine, w) = work key t.world in
      let (at, w') = now w in
      let t' = tally fine w' t in
      let rest = each_in_time started work keys t' in if out_of_time started at then t' else rest

  abbrev untouched : World → Tally
  untouched w = record { done = 0; errors = 0; world = w }

  -- `(cursor + budget).min(total)`: `usize` wraps around at 2^32 in a release build.
  unfoldable pub window_end : ℕ → ℕ → ℕ → ℕ
  window_end cursor budget total = min ((cursor + budget) % 2 ^ 32) total

  -- What a call of `mark_synced` answers.
  pub record Marked : Type 0 where
    pub stamped : ℕ
    pub errors : ℕ
    pub next_cursor : ℕ
    pub remaining : ℕ
    pub world : World

  -- The variables of the loop of `mark_synced`.
  pub record Marking : Type 0 where
    pub stamped : ℕ
    pub errors : ℕ
    pub idx : ℕ
    pub world : World

  -- `if ok { stamped += 1; } else { errors += 1; }`
  unfoldable pub count_stamped : Bool → Marking → Marking
  count_stamped true p = record p { stamped = p.stamped + 1 }
  count_stamped false p = record p { errors = p.errors + 1 }

  -- One round up to the test of the time.
  unfoldable pub mark_key : Backend → Bool → Str → Str → Marking → Marking
  mark_key b hosts at key p =
      let (fine, w) = stamp b hosts at key p.world in
      let p' = count_stamped fine (record p { world = w }) in record p' { idx = p'.idx + 1 }

  -- The loop `while idx < end`, on the keys from `idx` on.
  unfoldable pub mark_while :
      Backend → Bool → Time → Str → (last : ℕ) → List Str → Marking → Marking
  mark_while b hosts started at last [] p = p
  mark_while b hosts started at last (key ∷ keys) p =
      let p' = mark_key b hosts at key p in
      let (t, w) = now p'.world in
      let p'' : Marking = record p' { world = w } in
      let rest = mark_while b hosts started at last keys p'' in
      if ltb p.idx last then (if out_of_time started t then p'' else rest) else p

  -- The loop from the cursor on, on the sorted keys, and the answer.
  unfoldable pub mark_keys :
      Backend → Bool → Time → Str → List Str → (cursor budget : ℕ) → World → Marked
  mark_keys b hosts started at keys cursor budget w =
      let p =
        mark_while b hosts started at (window_end cursor budget (length keys)) (drop cursor keys)
          (record { stamped = 0; errors = 0; idx = cursor; world = w }) in
      record {
        stamped = p.stamped;
        errors = p.errors;
        next_cursor = p.idx;
        remaining = length keys - p.idx;
        world = p.world;
      }

  unfoldable pub mark_synced : Request → World → Result (Marked) × World
  mark_synced req w =
      let (started, w₁) = now w in
      let (opened, w₂) = open_from_config e w₁ in
      let hosts =
        str_eq (unwrap_or (codes "rules") (query_param req (codes "kind"))) (codes "hosts") in
      elim opened [
        | err x ↦ (err x, w₂)
        | ok b ↦
            let (listed, w₃) =
              Store.keys_with_prefix e b (if hosts then prefix_host else prefix_rule) w₂ in
            elim listed [
              | err x ↦ (err x, w₃)
              | ok keys ↦
                  let (stamp_time, w₄) = timestamp e w₃ in
                  elim stamp_time [
                    | err x ↦ (err x, w₄)
                    | ok at ↦
                        let m =
                          mark_keys b hosts started at (sort_by str_le keys)
                            (number_param req (codes "cursor") 0)
                            (number_param req (codes "budget") 1000) w₄ in
                        (ok m, m.world)
                  ]
            ]
      ]

  -- What a call of `clear_pending` answers.
  pub record Cleared : Type 0 where
    pub deleted : ℕ
    pub errors : ℕ
    pub remaining : ℕ
    pub world : World

  abbrev pub delete_marker : Backend → Str → World → Bool × World
  delete_marker b key w = let (r, w') = Store.delete e b key w in (is_ok r, w')

  unfoldable pub clear_keys : Backend → Time → List Str → ℕ → World → Cleared
  clear_keys b started keys budget w =
      let t = each_in_time started (delete_marker b) (take budget keys) (untouched w) in
      record {
        deleted = t.done;
        errors = t.errors;
        remaining = length keys - (t.done + t.errors);
        world = t.world;
      }

  unfoldable pub clear_pending : Request → World → Result Cleared × World
  clear_pending req w =
      let (started, w₁) = now w in
      let (opened, w₂) = open_from_config e w₁ in
      elim opened [
        | err x ↦ (err x, w₂)
        | ok b ↦
            let (listed, w₃) = Store.keys_with_prefix e b prefix_pending_ekv w₂ in
            elim listed [
              | err x ↦ (err x, w₃)
              | ok keys ↦
                  let c = clear_keys b started keys (number_param req (codes "budget") 1000) w₃ in
                  (ok c, c.world)
            ]
      ]
