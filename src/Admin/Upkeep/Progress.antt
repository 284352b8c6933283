-- ===== src/Admin/Upkeep/Progress.antt =====
-- The bulk maintenance counts every key that it works on, and goes forward (admin-api/src/handlers.rs).
use vanity_manager.Prelude.{
  ℕ, zero, suc, ◌+◌, ◌-◌, ◌%◌, ◌^◌, ◌≤◌, ◌<◌, ◌≡◌, refl, Bool, true, false, List, [], ◌∷◌, arith,
  Str, length, take, drop, inl, inr, Bool-cases, min, ltb, if◌then◌else◌,
}
use vanity_manager.Exec.{Env}
use vanity_manager.Store.{Backend}
use vanity_manager.Admin.Upkeep.{
  out_of_time, tally, delete_marker, stamp, Tally, each_in_time, window_end, mark_keys, clear_keys,
  Marking, count_stamped, mark_key, mark_while,
}

module _ {A : Type 0} where
  length-take : (n : ℕ) (xs : List A) → length (take n xs) ≡ min n (length xs)
  length-take zero xs = omega arith
  length-take (suc n) [] = omega arith
  length-take (suc n) (x ∷ xs) = omega (arith, length-take n xs)

  length-drop : (n : ℕ) (xs : List A) → length (drop n xs) ≡ length xs - n
  length-drop zero xs = omega arith
  length-drop (suc n) [] = omega arith
  length-drop (suc n) (x ∷ xs) = omega (arith, length-drop n xs)

  length-slice : (n m : ℕ) (xs : List A) → length (take n (drop m xs)) ≡ min n (length xs - m)
  length-slice n m xs = omega (arith, length-take n (drop m xs), length-drop m xs)

module _ (e : Env) where
  open e use {World, Time, now}

  abbrev worked : Tally e → ℕ
  worked t = t.done + t.errors

  worked-tally :
      (fine : Bool) (w : World) (t : Tally e) → worked (tally e fine w t) ≡ suc (worked t)
  unfolding tally
  worked-tally true w t = omega arith
  worked-tally false w t = omega arith

  -- A loop works on at most all of its keys.
  each_in_time-bounds :
      (started : Time) (work : Str → World → Bool × World) (keys : List Str) (t : Tally e)
      → (worked t ≤ worked (each_in_time e started work keys t))
        × (worked (each_in_time e started work keys t) ≤ worked t + length keys)
  unfolding each_in_time
  each_in_time-bounds started work [] t = (omega arith, omega arith)
  each_in_time-bounds started work (key ∷ keys) t =
      let (fine, w) = work key t.world in
      let (at, w') = now w in
      let t' = tally e fine w' t in
      let rest = each_in_time-bounds started work keys t' in
      elim (Bool-cases (out_of_time e started at)) [
        | inl out ↦
            rw (out, each_in_time)
              (omega (arith, worked-tally fine w' t), omega (arith, worked-tally fine w' t))
        | inr on ↦
            rw (on, each_in_time)
              (
                omega (arith, rest, worked-tally fine w' t),
                omega (arith, rest, worked-tally fine w' t),
              )
      ]

  -- It works on the first of them whatever the time is.
  each_in_time-first :
      (started : Time) (work : Str → World → Bool × World) (keys : List Str) (t : Tally e)
      → 0 < length keys
      → worked t < worked (each_in_time e started work keys t)
  unfolding each_in_time
  each_in_time-first started work [] t h = absurd (omega arith)
  each_in_time-first started work (key ∷ keys) t h =
      let (fine, w) = work key t.world in
      let (at, w') = now w in
      let t' = tally e fine w' t in
      let rest = each_in_time-bounds started work keys t' in
      elim (Bool-cases (out_of_time e started at)) [
        | inl out ↦ rw (out, each_in_time) (omega (arith, worked-tally fine w' t))
        | inr on ↦ rw (on, each_in_time) (omega (arith, rest, worked-tally fine w' t))
      ]

  -- What the loop of `mark_synced` has done when it has reached a state, from another state on.
  record Reaches (last : ℕ) (p q : Marking e) : Type 0 where
    forward : p.idx ≤ q.idx
    counted : q.stamped + q.errors + p.idx ≡ p.stamped + p.errors + q.idx
    within : q.idx ≤ p.idx + (last - p.idx)

  mark_key-counts :
      (b : Backend) (hosts : Bool) (at key : Str) (p : Marking e)
      → let q = mark_key e b hosts at key p in
        (q.idx ≡ suc p.idx) × (q.stamped + q.errors ≡ suc (p.stamped + p.errors))
  unfolding mark_key count_stamped
  mark_key-counts b hosts at key p = elim (Bool-cases (stamp e b hosts at key p.world).0) [
    | inl fine ↦ rw fine (omega arith, omega arith)
    | inr bad ↦ rw bad (omega arith, omega arith)
  ]

  Reaches-refl : (last : ℕ) (p : Marking e) → Reaches last p p
  Reaches-refl last p = record { forward = omega arith; counted = refl; within = omega arith }

  mark_while-Reaches :
      (b : Backend) (hosts : Bool) (started : Time) (at : Str) (last : ℕ) (keys : List Str)
      (p : Marking e)
      → Reaches last p (mark_while e b hosts started at last keys p)
  unfolding mark_while
  mark_while-Reaches b hosts started at last [] p = Reaches-refl last p
  mark_while-Reaches b hosts started at last (key ∷ keys) p =
      let q = mark_key e b hosts at key p in
      let (t, w) = now q.world in
      let q' : Marking e = record q { world = w } in
      let counts = mark_key-counts b hosts at key p in
      let rest = mark_while-Reaches b hosts started at last keys q' in
      elim (Bool-cases (ltb p.idx last)) [
        | inr done ↦ rw (done, mark_while) (Reaches-refl last p)
        | inl inside ↦
            let below : p.idx < last = ground (arith, inside) in
            elim (Bool-cases (out_of_time e started t)) [
              | inl out ↦
                  rw (inside, out, mark_while)
                    (record {
                      forward = omega (arith, counts);
                      counted = omega (arith, counts);
                      within = omega (arith, counts, below);
                    })
              | inr on ↦
                  rw (inside, on, mark_while)
                    (record {
                      forward = omega (arith, counts, rest.forward);
                      counted = omega (arith, counts, rest.counted);
                      within = omega (arith, counts, below, rest.within);
                    })
            ]
      ]

  -- With a key and room before the end, the loop makes a round.
  mark_while-first :
      (b : Backend) (hosts : Bool) (started : Time) (at : Str) (last : ℕ) (keys : List Str)
      (p : Marking e)
      → 0 < length keys
      → p.idx < last
      → p.idx < (mark_while e b hosts started at last keys p).idx
  unfolding mark_while
  mark_while-first b hosts started at last [] p some_key below = absurd (omega arith)
  mark_while-first b hosts started at last (key ∷ keys) p some_key below =
      let q = mark_key e b hosts at key p in
      let (t, w) = now q.world in
      let q' : Marking e = record q { world = w } in
      let counts = mark_key-counts b hosts at key p in
      let rest = mark_while-Reaches b hosts started at last keys q' in
      let inside : ltb p.idx last ≡ true = ground (arith, below) in
      elim (Bool-cases (out_of_time e started t)) [
        | inl out ↦ rw (inside, out, mark_while) (omega (arith, counts))
        | inr on ↦ rw (inside, on, mark_while) (omega (arith, counts, rest.forward))
      ]

  -- A call of `mark_synced` whose cursor is within the keys, with a budget that is not 0 and that does not
  -- overflow, moves the cursor forward, by the number of the keys that it counts as stamped or as errors;
  -- they are at most its budget, and what remains is what lies behind the new cursor. This holds for each
  -- clock and each answer of the store.
  pub mark_keys-progress :
      (b : Backend) (hosts : Bool) (started : Time) (at : Str) (keys : List Str) (cursor budget : ℕ)
      (w : World)
      → cursor < length keys
      → 0 < budget
      → cursor + budget < 2 ^ 32
      → (cursor < (mark_keys e b hosts started at keys cursor budget w).next_cursor)
        × ((mark_keys e b hosts started at keys cursor budget w).next_cursor
            ≡ cursor
              + ((mark_keys e b hosts started at keys cursor budget w).stamped
                  + (mark_keys e b hosts started at keys cursor budget w).errors))
        × ((mark_keys e b hosts started at keys cursor budget w).stamped
              + (mark_keys e b hosts started at keys cursor budget w).errors
            ≤ budget)
        × ((mark_keys e b hosts started at keys cursor budget w).next_cursor
              + (mark_keys e b hosts started at keys cursor budget w).remaining
            ≡ length keys)
  unfolding mark_keys window_end
  mark_keys-progress b hosts started at keys cursor budget w inside some_budget no_overflow =
      let last = min ((cursor + budget) % 2 ^ 32) (length keys) in
      let p : Marking e = record { stamped = 0; errors = 0; idx = cursor; world = w } in
      let size = length-drop cursor keys in
      let run = mark_while-Reaches b hosts started at last (drop cursor keys) p in
      let first =
        mark_while-first b hosts started at last (drop cursor keys) p (omega (arith, size))
          (omega arith) in
      (
        first,
        omega (arith, run.counted),
        omega (arith, run.counted, run.within),
        omega (arith, run.within),
      )

  -- The calls of a client that passes on the cursor until nothing remains, with the calls that it may make;
  -- each finds the same keys, in a world of its own.
  unfoldable pub calls_until_done :
      Backend → Bool → Str → List Str → (budget : ℕ) → (ℕ → Time × World) → (calls cursor : ℕ) → ℕ
  calls_until_done b hosts at keys budget call zero cursor = cursor
  calls_until_done b hosts at keys budget call (suc n) cursor =
      let (started, w) = call n in
      let next = (mark_keys e b hosts started at keys cursor budget w).next_cursor in
      let rest = calls_until_done b hosts at keys budget call n next in
      if ltb cursor (length keys) then rest else cursor

  -- A client that starts at a cursor within the keys and calls `mark_synced` again with the cursor of the last answer,
  -- as long as something remains, with a budget that is not 0 and does not overflow, ends at the last key, whatever the
  -- clock and the store do in between, as long as each call lists the same keys: one call for each key that is left is
  -- always enough.
  pub mark_keys-completes :
      (b : Backend) (hosts : Bool) (at : Str) (keys : List Str) (budget : ℕ)
      (call : ℕ → Time × World) (calls cursor : ℕ)
      → cursor ≤ length keys
      → 0 < budget
      → length keys + budget < 2 ^ 32
      → length keys ≤ cursor + calls
      → calls_until_done b hosts at keys budget call calls cursor ≡ length keys
  unfolding calls_until_done
  mark_keys-completes b hosts at keys budget call zero cursor inside some no_overflow enough =
      omega (arith, inside, enough)
  mark_keys-completes b hosts at keys budget call (suc n) cursor inside some no_overflow enough =
      elim (Bool-cases (ltb cursor (length keys))) [
        | inr done ↦ rw (done, calls_until_done) (ground (arith, done, inside))
        | inl left ↦
            let (started, w) = call n in
            let below : cursor < length keys = ground (arith, left) in
            let next = (mark_keys e b hosts started at keys cursor budget w).next_cursor in
            let (forward, _, _, rest) =
              mark_keys-progress b hosts started at keys cursor budget w below some
                (omega (arith, below, no_overflow)) in
            rw (left, calls_until_done)
              (mark_keys-completes b hosts at keys budget call n next (omega (arith, rest)) some
                no_overflow (omega (arith, forward, enough)))
      ]

  -- A call of `clear_pending` with a budget and a marker to delete tries at least one marker and at most
  -- its budget; it counts each that it tries once, as deleted or as an error, and what remains are the
  -- markers that it did not try. This holds for each clock and each answer of the store.
  pub clear_keys-progress :
      (b : Backend) (started : Time) (keys : List Str) (budget : ℕ) (w : World)
      → 0 < budget
      → 0 < length keys
      → (0
          < (clear_keys e b started keys budget w).deleted
            + (clear_keys e b started keys budget w).errors)
        × ((clear_keys e b started keys budget w).deleted
              + (clear_keys e b started keys budget w).errors
            ≤ budget)
        × ((clear_keys e b started keys budget w).deleted
              + (clear_keys e b started keys budget w).errors
              + (clear_keys e b started keys budget w).remaining
            ≡ length keys)
  unfolding clear_keys
  clear_keys-progress b started keys budget w some_budget some_keys =
      let t : Tally e = record { done = 0; errors = 0; world = w } in
      let size = length-take budget keys in
      let bounds = each_in_time-bounds started (delete_marker e b) (take budget keys) t in
      let first =
        each_in_time-first started (delete_marker e b) (take budget keys) t (omega (arith, size)) in
      (omega (arith, bounds, first), omega (arith, bounds, size), omega (arith, bounds, size))
