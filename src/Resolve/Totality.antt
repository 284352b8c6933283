-- ===== src/Resolve/Totality.antt =====
-- The fallback resolver's lookup gives an answer where the store answers and its rules can be read
-- (redirect-handler/src/lib.rs).
use vanity_manager.Prelude.{
  ◌≡◌, refl, sym, ap, ◌∙◌, inl, inr, true, Option, none, some, List, [], ◌∷◌, ◌++◌, arith, Str,
  Bytes, codes, starts_with, starts_with_self, Any, Bool-cases, Option-cases,
}
use vanity_manager.Exec.{ok, Env, bind-run}
use vanity_manager.Model.{Redirect, exact}
use vanity_manager.Keys.{prefix_rule, k_rule, rule_key_prefix}
use vanity_manager.Store
use vanity_manager.Store.{Backend}
use vanity_manager.Store.Laws.{StoreLaws, Answers}
use vanity_manager.Kv.{get_rule}
use vanity_manager.Resolve.{is_candidate, consider, best_prefix, longest_prefix, lookup_rules}
use vanity_manager.Kv.Laws.{get_rule-keeps}
use vanity_manager.Resolve.Answers.{Resolves, lookup_rules-Resolves}

-- What is stored under a key of a rule can be read as a rule.
abbrev pub Readable : (e : Env) → (Str → Option Bytes) → Type 0
Readable e m =
    (k : Str) (v : Bytes)
    → starts_with prefix_rule k ≡ true
    → m k ≡ some v
    → (r : Redirect) × (e.serde.rule_from_slice v ≡ some r)

starts_with-append : (p q s : Str) → starts_with (p ++ q) s ≡ true → starts_with p s ≡ true
unfolding starts_with
starts_with-append [] q s h = refl
starts_with-append (c ∷ p) q [] h = h
starts_with-append (c ∷ p) q (d ∷ s) h = ground (arith, starts_with-append p q s)

k_rule-of_rule : (host path : Str) → starts_with prefix_rule (k_rule host exact path) ≡ true
unfolding k_rule
k_rule-of_rule host path = starts_with_self prefix_rule _

module _ (e : Env) (b : Backend) (laws : StoreLaws e b) (answers : Answers e b) where
  open e use {World}
  open laws use {view}

  get_rule-answers :
      (k : Str) (w : World)
      → Readable e (view w)
      → starts_with prefix_rule k ≡ true
      → (o : Option Redirect) × ((get_rule e b k w).0 ≡ ok o)
  unfolding get_rule
  get_rule-answers k w readable of_rule =
      let (o, read) = answers.get_ok k w in
      elim (Option-cases o) [
        | inl gone ↦ (none, ground arith)
        | inr (v, there) ↦
            let (r, decoded) = readable k v of_rule (sym (laws.get_view k w o read) ∙ there) in
            (some r, ground arith)
      ]

  best_prefix-answers :
      (m : Str → Option Bytes) (path : Str) (keys : List Str) (best : Option Redirect) (w : World)
      → Readable e m
      → view w ≡ m
      → ((k : Str) → Any (λ j. j ≡ k) keys → starts_with prefix_rule k ≡ true)
      → (res : Option Redirect) × ((best_prefix e b path keys best w).0 ≡ ok res)
  unfolding best_prefix
  best_prefix-answers m path [] best w readable same of_rule = (best, refl)
  best_prefix-answers m path (key ∷ keys) best w readable same of_rule =
      elim (Bool-cases (is_candidate path key)) [
        | inr other ↦
            let (res, done) =
              best_prefix-answers m path keys best w readable same (λ k a. of_rule k (inr a)) in
            (res, rw (other, best_prefix) done)
        | inl candidate ↦
            let (found, read) =
              get_rule-answers key w (rw same readable) (of_rule key (inl refl)) in
            let (res, done) =
              best_prefix-answers m path keys (consider found best) (get_rule e b key w).1 readable
                (get_rule-keeps e b laws key w ∙ same) (λ k a. of_rule k (inr a)) in
            (
              res,
              rw (candidate, best_prefix)
                  (ap (λ x. x.0)
                      (bind-run (get_rule e b key)
                        (λ o. best_prefix e b path keys (consider o best)) w found read)
                    ∙ done),
            )
      ]

  longest_prefix-answers :
      (m : Str → Option Bytes) (host path : Str) (w : World)
      → Readable e m
      → view w ≡ m
      → (res : Option Redirect) × ((longest_prefix e b host path w).0 ≡ ok res)
  unfolding longest_prefix rule_key_prefix
  longest_prefix-answers m host path w readable same =
      let (keys, listed) = answers.keys_ok (rule_key_prefix host) w in
      let (res, done) =
        best_prefix-answers m path keys none (Store.keys_with_prefix e b (rule_key_prefix host) w).1
          readable (laws.keys_keeps (rule_key_prefix host) w ∙ same)
          (λ k a.
            starts_with-append prefix_rule (host ++ codes "|") k
              ((laws.keys_view (rule_key_prefix host) k w keys listed).0 a).0) in
      (
        res,
        ap (λ x. x.0)
              (bind-run (Store.keys_with_prefix e b (rule_key_prefix host))
                (λ ks. best_prefix e b path ks none) w keys listed)
            ∙ done,
      )

  lookup_found :
      (host path : Str) (w : World) (found : Option Redirect)
      → Readable e (view w)
      → (get_rule e b (k_rule host exact path) w).0 ≡ ok found
      → (res : Option Redirect) × ((lookup_rules e b host path w).0 ≡ ok res)
  unfolding lookup_rules
  lookup_found host path w none readable read =
      let key = k_rule host exact path in
      let (res, done) =
        longest_prefix-answers (view w) host path (get_rule e b key w).1 readable
          (get_rule-keeps e b laws key w) in
      (res, ground arith)
  lookup_found host path w (some r) readable read =
      let key = k_rule host exact path in
      let (res, done) =
        longest_prefix-answers (view w) host path (get_rule e b key w).1 readable
          (get_rule-keeps e b laws key w) in
      elim (Bool-cases r.enabled) [
        | inl on ↦ (some r, ground arith)
        | inr off ↦ (res, ground arith)
      ]

  -- A backend that keeps the laws, whose reads and listings succeed and whose rules can be read: the lookup at a managed host
  -- succeeds, with the enabled exact rule for the path, and where there is none with the best of the enabled
  -- prefix rules of the host that match, or with nothing if none does.
  pub lookup_rules-answers :
      (host path : Str) (w : World)
      → Readable e (view w)
      → (res : Option Redirect) × ((lookup_rules e b host path w).0 ≡ ok res)
        × Resolves e (view w) host path res
  lookup_rules-answers host path w readable =
      let of_rule : starts_with prefix_rule (k_rule host exact path) ≡ true =
        k_rule-of_rule host path in
      let (found, read) = get_rule-answers (k_rule host exact path) w readable of_rule in
      let (res, done) = lookup_found host path w found readable read in
      (res, done, lookup_rules-Resolves e b laws host path w res done)
