-- ===== src/Tests/Codec.antt =====
-- Bytes from which a rule is read back: each text behind its length, each number behind its sign. The tests take
-- them for what `serde_json` does, which is a parameter.
use vanity_manager.Prelude.{
  zero, suc, ◌≡◌, refl, ◌∙◌, ap, Bool, true, false, Option, none, some, [], ◌∷◌, ◌++◌, Str, Bytes,
  ℤ, pos, negsuc, length, take, drop,
}
use vanity_manager.Model.{Redirect, MatchType, exact, prefix}

take-length : (s r : Bytes) → take (length s) (s ++ r) ≡ s
take-length [] r = refl
take-length (x ∷ s) r = ap (λ t. x ∷ t) (take-length s r)

drop-length : (s r : Bytes) → drop (length s) (s ++ r) ≡ r
drop-length [] r = refl
drop-length (x ∷ s) r = drop-length s r

abbrev put_text : Str → Bytes → Bytes
put_text s rest = length s ∷ (s ++ rest)

abbrev put_int : ℤ → Bytes → Bytes
put_int (pos n) rest = 0 ∷ n ∷ rest
put_int (negsuc n) rest = 1 ∷ n ∷ rest

abbrev put_bool : Bool → Bytes → Bytes
put_bool false rest = 0 ∷ rest
put_bool true rest = 1 ∷ rest

abbrev put_match_type : MatchType → Bytes → Bytes
put_match_type exact rest = 0 ∷ rest
put_match_type prefix rest = 1 ∷ rest

-- Each reader hands what it read, and the rest, to what follows.
module _ {A : Type 0} where
  abbrev get_text : (Str → Bytes → Option A) → Bytes → Option A
  get_text k [] = none
  get_text k (n ∷ b) = k (take n b) (drop n b)

  abbrev get_int : (ℤ → Bytes → Option A) → Bytes → Option A
  get_int k (zero ∷ n ∷ b) = k (pos n) b
  get_int k (suc m ∷ n ∷ b) = k (negsuc n) b
  get_int k b = none

  abbrev get_bool : (Bool → Bytes → Option A) → Bytes → Option A
  get_bool k [] = none
  get_bool k (zero ∷ b) = k false b
  get_bool k (suc n ∷ b) = k true b

  abbrev get_match_type : (MatchType → Bytes → Option A) → Bytes → Option A
  get_match_type k [] = none
  get_match_type k (zero ∷ b) = k exact b
  get_match_type k (suc n ∷ b) = k prefix b

  get_text-put_text :
      (k : Str → Bytes → Option A) (s : Str) (rest : Bytes)
      → get_text k (put_text s rest) ≡ k s rest
  get_text-put_text k s rest =
      ap (λ t. k t (drop (length s) (s ++ rest))) (take-length s rest)
      ∙ ap (k s) (drop-length s rest)

  get_int-put_int :
      (k : ℤ → Bytes → Option A) (i : ℤ) (rest : Bytes) → get_int k (put_int i rest) ≡ k i rest
  get_int-put_int k (pos n) rest = refl
  get_int-put_int k (negsuc n) rest = refl

  get_bool-put_bool :
      (k : Bool → Bytes → Option A) (c : Bool) (rest : Bytes)
      → get_bool k (put_bool c rest) ≡ k c rest
  get_bool-put_bool k false rest = refl
  get_bool-put_bool k true rest = refl

  get_match_type-put_match_type :
      (k : MatchType → Bytes → Option A) (m : MatchType) (rest : Bytes)
      → get_match_type k (put_match_type m rest) ≡ k m rest
  get_match_type-put_match_type k exact rest = refl
  get_match_type-put_match_type k prefix rest = refl

abbrev pub put_rule : Redirect → Bytes
put_rule r = put_text r.host (
    put_text r.path (
      put_text r.target_url (
        put_int r.status_code (
          put_match_type r.match_type (
            put_bool r.preserve_path (
              put_bool r.preserve_query (
                put_bool r.enabled (
                  put_int r.priority (
                    put_text r.notes (
                      put_bool r.case_insensitive
                        (put_text r.updated_at (put_text r.ekv_synced_at []))))))))))))

abbrev pub get_rule : Bytes → Option Redirect
get_rule = get_text (λ h. get_text (λ p. get_text (λ t. get_int (λ s. get_match_type (λ m.
    get_bool (λ pp. get_bool (λ pq. get_bool (λ en. get_int (λ pr. get_text (λ no. get_bool (λ ci.
      get_text (λ up. get_text (λ sy rest. some (record {
        host = h;
        path = p;
        target_url = t;
        status_code = s;
        match_type = m;
        preserve_path = pp;
        preserve_query = pq;
        enabled = en;
        priority = pr;
        notes = no;
        case_insensitive = ci;
        updated_at = up;
        ekv_synced_at = sy;
      }))))))))))))))

pub get_rule-put_rule : (r : Redirect) → get_rule (put_rule r) ≡ some r
get_rule-put_rule r =
    simp (get_text-put_text, get_int-put_int, get_match_type-put_match_type, get_bool-put_bool)
