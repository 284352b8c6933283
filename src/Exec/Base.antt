-- ===== src/Exec/Base.antt =====
-- Results, effectful calls and the ways to join them.
use vanity_manager.Prelude.{
  ℕ, Bool, true, false, Option, none, some, Str, ◌≡◌, refl, sym, ap, ◌∙◌, ◌⊎◌, inl, inr,
}

-- An `anyhow` error: the text of a library, or what the program reports.
pub data Error : Type 0 where
  external : Str → Error
  missing_variable : Str → Error
  incomplete_credentials : Error
  http_status : Str → ℕ → Error
  malformed_json : Error
  bad_rule_key : Str → Error
  bad_endpoint : Error

pub data Result {ℓ} (A : Type ℓ) : Type ℓ where
  ok : A → Result A
  err : Error → Result A

abbrev pub Exec : Type 0 → Type 0 → Type 0
Exec W A = W → Result A × W

infixl 5 ◌>>=◌ ◌>>◌
abbrev pub ◌>>=◌ : {W A B : Type 0} → Exec W A → (A → Exec W B) → Exec W B
◌>>=◌ m f w = let (r, w') = m w in elim r [ ok a ↦ f a w' | err e ↦ (err e, w') ]

abbrev pub ◌>>◌ : {W B : Type 0} → Exec W (Unit {0}) → Exec W B → Exec W B
m >> k = m >>= λ _. k

module _ {W A : Type 0} where
  abbrev pub pure : A → Exec W A
  pure a w = (ok a, w)

  abbrev pub raise : Error → Exec W A
  raise e w = (err e, w)

  abbrev pub lift : Result A → Exec W A
  lift r w = (r, w)

  -- `match m.await { .. }`: the error is a value.
  abbrev pub attempt : Exec W A → Exec W (Result A)
  attempt m w = let (r, w') = m w in (ok r, w')

  -- `let _ = m.await;`
  abbrev pub ignore : Exec W A → Exec W (Unit {0})
  ignore m w = (ok tt, (m w).1)

-- `r.ok().flatten()`
abbrev pub ok_flatten : {A : Type 0} → Result (Option A) → Option A
ok_flatten (ok o) = o
ok_flatten (err _) = none

-- `o.ok_or(e)?`
abbrev pub ok_or : {A : Type 0} → Option A → Error → Result A
ok_or none e = err e
ok_or (some a) _ = ok a

abbrev pub is_ok : {A : Type 0} → Result A → Bool
is_ok (ok _) = true
is_ok (err _) = false

pub Result-cases {ℓ} :
    {A : Type ℓ} (r : Result A) → ((a : A) × (r ≡ ok a)) ⊎ ((x : Error) × (r ≡ err x))
Result-cases (ok a) = inl (a, refl)
Result-cases (err x) = inr (x, refl)

-- What `m >>= f` does with the outcome of `m`.
abbrev pub go_on : {W A B : Type 0} → Result A × W → (A → Exec W B) → Result B × W
go_on (r, w) f = elim r [ ok a ↦ f a w | err e ↦ (err e, w) ]

go_on-ok :
    {W A B : Type 0} (x : Result A × W) (f : A → Exec W B) (c : B)
    → (go_on x f).0 ≡ ok c
    → (a : A) × (x.0 ≡ ok a) × (go_on x f ≡ f a x.1)
go_on-ok (ok a, w) f c h = (a, refl, refl)
go_on-ok (err x, w) f c h = absurd cc

-- A call that goes on after `m` and succeeds: `m` has succeeded.
pub bind-ok :
    {W A B : Type 0} (m : Exec W A) (f : A → Exec W B) (w : W) (c : B)
    → ((m >>= f) w).0 ≡ ok c
    → (a : A) × ((m w).0 ≡ ok a) × ((m >>= f) w ≡ f a (m w).1)
bind-ok m f w c h = go_on-ok (m w) f c h

go_on-run :
    {W A B : Type 0} (x : Result A × W) (f : A → Exec W B) (a : A)
    → x.0 ≡ ok a
    → go_on x f ≡ f a x.1
go_on-run (ok a', w) f a h = cc
go_on-run (err x, w) f a h = absurd cc

-- After a call that succeeded the next one runs on its result.
pub bind-run :
    {W A B : Type 0} (m : Exec W A) (f : A → Exec W B) (w : W) (a : A)
    → (m w).0 ≡ ok a
    → (m >>= f) w ≡ f a (m w).1
bind-run m f w a h = go_on-run (m w) f a h

-- The same for a step whose result is not used.
pub then-ok :
    {W B : Type 0} (m : Exec W (Unit {0})) (k : Exec W B) (w : W) (c : B)
    → ((m >> k) w).0 ≡ ok c
    → (k (m w).1).0 ≡ ok c
then-ok m k w c h = let (_, _, same) = bind-ok m (λ _. k) w c h in sym (ap (λ x. x.0) same) ∙ h

go_on_congr :
    {W A B : Type 0} (x : Result A × W) (f g : A → Exec W B)
    → ((a : A) (w : W) → f a w ≡ g a w)
    → go_on x f ≡ go_on x g
go_on_congr (ok a, w) f g same = same a w
go_on_congr (err x, w) f g same = refl

-- Calls that go on alike after `m` run alike.
pub bind_congr :
    {W A B : Type 0} (m : Exec W A) (f g : A → Exec W B) (w : W)
    → ((a : A) (w' : W) → f a w' ≡ g a w')
    → (m >>= f) w ≡ (m >>= g) w
bind_congr m f g w same = go_on_congr (m w) f g same
