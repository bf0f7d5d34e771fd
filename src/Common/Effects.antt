-- ===== src/Common/Effects.antt =====
-- Code that reads and changes the world outside the program, and may fail.
use mathlib.Core.Path.{◌≡◌, refl, ap}
use package.batasd.Common.Errors.{Error, Result, ok, err}

abbrev pub Io : Type 0 → Type 0 → Type 0
Io W A = W → Result A × W

unfoldable pub continue_with : {W A B : Type 0} → (A → Io W B) → Result A → Io W B
continue_with f (ok a) w = f a w
continue_with f (err e) w = (err e, w)

-- What follows a step runs in the world that the step left, unless the step failed.
infixl 5 ◌>>=◌ ◌>>◌
abbrev pub ◌>>=◌ : {W A B : Type 0} → Io W A → (A → Io W B) → Io W B
◌>>=◌ m f w = continue_with f (m w).0 (m w).1

abbrev pub ◌>>◌ : {W A B : Type 0} → Io W A → Io W B → Io W B
◌>>◌ m k w = continue_with (λ _. k) (m w).0 (m w).1

abbrev pub return : {W A : Type 0} → A → Io W A
return a w = (ok a, w)

-- A step that reads nothing of the world.
abbrev pub lift : {W A : Type 0} → Result A → Io W A
lift r w = (r, w)

-- What a chain that succeeded has done.
pub continue_with-eq-ok :
    {W A B : Type 0} (f : A → Io W B) (r : Result A) (v : W) {b : B} {w' : W}
    → continue_with f r v ≡ (ok b, w')
    → (a : A) × (r ≡ ok a) × (f a v ≡ (ok b, w'))
unfolding continue_with
continue_with-eq-ok f (ok a) v h = (a, refl, h)
continue_with-eq-ok f (err x) v {b} h = let failed : err x ≡ ok b = ap (λ t. t.0) h in absurd (cc)

pub ok-injective :
    {W A : Type 0} {a b : A} {v w : W} → ◌≡◌ {A = Result A × W} (ok a, v) (ok b, w) → a ≡ b
ok-injective {A} {a} {b} h = let same : ◌≡◌ {A = Result A} (ok a) (ok b) = ap (λ t. t.0) h in cc

pub ok≢err :
    {W A : Type 0} {e : Error} {b : A} {v w : W} → ◌≡◌ {A = Result A × W} (err e, v) (ok b, w) → ⊥
ok≢err {A} {e} {b} h = let same : ◌≡◌ {A = Result A} (err e) (ok b) = ap (λ t. t.0) h in cc

pub with_world : {W A : Type 0} {a : A} (t : Result A × W) → t.0 ≡ ok a → t ≡ (ok a, t.1)
with_world t e = λ i. (e i, t.1)

-- What holds of a chain: what holds when the step failed, and of what follows it when it did not.
pub continue_with-elim {ℓ} :
    {W A B : Type 0} (P : Result B × W → Type ℓ) (f : A → Io W B) (r : Result A) (w : W)
    → ((e : Error) → P (err e, w))
    → ((a : A) → P (f a w))
    → P (continue_with f r w)
unfolding continue_with
continue_with-elim P f (ok a) w on_err on_ok = on_ok a
continue_with-elim P f (err e) w on_err on_ok = on_err e
