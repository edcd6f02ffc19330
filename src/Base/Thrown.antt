-- ===== src/Base/Thrown.antt =====
-- Code that may throw: the value that it returns, or the exception.
use mathlib.Core.Path.{◌≡◌, refl, ap}
use mathlib.Core.Bool.{Bool, true, false}
use mathlib.Core.List.{List, [], ◌∷◌}

pub data Result {ℓ} (E : Type 0) (A : Type ℓ) : Type ℓ where
  ok : A → Result E A
  err : E → Result E A

infixl 5 ◌>>=◌ ◌>>◌
abbrev pub ◌>>=◌ {ℓ κ} :
    {E : Type 0} {A : Type ℓ} {B : Type κ} → Result E A → (A → Result E B) → Result E B
err thrown >>= next = err thrown
ok value >>= next = next value

abbrev pub ◌>>◌ {ℓ} : {E : Type 0} {B : Type ℓ} → Result E (Unit {0}) → Result E B → Result E B
first >> rest = first >>= λ _. rest

-- `if (c) throw e`
abbrev pub throw_if : {E : Type 0} → Bool → E → Result E (Unit {0})
throw_if true e = err e
throw_if false e = ok tt

-- `xs.map(f)` where `f` may throw
abbrev pub map_result {ℓ κ} :
    {E : Type 0} {A : Type ℓ} {B : Type κ} → (A → Result E B) → List A → Result E (List B)
map_result f [] = ok []
map_result f (x ∷ xs) = do ok ((← f x) ∷ (← map_result f xs))

abbrev pub value_or {ℓ} : {E : Type 0} {A : Type ℓ} → A → Result E A → A
value_or d (ok a) = a
value_or d (err e) = d

-- The same outcome, with the exception put among those of the caller.
abbrev pub map_err {ℓ} : {E F : Type 0} {A : Type ℓ} → (E → F) → Result E A → Result F A
map_err f (ok a) = ok a
map_err f (err e) = err (f e)

pub map_err-ok {ℓ} :
    {E F : Type 0} {A : Type ℓ} (f : E → F) (run : Result E A) {a : A}
    → map_err f run ≡ ok a
    → run ≡ ok a
map_err-ok f (ok a) h = ap (λ x. ok (value_or a x)) h
map_err-ok f (err e) h = cc

pub >>=-eq-ok {ℓ κ} :
    {E : Type 0} {A : Type ℓ} {B : Type κ} (run : Result E A) (next : A → Result E B) {b : B}
    → (run >>= next) ≡ ok b
    → (found : A) × (run ≡ ok found) × (next found ≡ ok b)
>>=-eq-ok (err thrown) next h = cc
>>=-eq-ok (ok found) next h = (found, refl, h)

-- A guard that was passed did not hold.
pub throw_if-ok {ℓ} :
    {E : Type 0} {B : Type ℓ} (c : Bool) (thrown : E) (rest : Result E B) {b : B}
    → (throw_if c thrown >> rest) ≡ ok b
    → (c ≡ false) × (rest ≡ ok b)
throw_if-ok true thrown rest h = cc
throw_if-ok false thrown rest h = (refl, h)

module _ {ℓ} {E : Type 0} {A : Type ℓ} where
  pub ok-injective : {a b : A} → ◌≡◌ {A = Result E A} (ok a) (ok b) → a ≡ b
  ok-injective {a} h = ap (value_or a) h

-- The parts of a map that succeeded.
pub map_result-cons {ℓ κ} :
    {E : Type 0} {A : Type ℓ} {B : Type κ} (f : A → Result E B) (x : A) (xs : List A) {ys : List B}
    → map_result f (x ∷ xs) ≡ ok ys
    → (y : B) × (rest : List B) × (f x ≡ ok y) × (map_result f xs ≡ ok rest) × (y ∷ rest ≡ ys)
map_result-cons {E} {B = B} f x xs e =
    let finish = λ (y : B) (rest : List B). let r : Result E (List B) = ok (y ∷ rest) in r in
    let (y, y_ok, e1) = >>=-eq-ok (f x) (λ y. map_result f xs >>= finish y) e in
    let (rest, rest_ok, e2) = >>=-eq-ok (map_result f xs) (finish y) e1 in
    (y, rest, y_ok, rest_ok, ok-injective e2)
