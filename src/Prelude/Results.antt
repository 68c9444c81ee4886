-- ===== src/Prelude/Results.antt =====
-- How a Rust function ends: with a value, with an `Err`, or by a panic (an overflow of `Uint128`,
-- an index out of range). The chain rolls a message back after either of the last two.
use mathlib.Core.Path.{◌≡◌, refl, sym, ap, ◌∙◌, subst}
use mathlib.Core.Bool.{Bool, true, false}
use mathlib.Core.Option.{Option, none, some}
use dao_contracts.Prelude.Tests.{if◌then◌else◌}

pub data Outcome (E A : Type 0) : Type 0 where
  ok : A → Outcome E A
  err : E → Outcome E A
  panic : Outcome E A

infixl 5 ◌>>=◌ ◌>>◌
abbrev pub ◌>>=◌ : {E A B : Type 0} → Outcome E A → (A → Outcome E B) → Outcome E B
panic >>= next = panic
err failure >>= next = err failure
ok value >>= next = next value

-- Running on after a step that only checks something
abbrev pub ◌>>◌ : {E B : Type 0} → Outcome E (Unit {0}) → Outcome E B → Outcome E B
check >> rest = check >>= λ _. rest

-- `if !test { return Err(e) }`
abbrev pub guard : {E : Type 0} → Bool → E → Outcome E (Unit {0})
guard true e = ok tt
guard false e = err e

-- `o.ok_or(e)?`
abbrev pub ok_or : {E A : Type 0} → Option A → E → Outcome E A
ok_or none e = err e
ok_or (some a) e = ok a

-- the conversion of the error that `?` makes
abbrev pub map_err : {E F A : Type 0} → (E → F) → Outcome E A → Outcome F A
map_err f (ok a) = ok a
map_err f (err e) = err (f e)
map_err f panic = panic

-- Two steps in a row end with a value only if the first one does, and the second one from there.
pub >>=-eq-ok :
    {E A B : Type 0} (first : Outcome E A) (next : A → Outcome E B) {last : B}
    → (first >>= next) ≡ ok last
    → (middle : A) × (first ≡ ok middle) × (next middle ≡ ok last)
>>=-eq-ok panic next ends = cc
>>=-eq-ok (err failure) next ends = cc
>>=-eq-ok (ok value) next ends = (value, refl, ends)

pub ok-injective : {E A : Type 0} {a b : A} → ◌≡◌ {A = Outcome E A} (ok a) (ok b) → a ≡ b
ok-injective h = cc

pub else-eq-ok :
    {E A : Type 0} (test : Bool) (e : E) (m : Outcome E A) {a : A}
    → (if test then err e else m) ≡ ok a
    → (test ≡ false) × (m ≡ ok a)
else-eq-ok true e m h = cc
else-eq-ok false e m h = (refl, h)

pub guard-eq-ok :
    {E B : Type 0} (test : Bool) (e : E) (k : Outcome E B) {b : B}
    → (guard test e >> k) ≡ ok b
    → (test ≡ true) × (k ≡ ok b)
guard-eq-ok true e k h = (refl, h)
guard-eq-ok false e k h = cc

pub map_err-eq-ok :
    {E F A : Type 0} (f : E → F) (m : Outcome E A) {a : A} → map_err f m ≡ ok a → m ≡ ok a
map_err-eq-ok f (ok x) h = cc
map_err-eq-ok f (err e) h = cc
map_err-eq-ok f panic h = cc

pub ok_or-eq-ok : {E A : Type 0} (o : Option A) (e : E) {a : A} → ok_or o e ≡ ok a → o ≡ some a
ok_or-eq-ok none e h = cc
ok_or-eq-ok (some x) e h = cc

-- The same, for the rest of a proof: what the first step returned is a variable there.
pub >>=-then {ℓ} :
    {E A B : Type 0} {P : Type ℓ} (first : Outcome E A) (next : A → Outcome E B) {last : B}
    → (first >>= next) ≡ ok last
    → ((middle : A) → first ≡ ok middle → next middle ≡ ok last → P)
    → P
>>=-then panic next ends rest = cc
>>=-then (err failure) next ends rest = cc
>>=-then (ok value) next ends rest = rest value refl ends

-- It ends with a value.
abbrev pub Returns : {E A : Type 0} → Outcome E A → Type 0
Returns {A = A} m = (a : A) × (m ≡ ok a)

pub >>=-Returns :
    {E A B : Type 0} (first : Outcome E A) (next : A → Outcome E B) (middle : A)
    → first ≡ ok middle
    → Returns (next middle)
    → Returns (first >>= next)
>>=-Returns panic next middle e rest = cc
>>=-Returns (err failure) next middle e rest = cc
>>=-Returns (ok value) next middle e rest =
    subst (λ a. Returns (next a)) (sym (ok-injective e)) rest

pub >>=-eq-panic :
    {E A B : Type 0} (first : Outcome E A) (next : A → Outcome E B)
    → first ≡ panic
    → (first >>= next) ≡ panic
>>=-eq-panic panic next e = refl
>>=-eq-panic (err failure) next e = cc
>>=-eq-panic (ok value) next e = cc

pub >>=-eq_next :
    {E A B : Type 0} (first : Outcome E A) (next : A → Outcome E B) (middle : A)
    {last : Outcome E B}
    → first ≡ ok middle
    → next middle ≡ last
    → (first >>= next) ≡ last
>>=-eq_next panic next middle e rest = cc
>>=-eq_next (err failure) next middle e rest = cc
>>=-eq_next (ok value) next middle e rest = ap next (ok-injective e) ∙ rest
