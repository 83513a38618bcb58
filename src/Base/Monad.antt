-- ===== src/Base/Monad.antt =====
-- State and exceptions. The state comes back after a raise too, since what was written stays written.
use mathlib.Core.Bool.{Bool, true, false}
use mathlib.Core.List.{List, [], ◌∷◌}
use mathlib.Core.Option.{Option, none, some}
use mathlib.Core.Path.{◌≡◌}
use native.Mathlib.Omega.{arith}
use mini_llmcache.Base.Tests.{if◌then◌else◌}

pub data Error : Type 0 where
  key_error value_error assertion_error runtime_error overflow_error pickling_error os_error
        zero_division_error struct_error :
      Error

pub data Outcome {ℓ} (A : Type ℓ) : Type ℓ where
  ok : A → Outcome A
  raised : Error → Outcome A

abbrev pub Action : Type 0 → Type 0 → Type 0
Action S A = S → Outcome A × S

module _ {S A : Type 0} where
  abbrev pub pure : A → Action S A
  pure a s = (ok a, s)

  abbrev pub raise : Error → Action S A
  raise e s = (raised e, s)

  abbrev pub or_raise : Option A → Error → Action S A
  or_raise none e s = (raised e, s)
  or_raise (some a) e s = (ok a, s)

infixl 5 ◌>>=◌ ◌>>◌
abbrev pub ◌>>=◌ : {S A B : Type 0} → Action S A → (A → Action S B) → Action S B
◌>>=◌ m f s = let (r, s') = m s in elim r [ ok a ↦ f a s' | raised e ↦ (raised e, s') ]

abbrev pub ◌>>◌ : {S A B : Type 0} → Action S A → Action S B → Action S B
m >> k = m >>= λ _. k

abbrev pub gets : {S A : Type 0} → (S → A) → Action S A
gets f s = (ok (f s), s)

abbrev pub modify : {S : Type 0} → (S → S) → Action S (Unit {0})
modify f s = (ok tt, f s)

-- `for x in xs: f(x)`
abbrev pub for_each : {S A : Type 0} → (A → Action S (Unit {0})) → List A → Action S (Unit {0})
for_each f [] = pure tt
for_each f (x ∷ xs) = f x >> for_each f xs

-- A step that has returned.
pub >>=-ok :
    {S A B : Type 0} (m : Action S A) (f : A → Action S B) (s : S) {a : A} {s' : S}
    → m s ≡ (ok a, s')
    → (m >>= f) s ≡ f a s'
>>=-ok m f s h = ground arith

-- A step that has raised.
pub >>=-raised :
    {S A B : Type 0} (m : Action S A) (f : A → Action S B) (s : S) {e : Error} {s' : S}
    → m s ≡ (raised e, s')
    → (m >>= f) s ≡ (raised e, s')
>>=-raised m f s h = ground arith

-- A step that keeps `P`, however it ends.
abbrev pub Preserves : {S A : Type 0} → (S → Type 0) → Action S A → Type 0
Preserves P f = (s : _) → P s → P (f s).1

-- What `>>=` goes on with.
abbrev pub carried : {S A B : Type 0} → (A → Action S B) → Outcome A × S → Outcome B × S
carried g p = elim p.0 [ ok a ↦ g a p.1 | raised e ↦ (raised e, p.1) ]

pub Preserves-bind :
    {S A B : Type 0} {P : S → Type 0} (f : Action S A) (g : A → Action S B)
    → Preserves P f
    → ((a : A) → Preserves P (g a))
    → Preserves P (f >>= g)
Preserves-bind {S} {A} {B} {P} f g hf hg m valid = go (f m) (hf m valid)
  where
    go : (p : Outcome A × S) → P p.1 → P (carried g p).1
    go (ok a, s) v = hg a s v
    go (raised e, s) v = v

pub Preserves-for_each :
    {S A : Type 0} {P : S → Type 0} (f : A → Action S (Unit {0})) (xs : List A)
    → ((a : A) → Preserves P (f a))
    → Preserves P (for_each f xs)
Preserves-for_each f [] h = λ m valid. valid
Preserves-for_each f (x ∷ xs) h =
    Preserves-bind (f x) (λ _. for_each f xs) (h x) (λ _. Preserves-for_each f xs h)

pub Preserves-if :
    {S A : Type 0} {P : S → Type 0} (b : Bool) (f g : Action S A)
    → Preserves P f
    → Preserves P g
    → Preserves P (if b then f else g)
Preserves-if true f g h k = h
Preserves-if false f g h k = k

pub if_run :
    {S A : Type 0} (P : S → Type 0) (b : Bool) (p q : Outcome A × S)
    → P p.1
    → P q.1
    → P (if b then p else q).1
if_run P true p q h k = h
if_run P false p q h k = k
