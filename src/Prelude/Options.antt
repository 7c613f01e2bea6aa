-- ===== src/Prelude/Options.antt =====
-- Chains of steps that may fail, as `do` blocks over options, and what holds of what they give.
use mathlib.Core.Path.{◌≡◌, refl, subst}
use mathlib.Core.Bool.{Bool, true, false}
use mathlib.Core.Option.{Option, none, some, none-ne-some, some-injective}

infixl 5 ◌>>=◌ ◌>>◌
abbrev pub ◌>>=◌ {ℓ κ} : {A : Type ℓ} {B : Type κ} → Option A → (A → Option B) → Option B
none >>= f = none
some a >>= f = f a

abbrev pub ◌>>◌ {ℓ} : {B : Type ℓ} → Option (Unit {0}) → Option B → Option B
m >> k = m >>= λ _. k

abbrev pub guard : Bool → Option (Unit {0})
guard true = some tt
guard false = none

-- What the option gives, if it gives something, has the property.
abbrev pub Ensures {ℓ m} : {A : Type ℓ} → (A → Type m) → Option A → Type m
Ensures Q none = Unit {_}
Ensures Q (some a) = Q a

pub bind_rule {ℓ κ m n} :
    {A : Type ℓ} {B : Type κ} (P : A → Type m) (Q : B → Type n) (o : Option A) (f : A → Option B)
    → Ensures P o
    → ((a : A) → P a → Ensures Q (f a))
    → Ensures Q (o >>= f)
bind_rule P Q none f h g = tt
bind_rule P Q (some a) f h g = g a h

pub guard_rule {κ n} :
    {B : Type κ} (Q : B → Type n) (b : Bool) (k : Option B)
    → (b ≡ true → Ensures Q k)
    → Ensures Q (guard b >> k)
guard_rule Q true k g = g refl
guard_rule Q false k g = tt

pub Ensures-mono {ℓ m n} :
    {A : Type ℓ} (P : A → Type m) (Q : A → Type n) (o : Option A)
    → ((a : A) → P a → Q a)
    → Ensures P o
    → Ensures Q o
Ensures-mono P Q none f h = tt
Ensures-mono P Q (some a) f h = f a h

-- A step whose result does not matter.
pub each_rule {ℓ κ n} :
    {A : Type ℓ} {B : Type κ} (Q : B → Type n) (o : Option A) (f : A → Option B)
    → ((a : A) → Ensures Q (f a))
    → Ensures Q (o >>= f)
each_rule Q none f g = tt
each_rule Q (some a) f g = g a

pub option-Ensures {ℓ m} :
    {A : Type ℓ} (Q : A → Type m) (o : Option A) → ((a : A) → o ≡ some a → Q a) → Ensures Q o
option-Ensures Q none h = tt
option-Ensures Q (some a) h = h a refl

pub ensured {ℓ m} :
    {A : Type ℓ} (Q : A → Type m) (o : Option A) (a : A) → Ensures Q o → o ≡ some a → Q a
ensured Q none a h e = absurd (none-ne-some _ e)
ensured Q (some b) a h e = subst Q (some-injective b a e) h
