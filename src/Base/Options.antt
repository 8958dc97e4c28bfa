-- ===== src/Base/Options.antt =====
-- What a successful step of a chain of `Option` values says of its parts.
use mathlib.Core.Path.{◌≡◌, refl}
use mathlib.Core.Option
use mathlib.Core.Option.{Option, none, some, some-injective}

pub bind_inv {ℓ κ} :
    {A : Type ℓ} {B : Type κ} (o : Option A) (f : A → Option B) (b : B)
    → Option.bind o f ≡ some b
    → (a : A) × (o ≡ some a) × (f a ≡ some b)
unfolding Option.bind
bind_inv none f b e = absurd (cc)
bind_inv (some a) f b e = (a, refl, e)

pub map_inv {ℓ κ} :
    {A : Type ℓ} {B : Type κ} (o : Option A) (f : A → B) (b : B)
    → Option.map f o ≡ some b
    → (a : A) × (o ≡ some a) × (f a ≡ b)
map_inv none f b e = absurd (cc)
map_inv (some a) f b e = (a, refl, some-injective _ _ e)
