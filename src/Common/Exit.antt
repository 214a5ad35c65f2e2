-- ===== src/Common/Exit.antt =====
-- What a function that may end the process gives: its value, or the status of `exit`.
use mathlib.Core.Option.{Option, none, some}
use mathlib.Core.Path.{◌≡◌, refl}
use mathlib.Core.Logic.{◌⊎◌, inl, inr}

pub data Exit {ℓ} (A : Type ℓ) : Type ℓ where
  ok : A → Exit A
  exit : Prim.Native.Nat.ℕ → Exit A

infixl 5 ◌>>=◌
abbrev pub ◌>>=◌ {ℓ κ} : {A : Type ℓ} {B : Type κ} → Exit A → (A → Exit B) → Exit B
ok a >>= f = f a
exit c >>= f = exit c

-- The rest of a computation that may run out of fuel (`none`) or end the process.
abbrev pub and_then {ℓ κ} :
    {A : Type ℓ} {B : Type κ} → Option (Exit A) → (A → Option (Exit B)) → Option (Exit B)
and_then none f = none
and_then (some (exit status)) f = some (exit status)
and_then (some (ok a)) f = f a

pub and_then-ext {ℓ κ} :
    {A : Type ℓ} {B : Type κ} (m : Option (Exit A)) (f g : A → Option (Exit B))
    → ((a : A) → f a ≡ g a)
    → and_then m f ≡ and_then m g
and_then-ext none f g h = refl
and_then-ext (some (exit status)) f g h = refl
and_then-ext (some (ok a)) f g h = h a

-- A computation that comes back, in two parts that come back.
pub bind-ok {ℓ κ} :
    {A : Type ℓ} {B : Type κ} (m : Exit A) (f : A → Exit B) (b : B)
    → m >>= f ≡ ok b
    → (a : A) × (m ≡ ok a) × (f a ≡ ok b)
bind-ok (ok a) f b e = (a, refl, e)
bind-ok (exit status) f b e = absurd cc

pub and_then-ok {ℓ κ} :
    {A : Type ℓ} {B : Type κ} (m : Option (Exit A)) (f : A → Option (Exit B)) (b : B)
    → and_then m f ≡ some (ok b)
    → (a : A) × (m ≡ some (ok a)) × (f a ≡ some (ok b))
and_then-ok none f b e = absurd cc
and_then-ok (some (exit status)) f b e = absurd cc
and_then-ok (some (ok a)) f b e = (a, refl, e)

pub ok-inj {ℓ} : {A : Type ℓ} {a b : A} → ok a ≡ ok b → a ≡ b
ok-inj e = cc

pub some-inj {ℓ} : {A : Type ℓ} {a b : A} → some a ≡ some b → a ≡ b
some-inj e = cc

-- A computation in two parts that ends the process in one of them.
pub bind-exit {ℓ κ} :
    {A : Type ℓ} {B : Type κ} (m : Exit A) (f : A → Exit B) (status : Prim.Native.Nat.ℕ)
    → m >>= f ≡ exit status
    → (m ≡ exit status) ⊎ ((a : A) × (m ≡ ok a) × (f a ≡ exit status))
bind-exit (ok a) f status e = inr (a, refl, e)
bind-exit (exit other) f status e = inl cc

pub and_then-exit {ℓ κ} :
    {A : Type ℓ} {B : Type κ} (m : Option (Exit A)) (f : A → Option (Exit B))
    (status : Prim.Native.Nat.ℕ)
    → and_then m f ≡ some (exit status)
    → (m ≡ some (exit status)) ⊎ ((a : A) × (m ≡ some (ok a)) × (f a ≡ some (exit status)))
and_then-exit none f status e = absurd cc
and_then-exit (some (exit other)) f status e = inl cc
and_then-exit (some (ok a)) f status e = inr (a, refl, e)

-- A computation in two parts that runs out of fuel in one of them.
pub and_then-none {ℓ κ} :
    {A : Type ℓ} {B : Type κ} (m : Option (Exit A)) (f : A → Option (Exit B))
    → and_then m f ≡ none
    → (m ≡ none) ⊎ ((a : A) × (m ≡ some (ok a)) × (f a ≡ none))
and_then-none none f e = inl refl
and_then-none (some (exit status)) f e = absurd cc
and_then-none (some (ok a)) f e = inr (a, refl, e)
