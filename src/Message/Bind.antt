-- ===== src/Message/Bind.antt =====
-- Rules for a chain of parser steps.
use proxy_cache_server.Prelude.{◌≡◌, ◌≢◌, refl}
use proxy_cache_server.Message.{Parse, ok, short, malformed, thrown, undefined, out_of_fuel, ◌>>=◌}

-- A step that does not run out of fuel, and whose value satisfies `P` where it has one.
abbrev pub Ensures {ℓ} : {A : Type ℓ} → (A → Type 0) → Parse A → Type 0
Ensures P (ok a) = P a
Ensures P (short p) = Unit
Ensures P (malformed p) = Unit
Ensures P (thrown p) = Unit
Ensures P undefined = Unit
Ensures P out_of_fuel = ⊥

pub >>=-Ensures {ℓ κ} :
    {A : Type ℓ} {B : Type κ} (P : A → Type 0) (Q : B → Type 0) (m : Parse A) (f : A → Parse B)
    → Ensures P m
    → ((a : A) → P a → Ensures Q (f a))
    → Ensures Q (m >>= f)
>>=-Ensures P Q (ok a) f h k = k a h
>>=-Ensures P Q (short p) f h k = tt
>>=-Ensures P Q (malformed p) f h k = tt
>>=-Ensures P Q (thrown p) f h k = tt
>>=-Ensures P Q undefined f h k = tt
>>=-Ensures P Q out_of_fuel f h k = elim h [ ]

pub Ensures-ne-out_of_fuel {ℓ} :
    {A : Type ℓ} (P : A → Type 0) (m : Parse A) → Ensures P m → m ≢ out_of_fuel
Ensures-ne-out_of_fuel P (ok a) h = λ e. cc
Ensures-ne-out_of_fuel P (short p) h = λ e. cc
Ensures-ne-out_of_fuel P (malformed p) h = λ e. cc
Ensures-ne-out_of_fuel P (thrown p) h = λ e. cc
Ensures-ne-out_of_fuel P undefined h = λ e. cc
Ensures-ne-out_of_fuel P out_of_fuel h = absurd h

-- The value of a step satisfies `P`, where it has one.
abbrev pub Yields {ℓ} : {A : Type ℓ} → (A → Type 0) → Parse A → Type 0
Yields P (ok a) = P a
Yields P _ = Unit

pub >>=-Yields {ℓ κ} :
    {A : Type ℓ} {B : Type κ} (P : A → Type 0) (Q : B → Type 0) (m : Parse A) (f : A → Parse B)
    → Yields P m
    → ((a : A) → P a → Yields Q (f a))
    → Yields Q (m >>= f)
>>=-Yields P Q (ok a) f h k = k a h
>>=-Yields P Q (short p) f h k = tt
>>=-Yields P Q (malformed p) f h k = tt
>>=-Yields P Q (thrown p) f h k = tt
>>=-Yields P Q undefined f h k = tt
>>=-Yields P Q out_of_fuel f h k = tt

pub Yields-map {ℓ} :
    {A : Type ℓ} (P Q : A → Type 0) (m : Parse A) → ((a : A) → P a → Q a) → Yields P m → Yields Q m
Yields-map P Q (ok a) k h = k a h
Yields-map P Q _ k h = tt

pub >>=-assoc {ℓ κ ι} :
    {A : Type ℓ} {B : Type κ} {C : Type ι} (m : Parse A) (f : A → Parse B) (g : B → Parse C)
    → ((m >>= f) >>= g) ≡ (m >>= λ a. f a >>= g)
>>=-assoc (ok a) f g = refl
>>=-assoc (short p) f g = refl
>>=-assoc (malformed p) f g = refl
>>=-assoc (thrown p) f g = refl
>>=-assoc undefined f g = refl
>>=-assoc out_of_fuel f g = refl

pub Ensures-both {ℓ} :
    {A : Type ℓ} (P Q : A → Type 0) (m : Parse A)
    → Ensures P m
    → Yields Q m
    → Ensures (λ a. P a × Q a) m
Ensures-both P Q (ok a) p q = (p, q)
Ensures-both P Q (short r) p q = tt
Ensures-both P Q (malformed r) p q = tt
Ensures-both P Q (thrown r) p q = tt
Ensures-both P Q undefined p q = tt
Ensures-both P Q out_of_fuel p q = absurd p
