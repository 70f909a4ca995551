-- ===== src/Prelude/Result.antt =====
-- What a run of the C++ code comes to. `fault` is a read outside the packet's buffer, which C++
-- leaves undefined; `stuck` is no result of the code: a loop was given too little fuel.
use mprtplib.Prelude.{Option, none, some, ◌≡◌, refl, ◌≢◌, ◌⊎◌, inl, inr}

pub data Result {ℓ} (A : Type ℓ) : Type ℓ where
  stuck : Result A
  fault : Result A
  ok : A → Result A

infixl 5 ◌>>=◌
abbrev pub ◌>>=◌ {ℓ κ} : {A : Type ℓ} {B : Type κ} → Result A → (A → Result B) → Result B
stuck >>= f = stuck
fault >>= f = fault
ok a >>= f = f a

abbrev pub or_fault {ℓ} : {A : Type ℓ} → Option A → Result A
or_fault none = fault
or_fault (some a) = ok a

pub Result-cases {ℓ} :
    {A : Type ℓ} (r : Result A) → ((a : A) × (r ≡ ok a)) ⊎ ((r ≡ fault) ⊎ (r ≡ stuck))
Result-cases (ok a) = inl (a, refl)
Result-cases fault = inr (inl refl)
Result-cases stuck = inr (inr refl)

pub >>=-ok {ℓ} : {A : Type ℓ} (m : Result A) → (m >>= λ a. ok a) ≡ m
>>=-ok (ok a) = refl
>>=-ok fault = refl
>>=-ok stuck = refl

-- A step that ends, followed by steps that end.
pub >>=-ne-stuck {ℓ κ} :
    {A : Type ℓ} {B : Type κ} (m : Result A) (f : A → Result B)
    → m ≢ stuck
    → ((a : A) → m ≡ ok a → f a ≢ stuck)
    → (m >>= f) ≢ stuck
>>=-ne-stuck (ok a) f hm hf = hf a refl
>>=-ne-stuck fault f hm hf = λ e. cc
>>=-ne-stuck stuck f hm hf = absurd (hm refl)

pub ok-ne-stuck {ℓ} : {A : Type ℓ} {a : A} → ok a ≢ stuck
ok-ne-stuck e = cc

-- Where a step ends and the whole does not, what follows does not.
pub >>=-eq-stuck {ℓ κ} :
    {A : Type ℓ} {B : Type κ} (m : Result A) (f : A → Result B)
    → m ≢ stuck
    → (m >>= f) ≡ stuck
    → (a : A) × (m ≡ ok a) × (f a ≡ stuck)
>>=-eq-stuck (ok a) f hm e = (a, refl, e)
>>=-eq-stuck fault f hm e = cc
>>=-eq-stuck stuck f hm e = absurd (hm refl)

-- What holds of the value, if there is one.
abbrev pub Holds {ℓ} : {A : Type ℓ} → (A → Type 0) → Result A → Type 0
Holds P stuck = Unit {0}
Holds P fault = Unit {0}
Holds P (ok a) = P a

pub Holds->>= {ℓ κ} :
    {A : Type ℓ} {B : Type κ} (Q : A → Type 0) (P : B → Type 0) (m : Result A) (f : A → Result B)
    → Holds Q m
    → ((a : A) → Q a → Holds P (f a))
    → Holds P (m >>= f)
Holds->>= Q P stuck f q h = tt
Holds->>= Q P fault f q h = tt
Holds->>= Q P (ok a) f q h = h a q

-- The same after a step of which nothing is known.
pub Holds-after {ℓ κ} :
    {A : Type ℓ} {B : Type κ} (P : B → Type 0) (m : Result A) (f : A → Result B)
    → ((a : A) → Holds P (f a))
    → Holds P (m >>= f)
Holds-after P stuck f h = tt
Holds-after P fault f h = tt
Holds-after P (ok a) f h = h a

pub Holds-or_fault : {A : Type 0} (o : Option A) → Holds (λ a. o ≡ some a) (or_fault o)
Holds-or_fault none = tt
Holds-or_fault (some a) = refl

pub Holds-weaken {ℓ} :
    {A : Type ℓ} (Q P : A → Type 0) (m : Result A) → Holds Q m → ((a : A) → Q a → P a) → Holds P m
Holds-weaken Q P stuck q h = tt
Holds-weaken Q P fault q h = tt
Holds-weaken Q P (ok a) q h = h a q

pub Holds-any {ℓ} : {A : Type ℓ} (m : Result A) → Holds (λ a. Unit {0}) m
Holds-any stuck = tt
Holds-any fault = tt
Holds-any (ok a) = tt

-- A step of which the result is remembered.
pub Holds-from :
    {A B : Type 0} (P : B → Type 0) (m : Result A) (f : A → Result B)
    → ((a : A) → m ≡ ok a → Holds P (f a))
    → Holds P (m >>= f)
Holds-from P stuck f h = tt
Holds-from P fault f h = tt
Holds-from P (ok a) f h = h a refl

pub Holds-both {ℓ} :
    {A : Type ℓ} (P Q : A → Type 0) (m : Result A)
    → Holds P m
    → Holds Q m
    → Holds (λ a. P a × Q a) m
Holds-both P Q stuck h k = tt
Holds-both P Q fault h k = tt
Holds-both P Q (ok a) h k = (h, k)

-- There is a value, and this holds of it.
abbrev pub Ends {ℓ} : {A : Type ℓ} → (A → Type 0) → Result A → Type 0
Ends P stuck = ⊥
Ends P fault = ⊥
Ends P (ok a) = P a

pub Ends->>= {ℓ κ} :
    {A : Type ℓ} {B : Type κ} (Q : A → Type 0) (P : B → Type 0) (m : Result A) (f : A → Result B)
    → Ends Q m
    → ((a : A) → Q a → Ends P (f a))
    → Ends P (m >>= f)
Ends->>= Q P stuck f q h = absurd q
Ends->>= Q P fault f q h = absurd q
Ends->>= Q P (ok a) f q h = h a q

pub Ends-value :
    {A : Type 0} (P : A → Type 0) (m : Result A) → Ends P m → (a : A) × (m ≡ ok a) × P a
Ends-value P stuck h = absurd h
Ends-value P fault h = absurd h
Ends-value P (ok a) h = (a, refl, h)

pub Ends-weaken {ℓ} :
    {A : Type ℓ} (Q P : A → Type 0) (m : Result A) → Ends Q m → ((a : A) → Q a → P a) → Ends P m
Ends-weaken Q P stuck q h = q
Ends-weaken Q P fault q h = q
Ends-weaken Q P (ok a) q h = h a q

pub Ends-Holds {ℓ} :
    {A : Type ℓ} (P Q : A → Type 0) (m : Result A) → Ends P m → Holds Q m → Ends (λ a. P a × Q a) m
Ends-Holds P Q stuck h k = h
Ends-Holds P Q fault h k = h
Ends-Holds P Q (ok a) h k = (h, k)
