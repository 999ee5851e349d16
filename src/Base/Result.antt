-- ===== src/Base/Result.antt =====
-- Code that raises: a value or the exception, and the `do` notation for it.
use mathlib.Core.Path.{◌≡◌, refl, subst}
use mathlib.Core.Bool.{Bool, true, false}
use dfir_evidence_workbench.Base.Tests.{if◌then◌else◌}

pub data Result (E A : Type 0) : Type 0 where
  ok : A → Result E A
  err : E → Result E A

-- `if test: raise e`
abbrev pub raise_if : {E : Type 0} → Bool → E → Result E (Unit {0})
raise_if true raised = err raised
raise_if false raised = ok tt

infixl 5 ◌>>=◌ ◌>>◌
abbrev pub ◌>>=◌ : {E A B : Type 0} → Result E A → (A → Result E B) → Result E B
ok value >>= next = next value
err raised >>= next = err raised

abbrev pub ◌>>◌ : {E B : Type 0} → Result E (Unit {0}) → Result E B → Result E B
first >> next = first >>= λ done. next

-- Both parts of a chain that did not raise.
pub >>=-eq-ok :
    {E A B : Type 0} (part : Result E A) (next : A → Result E B) {last : B}
    → (part >>= next) ≡ ok last
    → (value : A) × (part ≡ ok value) × (next value ≡ ok last)
>>=-eq-ok (ok value) next h = (value, refl, h)
>>=-eq-ok (err raised) next h = cc

pub raise_if-ok :
    {E A : Type 0} (test : Bool) (raised : E) (next : Result E A) {last : A}
    → (raise_if test raised >>= λ done. next) ≡ ok last
    → (test ≡ false) × (next ≡ ok last)
raise_if-ok true raised next h = cc
raise_if-ok false raised next h = (refl, h)

-- What is said of the value of code that does not raise.
abbrev pub OnOk : {E A : Type 0} → (A → Type 0) → Result E A → Type 0
OnOk P (ok value) = P value
OnOk P (err raised) = Unit {0}

pub >>=-OnOk :
    {E A B : Type 0} (P : B → Type 0) (part : Result E A) (next : A → Result E B)
    → ((value : A) → part ≡ ok value → OnOk P (next value))
    → OnOk P (part >>= next)
>>=-OnOk P (ok value) next h = h value refl
>>=-OnOk P (err raised) next h = tt

pub OnOk-map :
    {E A : Type 0} (P Q : A → Type 0)
    → ((value : A) → P value → Q value)
    → (m : Result E A) → OnOk P m
    → OnOk Q m
OnOk-map P Q f (ok value) h = f value h
OnOk-map P Q f (err raised) h = tt

pub OnOk-ok :
    {E A : Type 0} (P : A → Type 0) (m : Result E A) {value : A} → OnOk P m → m ≡ ok value → P value
OnOk-ok P (ok v) {value} h e = let same : v ≡ value = cc in subst P same h
OnOk-ok P (err raised) h e = cc

pub raise_if-passed :
    {E : Type 0} (test : Bool) (raised : E) {done : Unit {0}}
    → raise_if test raised ≡ ok done
    → test ≡ false
raise_if-passed true raised h = cc
raise_if-passed false raised h = refl

pub OnOk-if :
    {E A : Type 0} (P : A → Type 0) (test : Bool) (x y : Result E A)
    → (test ≡ true → OnOk P x)
    → (test ≡ false → OnOk P y)
    → OnOk P (if test then x else y)
OnOk-if P true x y h k = h refl
OnOk-if P false x y h k = k refl

pub raise_if-OnOk :
    {E : Type 0} {P : Type 0} (test : Bool) (raised : E)
    → (test ≡ false → P)
    → OnOk (λ (done : Unit {0}). P) (raise_if test raised)
raise_if-OnOk true raised h = tt
raise_if-OnOk false raised h = h refl
