-- ===== src/Json/Ensures.antt =====
-- A postcondition of a configuration step: what holds of its value where it yields one.
use fledge_south_tase.Common.{String, ◌≡◌, subst}
use fledge_south_tase.Json.{Result, ok, thrown, fault, ◌>>=◌, bind-ok}

pub record Ensures {ℓ κ} {A : Type ℓ} (P : A → Type κ) (r : Result A) : Type (ℓ ⊔ κ) where
  pub holds : (a : A) → r ≡ ok a → P a

ok_injective {ℓ} : {A : Type ℓ} {a b : A} → ok a ≡ ok b → a ≡ b
ok_injective e = cc

module _ {ℓ κ} {A : Type ℓ} {P : A → Type κ} where
  pub Ensures-ok : {a : A} → P a → Ensures P (ok a)
  Ensures-ok p = record { holds = λ b e. subst P (ok_injective e) p }

  pub Ensures-thrown : {e : String} → Ensures P (thrown e)
  Ensures-thrown = record { holds = λ a e. cc }

  pub Ensures-fault : Ensures P fault
  Ensures-fault = record { holds = λ a e. cc }

-- The rule for a bind.
pub Ensures-bind {ℓ κ λ' μ} :
    {A : Type ℓ} {B : Type λ'} (P : A → Type κ) {Q : B → Type μ} {m : Result A} {f : A → Result B}
    → Ensures P m
    → ((a : A) → P a → Ensures Q (f a))
    → Ensures Q (m >>= f)
Ensures-bind P {m = m} {f = f} p q = record {
  holds = λ b e. let (a, e', e'') = bind-ok m f e in (q a (p.holds a e')).holds b e'';
}

-- Nothing is claimed of the value.
pub Ensures-trivial {ℓ} : {A : Type ℓ} {r : Result A} → Ensures (λ (a : A). Unit {0}) r
Ensures-trivial = record { holds = λ a e. tt }

-- A bind of which nothing is claimed but what follows.
pub Ensures-any {ℓ κ μ} :
    {A : Type ℓ} {B : Type κ} {Q : B → Type μ} (m : Result A) {f : A → Result B}
    → ((a : A) → Ensures Q (f a))
    → Ensures Q (m >>= f)
Ensures-any {A} m q = Ensures-bind (λ (a : A). Unit {0}) Ensures-trivial (λ a _. q a)
