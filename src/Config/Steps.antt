-- ===== src/Config/Steps.antt =====
-- How a piece of the import goes on (src/tase2_client_config.cpp): it falls through, returns from
-- the whole function, throws, or fails an accessor's precondition. What was stored before stays.
use fledge_south_tase.Common.{String, List, [], ◌∷◌, refl}
use fledge_south_tase.Json.{Json, Result, ok, thrown, fault}
use fledge_south_tase.Json.Ensures.{Ensures}
use fledge_south_tase.Config.{Config}

pub data Flow : Type 0 where
  go returned aborted : Flow
  threw : String → Flow

abbrev pub Step : Type 0
Step = Config → Config × Flow

abbrev pub resume : Flow → Config → Step → Config × Flow
resume go c next = next c
resume returned c next = (c, returned)
resume aborted c next = (c, aborted)
resume (threw e) c next = (c, threw e)

-- One piece after the other.
infixr 6 ◌⨾◌
unfoldable pub ◌⨾◌ : Step → Step → Step
◌⨾◌ m n c = let (c', flow) = m c in resume flow c' n

-- A value that is read first.
unfoldable pub reading {ℓ} : {A : Type ℓ} → Result A → (A → Step) → Step
reading (ok a) k c = k a c
reading (thrown e) k c = (c, threw e)
reading fault k c = (c, aborted)

abbrev pub store : (Config → Config) → Step
store f c = (f c, go)

abbrev pub return : Step
return c = (c, returned)

abbrev pub proceed : Result Config → Config → Step → Config × Flow
proceed (ok c') c next = next c'
proceed (thrown e) c next = (c, threw e)
proceed fault c next = (c, aborted)

-- A loop over an array whose body changes the configuration or fails.
unfoldable pub for_each : (Json → Config → Result Config) → List Json → Step
for_each body [] c = (c, go)
for_each body (v ∷ vs) c = proceed (body v c) c (for_each body vs)

-- A predicate of the configuration that a piece keeps, however it goes on.
pub record Keeps {ℓ} (P : Config → Type ℓ) (m : Step) : Type ℓ where
  pub keep : (c : Config) → P c → P (m c).0

module _ {ℓ} {P : Config → Type ℓ} where
  pub Keeps-seq : {m n : Step} → Keeps P m → Keeps P n → Keeps P (m ⨾ n)
  unfolding ◌⨾◌
  Keeps-seq {m} {n} p q = record { keep = λ c h. after (m c).0 (m c).1 (p.keep c h) }
    where
      after : (c : Config) (f : Flow) → P c → P (resume f c n).0
      after c go h = q.keep c h
      after c returned h = h
      after c aborted h = h
      after c (threw e) h = h

  pub Keeps-reading {κ} :
      {A : Type κ} (r : Result A) {k : A → Step} → ((a : A) → Keeps P (k a)) → Keeps P (reading r k)
  unfolding reading
  Keeps-reading (ok a) q = q a
  Keeps-reading (thrown e) q = record { keep = λ c h. h }
  Keeps-reading fault q = record { keep = λ c h. h }

  pub Keeps-for_each :
      (body : Json → Config → Result Config) (vs : List Json)
      → ((v : Json) (c : Config) → P c → Ensures P (body v c))
      → Keeps P (for_each body vs)
  unfolding for_each
  Keeps-for_each body [] q = record { keep = λ c h. h }
  Keeps-for_each body (v ∷ vs) q = record {
    keep = λ c h. after (body v c) c h (q v c h) (Keeps-for_each body vs q);
  }
    where
      after :
          (r : Result Config) (c : Config)
          → P c
          → Ensures P r
          → Keeps P (for_each body vs)
          → P (proceed r c (for_each body vs)).0
      after (ok c') c h e k = k.keep c' (e.holds c' refl)
      after (thrown x) c h e k = h
      after fault c h e k = h
