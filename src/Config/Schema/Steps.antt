-- ===== src/Config/Schema/Steps.antt =====
-- Pieces of an import that never fail an accessor's precondition (src/tase2_client_config.cpp).
use fledge_south_tase.Common.{String, List, [], ◌∷◌, Option, none, some, All}
use fledge_south_tase.Common.Int.{ℤ}
use fledge_south_tase.Json.{
  Json, int, arr, obj, Result, ok, thrown, fault, elements, find_member, get_member, get_int,
  get_array,
}
use fledge_south_tase.Json.Shape.{IsObject, IsInt, IsArrayOf, Fits, EachOf}
use fledge_south_tase.Json.NoFault.{NoFault, returns, throws}
use fledge_south_tase.Config.{Config}
use fledge_south_tase.Config.Steps.{
  Flow, go, returned, aborted, threw, Step, resume, ◌⨾◌, reading, store, return, proceed, for_each,
}
use fledge_south_tase.Config.Exchange.{array_member, object_member}
use fledge_south_tase.Config.Protocol.{needed, optional}
use fledge_south_tase.Config.Tls.{if_array}

-- The import goes on, returns or throws.
abbrev pub EndsWell : Flow → Type 0
EndsWell aborted = ⊥
EndsWell _ = Unit {0}

pub record Safe (m : Step) : Type 0 where
  pub safe : (c : Config) → EndsWell (m c).1

pub Safe-return : Safe return
Safe-return = record { safe = λ c. tt }

pub Safe-store : (f : Config → Config) → Safe (store f)
Safe-store f = record { safe = λ c. tt }

pub Safe-seq : {m n : Step} → Safe m → Safe n → Safe (m ⨾ n)
unfolding ◌⨾◌
Safe-seq {m} {n} p q = record { safe = λ c. after (m c).0 (m c).1 (p.safe c) }
  where
    after : (c : Config) (f : Flow) → EndsWell f → EndsWell (resume f c n).1
    after c go h = q.safe c
    after c returned h = tt
    after c aborted h = h
    after c (threw e) h = tt

-- A member of an object.
pub Safe-member :
    (key : String) (v : Json) (k : Option Json → Step)
    → IsObject v
    → Safe (k (find_member key v))
    → Safe (reading (get_member key v) k)
unfolding reading
Safe-member key (obj ms) k object h = record { safe = λ c. h.safe c }
Safe-member key _ k object h = absurd object

pub Safe-int :
    (v : Json) (k : ℤ → Step) → IsInt v → ((z : ℤ) → Safe (k z)) → Safe (reading (get_int v) k)
unfolding reading
Safe-int (int z) k h safe = record { safe = λ c. (safe z).safe c }
Safe-int _ k h safe = absurd h

pub Safe-array :
    (P : Json → Type 0) (v : Json) (k : List Json → Step)
    → IsArrayOf P v
    → ((vs : List Json) → All P vs → Safe (k vs))
    → Safe (reading (get_array v) k)
unfolding reading
Safe-array P (arr xs) k h safe = record { safe = λ c. (safe (elements xs) h).safe c }
Safe-array P _ k h safe = absurd h

-- A loop over elements of a shape that its body takes.
pub Safe-for_each :
    (P : Json → Type 0) (body : Json → Config → Result Config) (vs : List Json)
    → ((v : Json) (c : Config) → P v → NoFault (body v c))
    → All P vs
    → Safe (for_each body vs)
unfolding for_each
Safe-for_each P body [] takes h = record { safe = λ c. tt }
Safe-for_each P body (v ∷ vs) takes (p, h) =
    let rest = Safe-for_each P body vs takes h in
    record { safe = λ c. after rest (body v c) c (takes v c p) }
  where
    after :
        Safe (for_each body vs)
        → (r : Result Config) (c : Config) → NoFault r
        → EndsWell (proceed r c (for_each body vs)).1
    after rest (ok d) c returns = rest.safe d
    after rest (thrown e) c throws = tt
    after rest fault c h = elim h [ ]

-- Members that the import tests for, or that may be missing.
pub Safe-needed :
    (P : Json → Type 0) (o : Option Json) (k : Json → Step)
    → Fits P o
    → ((v : Json) → P v → Safe (k v))
    → Safe (needed o k)
Safe-needed P none k h safe = Safe-return
Safe-needed P (some v) k h safe = safe v h

pub Safe-optional :
    (P : Json → Type 0) (o : Option Json) (k : Json → Step)
    → Fits P o
    → ((v : Json) → P v → Safe (k v))
    → Safe (optional o k)
Safe-optional P none k h safe = Safe-store (λ c. c)
Safe-optional P (some v) k h safe = safe v h

pub Safe-object :
    (P : Json → Type 0) (o : Option Json) (k : Json → Step)
    → Fits P o
    → ((v : Json) → P v → Safe (k v))
    → Safe (object_member o k)
Safe-object P (some (obj ms)) k h safe = safe (obj ms) h
Safe-object P _ k h safe = Safe-return

pub Safe-array_member :
    (P : Json → Type 0) (o : Option Json) (k : List Json → Step)
    → EachOf P o
    → ((vs : List Json) → All P vs → Safe (k vs))
    → Safe (array_member o k)
Safe-array_member P (some (arr xs)) k h safe = safe (elements xs) h
Safe-array_member P _ k h safe = Safe-return

pub Safe-if_array :
    (P : Json → Type 0) (o : Option Json) (k : List Json → Step)
    → EachOf P o
    → ((vs : List Json) → All P vs → Safe (k vs))
    → Safe (if_array o k)
Safe-if_array P (some (arr xs)) k h safe = safe (elements xs) h
Safe-if_array P _ k h safe = Safe-store (λ c. c)
