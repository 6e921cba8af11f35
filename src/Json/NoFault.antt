-- ===== src/Json/NoFault.antt =====
-- Pieces that meet the preconditions of the accessors: they yield a value or throw.
use fledge_south_tase.Common.{String, Option, none, some}
use fledge_south_tase.Json.{
  Json, bool, int, str, arr, obj, Result, ok, thrown, ◌>>=◌, find_member, get_member, at_member,
  get_string, get_int, get_bool, get_array, present,
}
use fledge_south_tase.Json.Shape.{IsObject, IsText, IsInt, IsFlag, IsArrayOf, Has}

pub data NoFault {ℓ} {A : Type ℓ} : Result A → Type ℓ where
  returns : {a : A} → NoFault (ok a)
  throws : {e : String} → NoFault (thrown e)

pub NoFault-bind {ℓ κ} :
    {A : Type ℓ} {B : Type κ} {r : Result A} {f : A → Result B}
    → NoFault r
    → ((a : A) → NoFault (f a))
    → NoFault (r >>= f)
unfolding ◌>>=◌
NoFault-bind (returns {a}) h = h a
NoFault-bind throws h = throws

pub get_string-NoFault : (v : Json) → IsText v → NoFault (get_string v)
get_string-NoFault (str s) h = returns
get_string-NoFault _ h = absurd h

pub get_int-NoFault : (v : Json) → IsInt v → NoFault (get_int v)
get_int-NoFault (int z) h = returns
get_int-NoFault _ h = absurd h

pub get_bool-NoFault : (v : Json) → IsFlag v → NoFault (get_bool v)
get_bool-NoFault (bool b) h = returns
get_bool-NoFault _ h = absurd h

pub get_array-NoFault : (P : Json → Type 0) (v : Json) → IsArrayOf P v → NoFault (get_array v)
get_array-NoFault P (arr xs) h = returns
get_array-NoFault P _ h = absurd h

-- A member of an object, which the rest reads.
pub get_member-NoFault {ℓ} :
    {B : Type ℓ} (key : String) (v : Json) (f : Option Json → Result B)
    → IsObject v
    → NoFault (f (find_member key v))
    → NoFault (get_member key v >>= f)
unfolding ◌>>=◌
get_member-NoFault key (obj ms) f h k = k
get_member-NoFault key _ f h k = absurd h

pub at_member-NoFault {ℓ} :
    {B : Type ℓ} (P : Json → Type 0) (key : String) (v : Json) (f : Json → Result B)
    → IsObject v
    → Has P (find_member key v)
    → ((m : Json) → P m → NoFault (f m))
    → NoFault (at_member key v >>= f)
unfolding ◌>>=◌
at_member-NoFault P key (obj ms) f object h k = go (find_member key (obj ms)) h
  where
    go : (o : Option Json) → Has P o → NoFault (present o >>= f)
    go none h = absurd h
    go (some m) h = k m h
at_member-NoFault P key _ f object h k = absurd object
