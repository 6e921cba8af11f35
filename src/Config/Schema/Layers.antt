-- ===== src/Config/Schema/Layers.antt =====
-- A dataset and a transfer set of the right shape fail no accessor (src/tase2_client_config.cpp).
use fledge_south_tase.Common.{String, false, Option, none, some}
use fledge_south_tase.Common.Int.{pos}
use fledge_south_tase.Json.{Json, str, obj, Result, find_member, get_string, get_int, get_bool}
use fledge_south_tase.Json.Shape.{IsText, IsInt, IsFlag, IsAny, IsArrayOf, Fits}
use fledge_south_tase.Json.NoFault.{
  NoFault, returns, NoFault-bind, get_string-NoFault, get_int-NoFault, get_bool-NoFault,
  get_array-NoFault,
}
use fledge_south_tase.Config.{Config, Externals}
use fledge_south_tase.Config.Datasets.{domain_of, import_named, import_dataset}
use fledge_south_tase.Config.TransferSets.{
  or_else, conditions_of, read_dsts, import_named_dsts, import_dsts,
}
use fledge_south_tase.Config.Schema.{IsDatasetEntry, IsDstsEntry}

domain_of-NoFault : (o : Option Json) → Fits IsText o → NoFault (domain_of o)
domain_of-NoFault none h = returns
domain_of-NoFault (some v) h = get_string-NoFault v h

import_named-NoFault :
    (v : Json) (o : Option Json) (c : Config) → IsDatasetEntry v → NoFault (import_named v o c)
import_named-NoFault v (some (str ref)) c h =
    NoFault-bind (domain_of-NoFault (find_member "domain" v) h) λ d. returns
import_named-NoFault v _ c h = returns

pub import_dataset-NoFault :
    (v : Json) (c : Config) → IsDatasetEntry v → NoFault (import_dataset v c)
unfolding import_dataset
import_dataset-NoFault v c h = import_named-NoFault v (find_member "dataset_ref" v) c h

or_else-NoFault {ℓ} :
    {A : Type ℓ} (P : Json → Type 0) (get : Json → Result A) (old : A) (o : Option Json)
    → ((v : Json) → P v → NoFault (get v))
    → Fits P o
    → NoFault (or_else get old o)
or_else-NoFault P get old none r h = returns
or_else-NoFault P get old (some v) r h = r v h

text_or : (o : Option Json) → Fits IsText o → NoFault (or_else get_string "" o)
text_or o = or_else-NoFault IsText get_string "" o get_string-NoFault

int_or : (o : Option Json) → Fits IsInt o → NoFault (or_else get_int (pos 0) o)
int_or o = or_else-NoFault IsInt get_int (pos 0) o get_int-NoFault

flag_or : (o : Option Json) → Fits IsFlag o → NoFault (or_else get_bool false o)
flag_or o = or_else-NoFault IsFlag get_bool false o get_bool-NoFault

conditions_of-NoFault :
    (x : Externals) (o : Option Json) → Fits (IsArrayOf IsAny) o → NoFault (conditions_of x o)
conditions_of-NoFault x none h = returns
conditions_of-NoFault x (some v) h = NoFault-bind (get_array-NoFault IsAny v h) λ vs. returns

read_dsts-NoFault :
    (x : Externals) (v : Json) (domain name : String)
    → IsDstsEntry v
    → NoFault (read_dsts x v domain name)
unfolding read_dsts
read_dsts-NoFault x v domain name
      (_, _, ref, conditions, interval, tle, check, critical, rbe, buffer, start, all) =
    NoFault-bind (text_or _ ref) λ _. NoFault-bind (conditions_of-NoFault x _ conditions) λ _.
      NoFault-bind (int_or _ interval) λ _. NoFault-bind (int_or _ tle) λ _.
        NoFault-bind (int_or _ check) λ _. NoFault-bind (flag_or _ critical) λ _.
          NoFault-bind (flag_or _ rbe) λ _.
            NoFault-bind (int_or _ buffer)
              λ _. NoFault-bind (int_or _ start) λ _. NoFault-bind (flag_or _ all) λ _. returns

import_named_dsts-NoFault :
    (x : Externals) (v : Json) (domain : String) (o : Option Json) (c : Config)
    → IsDstsEntry v
    → Fits IsText o
    → NoFault (import_named_dsts x v domain o c)
import_named_dsts-NoFault x v domain none c h name = returns
import_named_dsts-NoFault x v domain (some n) c h name =
    NoFault-bind (get_string-NoFault n name)
      λ s. NoFault-bind (read_dsts-NoFault x v domain s h) λ d. returns

pub import_dsts-NoFault :
    (x : Externals) (v : Json) (c : Config) → IsDstsEntry v → NoFault (import_dsts x v c)
unfolding import_dsts
import_dsts-NoFault x (obj ms) c h =
    NoFault-bind (text_or (find_member "domain" (obj ms)) h.0)
      λ domain. import_named_dsts-NoFault x (obj ms) domain (find_member "name" (obj ms)) c h h.1
import_dsts-NoFault x _ c h = returns
