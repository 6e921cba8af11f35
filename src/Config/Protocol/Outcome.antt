-- ===== src/Config/Protocol/Outcome.antt =====
-- What importProtocolConfig leaves, however it ends (src/tase2_client_config.cpp).
use fledge_south_tase.Common.{
  String, Bool, true, false, List, [], ◌∷◌, Option, none, some, All, if◌then◌else◌,
}
use fledge_south_tase.Common.Maps.{All-erase, lookup, erase}
use fledge_south_tase.Common.Texts.{join}
use fledge_south_tase.Json.{Json, str, find_member}
use fledge_south_tase.Json.Ensures.{Ensures, Ensures-ok, Ensures-any}
use fledge_south_tase.Config.{Config, RedGroup, DataExchangeDefinition, Externals}
use fledge_south_tase.Config.Connections.{import_connection, add_connection}
use fledge_south_tase.Config.Connections.Accepted.{
  HasValidConnections, import_connection-HasValidConnections,
}
use fledge_south_tase.Config.Datasets.{import_dataset, import_named, add_dataset}
use fledge_south_tase.Config.Datasets.Polled.{import_entries-with_polled, unlisted, is_some}
use fledge_south_tase.Config.Exchange.Invariant.{IsConsistent, IsPolled}
use fledge_south_tase.Config.Protocol.Keeping.{import_protocol_config-Keeps}
use fledge_south_tase.Config.Protocol.{import_protocol_config}

pub import_dataset-Ensures {ℓ} :
    (P : Config → Type ℓ)
    → ((v : Json) (domain ref : String) (c : Config) → P c → P (add_dataset v domain ref c))
    → (v : Json) (c : Config) → P c
    → Ensures P (import_dataset v c)
unfolding import_dataset
import_dataset-Ensures P added v c h = named (find_member "dataset_ref" v)
  where
    named : (o : Option Json) → Ensures P (import_named v o c)
    named (some (str ref)) = Ensures-any _ λ domain. Ensures-ok (added v domain ref c h)
    named o = Ensures-ok h

-- The whole import keeps every connection valid, whatever the text is and however it ends: its
-- address passed inet_pton, its port is between 1 and 65635, its OSI titles have digits and dots
-- only and its OSI selectors fit in their arrays.
pub import_protocol_config-HasValidConnections :
    (x : Externals) (text : String) (c : Config)
    → HasValidConnections x c
    → HasValidConnections x (import_protocol_config x text c).0
unfolding add_dataset
import_protocol_config-HasValidConnections x text c h =
    (import_protocol_config-Keeps x (HasValidConnections x)
        (import_connection-HasValidConnections x)
        (import_dataset-Ensures (HasValidConnections x) dataset) (λ d c h. h) (λ z c h. h)
        (λ z c h. h) (λ b c h. h) text).keep
      c h
  where
    dataset :
        (v : Json) (domain ref : String) (c : Config)
        → HasValidConnections x c
        → HasValidConnections x (add_dataset v domain ref c)
    dataset v domain ref c h = rw import_entries-with_polled h

All-unlisted :
    (P : String × DataExchangeDefinition → Type 0) (domain : String) (names : List String)
    (refs polled : List (String × DataExchangeDefinition))
    → All P polled
    → All P (unlisted domain names refs polled)
unfolding unlisted
All-unlisted P domain [] refs polled h = h
All-unlisted P domain (name ∷ names) refs polled h =
    All-unlisted P domain names refs _ (erased (is_some (lookup (join domain ":" name) refs)))
  where
    erased : (b : Bool) → All P (if b then erase (join domain ":" name) polled else polled)
    erased true = All-erase P (join domain ":" name) polled h
    erased false = h

-- The import of any protocol configuration keeps the exchange definitions consistent, however it
-- ends: the datasets only take points out of those that are polled.
pub import_protocol_config-IsConsistent :
    (x : Externals) (text : String) (c : Config)
    → IsConsistent c
    → IsConsistent (import_protocol_config x text c).0
unfolding add_dataset import_connection
import_protocol_config-IsConsistent x text c h =
    (import_protocol_config-Keeps x IsConsistent connection
        (import_dataset-Ensures IsConsistent dataset)
        (λ d c h. record { refs = h.refs; labels = h.labels; polled = h.polled })
        (λ z c h. record { refs = h.refs; labels = h.labels; polled = h.polled })
        (λ z c h. record { refs = h.refs; labels = h.labels; polled = h.polled })
        (λ b c h. record { refs = h.refs; labels = h.labels; polled = h.polled }) text).keep
      c h
  where
    connection :
        (v : Json) (c : Config) → IsConsistent c → Ensures IsConsistent (import_connection x v c)
    connection v c h = Ensures-any _ λ g. Ensures-ok (added g)
      where
        added : (g : Option RedGroup) → IsConsistent (add_connection c g)
        added none = h
        added (some g) = record { refs = h.refs; labels = h.labels; polled = h.polled }

    dataset :
        (v : Json) (domain ref : String) (c : Config)
        → IsConsistent c
        → IsConsistent (add_dataset v domain ref c)
    dataset v domain ref c h = rw import_entries-with_polled (record {
      refs = h.refs;
      labels = h.labels;
      polled =
          All-unlisted (λ e. IsPolled c.exchange_definitions_ref e.0 e.1) domain _
            c.exchange_definitions_ref _ h.polled;
    })
