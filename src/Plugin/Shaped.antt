-- ===== src/Plugin/Shaped.antt =====
-- setJsonConfig on documents of the right shape (src/tase2.cpp, src/tase2_client_config.cpp).
use fledge_south_tase.Common.{String}
use fledge_south_tase.Json.Shape.{Fits}
use fledge_south_tase.Config.{Config, Externals, new_config}
use fledge_south_tase.Config.Steps.{Flow, go, returned, aborted, threw}
use fledge_south_tase.Config.Exchange.{import_exchange_config}
use fledge_south_tase.Config.Protocol.{import_protocol_config}
use fledge_south_tase.Config.Schema.{IsProtocolDocument, IsExchangeDocument, IsTlsDocument}
use fledge_south_tase.Config.Schema.Steps.{EndsWell}
use fledge_south_tase.Config.Schema.Protocol.{import_protocol_config-Safe}
use fledge_south_tase.Config.Schema.Exchange.{import_exchange_config-Safe, import_tls_config-Safe}
use fledge_south_tase.Plugin.{after_call, set_json_config}

after_call-EndsWell :
    (r : Config × Flow) (k : Config → Config × Flow)
    → EndsWell r.1
    → ((c : Config) → EndsWell (k c).1)
    → EndsWell (after_call r k).1
after_call-EndsWell (c, go) k h f = f c
after_call-EndsWell (c, returned) k h f = f c
after_call-EndsWell (c, aborted) k h f = h
after_call-EndsWell (c, threw e) k h f = tt

-- Documents of the right shape never make setJsonConfig fail the precondition of an accessor,
-- whatever else they hold and also where one of them does not parse: it comes to its end, returns
-- early from an import or throws a ConfigurationException. The shape asks for what the imports read
-- with no test: the transport layer, its connections and the application layer are objects; the
-- lists of connections, datasets, transfer sets and transfer set conditions are arrays; the address
-- of a connection, where it is given, is a text, and then its port is there and is an int that
-- GetInt takes; the backup timeout, the polling interval, and the interval, the time limit, the
-- integrity check, the buffer time and the start time of a transfer set are such ints, its flags are
-- Booleans and its names texts, as is the domain of a dataset; and where the protocols of a point
-- and the two lists of certificates are arrays, what they hold are objects.
pub set_json_config-EndsWell :
    (x : Externals) (stack exchanged tls : String)
    → Fits IsProtocolDocument (x.parse stack)
    → Fits IsExchangeDocument (x.parse exchanged)
    → Fits IsTlsDocument (x.parse tls)
    → EndsWell (set_json_config x stack exchanged tls).1
unfolding set_json_config
set_json_config-EndsWell x stack exchanged tls s e t =
    after_call-EndsWell (import_exchange_config x exchanged new_config) _
      ((import_exchange_config-Safe x exchanged e).safe new_config)
      λ c.
        after_call-EndsWell (import_protocol_config x stack c) _
          ((import_protocol_config-Safe x stack s).safe c) (import_tls_config-Safe x tls t).safe
