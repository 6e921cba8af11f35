-- ===== src/Plugin/Entry/Restart.antt =====
-- What a configuration category makes of the plugin (src/plugin.cpp).
use fledge_south_tase.Common.{String, true, none, some, ◌≡◌, arith, map}
use fledge_south_tase.Config.{Externals}
use fledge_south_tase.Client.Monitor.{new_client, start_client, prepare_connections}
use fledge_south_tase.Connection.Thread.{start}
use fledge_south_tase.Plugin.{Tase2, start_tase2}
use fledge_south_tase.Plugin.Entry.{Category, entered, plugin_reconfigure}

-- A new category with an asset but no item "tls" is not imported, whatever its protocol stack, its
-- exchanged data and its "tls_conf" are: the plugin is started again with the connections of the
-- old configuration.
pub plugin_reconfigure_no_tls :
    (x : Externals) (config : Category) (t : Tase2) (asset : String)
    → config "asset" ≡ some asset
    → config "tls" ≡ none
    → plugin_reconfigure x config t
      ≡ entered (record t {
        asset = asset;
        client = some (record (new_client t.config) {
          connections = map start (prepare_connections t.config);
          started = true;
        });
      })
unfolding plugin_reconfigure start_tase2 start_client
plugin_reconfigure_no_tls x config t asset a no_tls = ground arith
