-- ===== src/Plugin/Entry.antt =====
-- The entry points of the plugin (src/plugin.cpp). A ConfigCategory is what its items hold, `none`
-- for one that does not exist, on which getValue throws.
pub mod Restart
pub mod Lifecycle
use fledge_south_tase.Common.{
  String, Bool, true, false, ◌&&◌, List, [], ◌∷◌, Option, none, some, if◌then◌else◌,
}
use fledge_south_tase.Common.Int.{ℤ}
use fledge_south_tase.Config.{Config, Externals}
use fledge_south_tase.Config.Steps.{Flow, go, returned, aborted, threw}
use fledge_south_tase.Client.{PointLibrary, Outcome}
use fledge_south_tase.Plugin.{
  Tase2, new_tase2, set_json_config, start_tase2, stop_tase2, register_ingest,
}
use fledge_south_tase.Plugin.Operation.{Session, Reply, operation}

abbrev pub Category : Type 0
Category = String → Option String

abbrev pub item_exists : Category → String → Bool
item_exists config name = elim (config name) [ none ↦ false | some v ↦ true ]

-- What an entry point comes to: the object, an exception with the object as it was left, or a
-- failed precondition of the JSON accessors.
pub data Entered : Type 0 where
  entered : Tase2 → Entered
  entry_threw : Tase2 → Entered
  entry_aborted : Tase2 → Entered

-- The object that is left, however the entry point ended.
abbrev pub left : Entered → Tase2
left (entered t) = t
left (entry_threw t) = t
left (entry_aborted t) = t

abbrev pub configured : Tase2 → Config × Flow → (Tase2 → Entered) → Entered
configured t (c, go) k = k (record t { config = c })
configured t (c, returned) k = k (record t { config = c })
configured t (c, threw e) k = entry_threw (record t { config = c })
configured t (c, aborted) k = entry_aborted (record t { config = c })

-- config.getValue
abbrev pub get_value : Option String → Tase2 → (String → Entered) → Entered
get_value none t k = entry_threw t
get_value (some v) t k = k v

-- setJsonConfig with the values of the three items.
abbrev pub configure : Externals → Category → Tase2 → (Tase2 → Entered) → Entered
configure x config t k = get_value (config "protocol_stack") t λ stack.
    get_value (config "exchanged_data") t λ exchanged.
      get_value (config "tls_conf") t λ tls. configured t (set_json_config x stack exchanged tls) k

abbrev pub named_asset : Option String → String
named_asset none = "tase 2"
named_asset (some asset) = asset

unfoldable pub plugin_init : Externals → Category → Entered
plugin_init x config =
    let t = record new_tase2 { asset = named_asset (config "asset") } in
    if item_exists config "protocol_stack"
      && (item_exists config "exchanged_data" && item_exists config "tls_conf")
    then configure x config t entered
    else entered t

abbrev pub restart : Option String → Tase2 → Entered
restart none t = entered t
restart (some asset) t = entered (start_tase2 (record t { asset = asset }))

-- The test asks for an item "tls", and the item "tls_conf" is read.
unfoldable pub plugin_reconfigure : Externals → Category → Tase2 → Entered
plugin_reconfigure x config t =
    let stopped = stop_tase2 t in
    if item_exists config "protocol_stack"
      && (item_exists config "exchanged_data" && item_exists config "tls")
    then configure x config stopped (restart (config "asset"))
    else restart (config "asset") stopped

-- A null handle is left alone.
unfoldable pub plugin_start : Option Tase2 → Option Tase2
plugin_start none = none
plugin_start (some t) = some (start_tase2 t)

-- A null handle makes these two throw, which is `none`.
abbrev pub plugin_register_ingest : Option Tase2 → Option Tase2
plugin_register_ingest none = none
plugin_register_ingest (some t) = some (register_ingest t)

abbrev pub plugin_operation :
    (lib : PointLibrary) (atof : String → lib.Real)
    → Option (Option (Session lib))
    → String
    → ℤ
    → List String
    → Option (Reply lib)
plugin_operation lib atof none name count params = none
plugin_operation lib atof (some client) name count params =
    some (operation lib atof client name count params)

-- It throws whatever its handle is; the object stays.
abbrev pub plugin_poll : Tase2 → Entered
plugin_poll t = entry_threw t

-- Nothing is left of the object.
abbrev pub plugin_shutdown : Tase2 → Option Tase2
plugin_shutdown t = none

abbrev pub plugin_write : String → String → Bool
plugin_write name value = false
