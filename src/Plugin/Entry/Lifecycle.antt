-- ===== src/Plugin/Entry/Lifecycle.antt =====
-- The plugin from plugin_init on, under any sequence of calls of Fledge (src/plugin.cpp,
-- src/tase2.cpp).
use fledge_south_tase.Common.{
  ap, suc, ℕ, String, Bool, true, false, ◌&&◌, Option, none, some, ◌≡◌, refl, if◌then◌else◌, length,
  All, subst,
}
use fledge_south_tase.Config.{Config, Externals}
use fledge_south_tase.Config.Steps.{Flow, go, returned, aborted, threw}
use fledge_south_tase.Config.Exchange.Invariant.{new_config-IsConsistent}
use fledge_south_tase.Client.Monitor.{Client, start_client}
use fledge_south_tase.Plugin.{
  Tase2, new_tase2, overwritten, start_tase2, stop_tase2, register_ingest,
}
use fledge_south_tase.Plugin.Configured.{IsSound, set_json_config-IsSound}
use fledge_south_tase.Plugin.Entry.{
  left, Category, Entered, entered, configured, configure, get_value, item_exists, restart,
  named_asset, plugin_init, plugin_reconfigure, plugin_poll,
}

-- How many clients have been abandoned after a start.
abbrev pub abandons : Option Client → ℕ → ℕ
abandons none n = n
abandons (some c) n = suc n

module _ (x : Externals) where
  -- A call on the plugin's object, where n starts have met a client, and how many have then.
  pub data Step (n : ℕ) (t : Tase2) : ℕ → Tase2 → Type 0 where
    starts : Step n t (abandons t.client n) (start_tase2 t)
    registers : Step n t n (register_ingest t)
    reconfigures : (config : Category) → Step n t n (left (plugin_reconfigure x config t))
    polls : Step n t n (left (plugin_poll t))

  -- The objects that are reached, with the number of starts that met a client.
  pub data Reach : ℕ → Tase2 → Type 0 where
    init : (config : Category) → Reach 0 (left (plugin_init x config))
    later : {n k : ℕ} {t u : Tase2} → Reach n t → Step n t k u → Reach k u

  -- The client runs, and reads the configuration that the object owns, not one that was deleted.
  abbrev pub ReadsOwn : Config → Option Client → Type 0
  ReadsOwn config none = Unit {0}
  ReadsOwn config (some c) = (c.config ≡ config) × (c.started ≡ true)

  pub record IsAlive (n : ℕ) (t : Tase2) : Type 0 where
    pub sound : IsSound x t.config
    pub client : ReadsOwn t.config t.client
    pub lost : length t.abandoned ≡ n
    pub running : All (λ c. c.started ≡ true) t.abandoned

  -- The same with no client, as stop leaves it.
  record IsStopped (n : ℕ) (t : Tase2) : Type 0 where
    off : t.client ≡ none
    sound : IsSound x t.config
    lost : length t.abandoned ≡ n
    running : All (λ c. c.started ≡ true) t.abandoned

  IsStopped-IsAlive : (n : ℕ) (t : Tase2) → IsStopped n t → IsAlive n t
  IsStopped-IsAlive n t h = record {
    sound = h.sound;
    client = rw h.off tt;
    lost = h.lost;
    running = h.running;
  }

  stop_tase2-IsStopped : (n : ℕ) (t : Tase2) → IsAlive n t → IsStopped n (stop_tase2 t)
  stop_tase2-IsStopped n t h = record {
    off = refl;
    sound = h.sound;
    lost = h.lost;
    running = h.running;
  }

  -- A start abandons the client that is there, and that one runs on.
  start_tase2-IsAlive :
      (n : ℕ) (t : Tase2) → IsAlive n t → IsAlive (abandons t.client n) (start_tase2 t)
  unfolding start_tase2 start_client
  start_tase2-IsAlive n t h = record {
    sound = h.sound;
    client = (refl, refl);
    lost = counted t.client;
    running = kept t.client h.client;
  }
    where
      counted : (o : Option Client) → length (overwritten o t.abandoned) ≡ abandons o n
      counted none = h.lost
      counted (some c) = ap suc h.lost

      kept :
          (o : Option Client)
          → ReadsOwn t.config o
          → All (λ c. c.started ≡ true) (overwritten o t.abandoned)
      kept none reads = h.running
      kept (some c) reads = (reads.1, h.running)

  -- From a stopped object, whatever setJsonConfig comes to.
  configured-IsAlive :
      (n : ℕ) (t : Tase2) (r : Config × Flow) (k : Tase2 → Entered)
      → IsStopped n t
      → IsSound x r.0
      → ((t : Tase2) → IsStopped n t → IsAlive n (left (k t)))
      → IsAlive n (left (configured t r k))
  configured-IsAlive n t (c, flow) k h sound f = go' flow
    where
      stopped : IsStopped n (record t { config = c })
      stopped = record { off = h.off; sound = sound; lost = h.lost; running = h.running }

      go' : (flow : Flow) → IsAlive n (left (configured t (c, flow) k))
      go' go = f (record t { config = c }) stopped
      go' returned = f (record t { config = c }) stopped
      go' (threw e) = IsStopped-IsAlive n (record t { config = c }) stopped
      go' aborted = IsStopped-IsAlive n (record t { config = c }) stopped

  get_value-IsAlive :
      (n : ℕ) (item : Option String) (t : Tase2) (k : String → Entered)
      → IsAlive n t
      → ((v : String) → IsAlive n (left (k v)))
      → IsAlive n (left (get_value item t k))
  get_value-IsAlive n none t k h f = h
  get_value-IsAlive n (some v) t k h f = f v

  configure-IsAlive :
      (n : ℕ) (config : Category) (t : Tase2) (k : Tase2 → Entered)
      → IsStopped n t
      → ((t : Tase2) → IsStopped n t → IsAlive n (left (k t)))
      → IsAlive n (left (configure x config t k))
  configure-IsAlive n config t k h f =
      get_value-IsAlive n (config "protocol_stack") t _ stopped λ stack.
        get_value-IsAlive n (config "exchanged_data") t _ stopped λ exchanged.
          get_value-IsAlive n (config "tls_conf") t _ stopped
            λ tls. configured-IsAlive n t _ k h (set_json_config-IsSound x stack exchanged tls) f
    where
      stopped : IsAlive n t
      stopped = IsStopped-IsAlive n t h

  restart-IsAlive :
      (n : ℕ) (asset : Option String) (t : Tase2)
      → IsStopped n t
      → IsAlive n (left (restart asset t))
  restart-IsAlive n none t h = IsStopped-IsAlive n t h
  restart-IsAlive n (some asset) t h =
      subst (λ o. IsAlive (abandons o n) (start_tase2 (record t { asset = asset }))) h.off
        (start_tase2-IsAlive n (record t { asset = asset })
          (IsStopped-IsAlive n (record t { asset = asset })
            (record { off = h.off; sound = h.sound; lost = h.lost; running = h.running })))

  either :
      (n : ℕ) (b : Bool) (p q : Entered)
      → IsAlive n (left p)
      → IsAlive n (left q)
      → IsAlive n (left (if b then p else q))
  either n true p q h k = h
  either n false p q h k = k

  plugin_init-IsAlive : (config : Category) → IsAlive 0 (left (plugin_init x config))
  unfolding plugin_init
  plugin_init-IsAlive config =
      either 0
        (item_exists config "protocol_stack"
          && (item_exists config "exchanged_data" && item_exists config "tls_conf"))
        _ _
        (configure-IsAlive 0 config (fresh (named_asset (config "asset"))) entered
          (new (named_asset (config "asset"))) (IsStopped-IsAlive 0))
        (IsStopped-IsAlive 0 (fresh (named_asset (config "asset")))
          (new (named_asset (config "asset"))))
    where
      fresh : String → Tase2
      fresh asset = record new_tase2 { asset = asset }

      new : (asset : String) → IsStopped 0 (fresh asset)
      new asset = record {
        off = refl;
        sound = record { connections = tt; definitions = new_config-IsConsistent };
        lost = refl;
        running = tt;
      }

  pub plugin_reconfigure-IsAlive :
      (n : ℕ) (config : Category) (t : Tase2)
      → IsAlive n t
      → IsAlive n (left (plugin_reconfigure x config t))
  unfolding plugin_reconfigure
  plugin_reconfigure-IsAlive n config t h =
      either n
        (item_exists config "protocol_stack"
          && (item_exists config "exchanged_data" && item_exists config "tls"))
        (configure x config (stop_tase2 t) (restart (config "asset")))
        (restart (config "asset") (stop_tase2 t))
        (configure-IsAlive n config (stop_tase2 t) (restart (config "asset"))
          (stop_tase2-IsStopped n t h) (restart-IsAlive n (config "asset")))
        (restart-IsAlive n (config "asset") (stop_tase2 t) (stop_tase2-IsStopped n t h))

  Step-IsAlive : (n : ℕ) {k : ℕ} {t u : Tase2} → Step n t k u → IsAlive n t → IsAlive k u
  Step-IsAlive n {k} {t} starts h = start_tase2-IsAlive n t h
  Step-IsAlive n registers h = record {
    sound = h.sound;
    client = h.client;
    lost = h.lost;
    running = h.running;
  }
  Step-IsAlive n polls h = h
  Step-IsAlive n {k} {t} (reconfigures config) h = plugin_reconfigure-IsAlive n config t h

  -- After plugin_init and any sequence of starts, registrations, polls and reconfigurations, with
  -- whatever items, also where some of them throw, the configuration is sound (every connection
  -- valid, the definitions consistent), and the client that the object points to, if there is one,
  -- runs and reads that configuration, not one that was deleted. Besides it there run exactly as many
  -- clients that nothing points to as starts met a client: none if plugin_start only comes where
  -- there is none, and a reconfiguration neither adds nor stops one.
  pub Reach-IsAlive : {n : ℕ} {t : Tase2} → Reach n t → IsAlive n t
  Reach-IsAlive (init config) = plugin_init-IsAlive config
  Reach-IsAlive (later {n} r s) = Step-IsAlive n s (Reach-IsAlive r)
