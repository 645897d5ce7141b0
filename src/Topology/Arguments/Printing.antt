-- ===== src/Topology/Arguments/Printing.antt =====
-- apps/topology/src/config.ts: configurations that are written out as arguments.
use modular_runtime.Shared.{ℕ, String, Option, some, List, [], ◌∷◌, true, ◌≡◌, refl, ap, ◌∙◌}
use modular_runtime.Shared.Text.{truthy}
use modular_runtime.Topology.Arguments.{
  parsed, Draft, TopologyStackConfig, initial_draft, finish, text_arg, number_arg, parse_number_arg,
  apply_flag, parse_args, parse_topology_stack_args,
}

module _ {N : Type 0} (text_of : N → String) where
  -- The arguments that set everything; the timeout of unknown edges and the window are there.
  unfoldable pub print_args : N → N → TopologyStackConfig N → List String
  print_args unknown_edge_timeout_ms rps_window_ms c =
      "--address"
      ∷ c.service.address
      ∷ "--heartbeat-interval-ms"
      ∷ text_of c.service.heartbeat_interval_ms
      ∷ "--timeout-multiplier"
      ∷ text_of c.service.timeout_multiplier
      ∷ "--idle-timeout-ms"
      ∷ text_of c.service.idle_timeout_ms
      ∷ "--unknown-edge-timeout-ms"
      ∷ text_of unknown_edge_timeout_ms
      ∷ "--rps-window-ms"
      ∷ text_of rps_window_ms
      ∷ "--activity-flush-ms"
      ∷ text_of c.service.activity_flush_ms
      ∷ "--node-update-throttle-ms"
      ∷ text_of c.service.node_update_throttle_ms
      ∷ "--sweep-interval-ms"
      ∷ text_of c.service.sweep_interval_ms
      ∷ "--topology-proxy-grpc-address"
      ∷ c.topology_proxy.grpc_address
      ∷ "--topology-proxy-http-port"
      ∷ text_of c.topology_proxy.http_port
      ∷ "--topology-reporter-topology-address"
      ∷ c.reporter_proxy.topology_address
      ∷ "--topology-reporter-http-port"
      ∷ text_of c.reporter_proxy.http_port
      ∷ []

  module _ (parse_int : String → Option N) (number : ℕ → N)
      (reads : (n : N) → parse_int (text_of n) ≡ some n)
      (prints : (n : N) → truthy (text_of n) ≡ true) where
    number_arg-printed :
        (flag : String) (put : N → Draft N) (n : N)
        → number_arg parse_int flag put (some (text_of n)) ≡ parsed (put n)
    unfolding number_arg parse_number_arg
    number_arg-printed flag put n = rw (prints n, parse_number_arg, reads n) refl

    text_arg-printed :
        (flag : String) (put : String → Draft N) (value : String)
        → truthy value ≡ true
        → text_arg parse_int flag put (some value) ≡ parsed (put value)
    unfolding text_arg
    text_arg-printed flag put value h = rw h refl

    step :
        (flag value : String) (argv : List String) (d d' : Draft N)
        → apply_flag parse_int flag (some value) d ≡ some (parsed d')
        → parse_args parse_int (flag ∷ value ∷ argv) d ≡ parse_args parse_int argv d'
    unfolding parse_args
    step flag value argv d d' e = rw (e, parse_args) refl

    number_step :
        (flag : String) (n : N) (argv : List String) (d : Draft N) (put : N → Draft N)
        → apply_flag parse_int flag (some (text_of n)) d
          ≡ some (number_arg parse_int flag put (some (text_of n)))
        → parse_args parse_int (flag ∷ text_of n ∷ argv) d ≡ parse_args parse_int argv (put n)
    number_step flag n argv d put e =
        step flag (text_of n) argv d (put n) (e ∙ ap some (number_arg-printed flag put n))

    text_step :
        (flag value : String) (argv : List String) (d : Draft N) (put : String → Draft N)
        → truthy value ≡ true
        → apply_flag parse_int flag (some value) d ≡ some (text_arg parse_int flag put (some value))
        → parse_args parse_int (flag ∷ value ∷ argv) d ≡ parse_args parse_int argv (put value)
    text_step flag value argv d put h e =
        step flag value argv d (put value) (e ∙ ap some (text_arg-printed flag put value h))

    done : (d : Draft N) → parse_args parse_int [] d ≡ parsed d
    unfolding parse_args
    done d = refl

    printed-parse_args :
        (c : TopologyStackConfig N) (u w : N) (d : Draft N)
        → truthy c.service.address ≡ true
        → truthy c.topology_proxy.grpc_address ≡ true
        → truthy c.reporter_proxy.topology_address ≡ true
        → parse_args parse_int (print_args u w c) d
          ≡ parsed (record {
            service = record c.service { unknown_edge_timeout_ms = some u; rps_window_ms = some w };
            topology_proxy_grpc_address = some c.topology_proxy.grpc_address;
            topology_proxy_http_port = c.topology_proxy.http_port;
            reporter_proxy_topology_address = some c.reporter_proxy.topology_address;
            reporter_proxy_http_port = c.reporter_proxy.http_port;
          })
    unfolding print_args apply_flag
    printed-parse_args c u w d ha hg ht =
        text_step "--address" _ _ d _ ha refl
        ∙ number_step "--heartbeat-interval-ms" _ _ _ _ refl
        ∙ number_step "--timeout-multiplier" _ _ _ _ refl
        ∙ number_step "--idle-timeout-ms" _ _ _ _ refl
        ∙ number_step "--unknown-edge-timeout-ms" _ _ _ _ refl
        ∙ number_step "--rps-window-ms" _ _ _ _ refl
        ∙ number_step "--activity-flush-ms" _ _ _ _ refl
        ∙ number_step "--node-update-throttle-ms" _ _ _ _ refl
        ∙ number_step "--sweep-interval-ms" _ _ _ _ refl
        ∙ text_step "--topology-proxy-grpc-address" _ _ _ _ hg refl
        ∙ number_step "--topology-proxy-http-port" _ _ _ _ refl
        ∙ text_step "--topology-reporter-topology-address" _ _ _ _ ht refl
        ∙ number_step "--topology-reporter-http-port" _ _ _ _ refl
        ∙ done _

    -- If numbers are printed as texts that are not empty and that `parseInt` reads as the same number,
    -- then a configuration whose addresses are not empty, with a timeout of unknown edges and a
    -- window, is what its arguments are parsed to, whatever the default values.
    pub parse_topology_stack_args-print_args :
        (c : TopologyStackConfig N) (u w : N)
        → c.service.unknown_edge_timeout_ms ≡ some u
        → c.service.rps_window_ms ≡ some w
        → truthy c.service.address ≡ true
        → truthy c.topology_proxy.grpc_address ≡ true
        → truthy c.reporter_proxy.topology_address ≡ true
        → parse_topology_stack_args parse_int number (print_args u w c) ≡ parsed c
    unfolding parse_topology_stack_args finish
    parse_topology_stack_args-print_args c u w eu ew ha hg ht =
        rw
          (
            parse_topology_stack_args,
            printed-parse_args c u w (initial_draft number) ha hg ht,
            ← eu,
            ← ew,
          )
          refl
