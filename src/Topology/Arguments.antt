-- ===== src/Topology/Arguments.antt =====
-- apps/topology/src/config.ts: the command line of the topology stack. `N` are JavaScript's numbers and
-- `parse_int` is `Number.parseInt(value, 10)`, with `none` for NaN. An exception is `failed`.
pub mod Printing
pub mod Tests
use modular_runtime.Shared.{
  ℕ, String, Option, some, none, List, [], ◌∷◌, ◌==◌, if◌then◌else◌, or_else,
}
use modular_runtime.Shared.Text.{◌⧺◌, truthy}

pub data Parsed (A : Type 0) : Type 0 where
  failed : String → Parsed A
  parsed : A → Parsed A

pub record TopologyServiceConfig (N : Type 0) : Type 0 where
  pub address : String
  pub heartbeat_interval_ms : N
  pub timeout_multiplier : N
  pub idle_timeout_ms : N
  pub unknown_edge_timeout_ms : Option N
  pub rps_window_ms : Option N
  pub activity_flush_ms : N
  pub node_update_throttle_ms : N
  pub sweep_interval_ms : N

pub record TopologyProxyConfig (N : Type 0) : Type 0 where
  pub grpc_address : String
  pub http_port : N

pub record TopologyReporterProxyConfig (N : Type 0) : Type 0 where
  pub topology_address : String
  pub http_port : N

pub record TopologyStackConfig (N : Type 0) : Type 0 where
  pub service : TopologyServiceConfig N
  pub topology_proxy : TopologyProxyConfig N
  pub reporter_proxy : TopologyReporterProxyConfig N

-- The variables of `parseTopologyStackArgs`.
pub record Draft (N : Type 0) : Type 0 where
  pub service : TopologyServiceConfig N
  pub topology_proxy_grpc_address : Option String
  pub topology_proxy_http_port : N
  pub reporter_proxy_topology_address : Option String
  pub reporter_proxy_http_port : N

module _ {N : Type 0} (number : ℕ → N) where
  unfoldable pub initial_draft : Draft N
  initial_draft = record {
    service = record {
      address = "127.0.0.1:50053";
      heartbeat_interval_ms = number 5000;
      timeout_multiplier = number 3;
      idle_timeout_ms = number 30000;
      unknown_edge_timeout_ms = none;
      rps_window_ms = some (number 5000);
      activity_flush_ms = number 1000;
      node_update_throttle_ms = number 5000;
      sweep_interval_ms = number 5000;
    };
    topology_proxy_grpc_address = none;
    topology_proxy_http_port = number 50054;
    reporter_proxy_topology_address = none;
    reporter_proxy_http_port = number 50055;
  }

unfoldable pub finish : {N : Type 0} → Draft N → TopologyStackConfig N
finish d = record {
  service = d.service;
  topology_proxy = record {
    grpc_address = or_else d.topology_proxy_grpc_address d.service.address;
    http_port = d.topology_proxy_http_port;
  };
  reporter_proxy = record {
    topology_address = or_else d.reporter_proxy_topology_address d.service.address;
    http_port = d.reporter_proxy_http_port;
  };
}

module _ {N : Type 0} (parse_int : String → Option N) where
  -- `requireValue`, and what becomes of the value.
  unfoldable pub text_arg : String → (String → Draft N) → Option String → Parsed (Draft N)
  text_arg flag put none = failed ("Missing value for " ⧺ flag)
  text_arg flag put (some value) =
      if truthy value then parsed (put value) else failed ("Missing value for " ⧺ flag)

  unfoldable pub parse_number_arg : String → (N → Draft N) → String → Parsed (Draft N)
  parse_number_arg flag put value = elim (parse_int value) [
    | none ↦ failed ("Invalid numeric value for " ⧺ flag ⧺ ": " ⧺ value)
    | some n ↦ parsed (put n)
  ]

  unfoldable pub number_arg : String → (N → Draft N) → Option String → Parsed (Draft N)
  number_arg flag put none = failed ("Missing value for " ⧺ flag)
  number_arg flag put (some value) =
      if truthy value then parse_number_arg flag put value else failed ("Missing value for " ⧺ flag)

  -- The body of the loop on a flag and the argument after it; `none` if it is no flag, and then the
  -- argument is not skipped.
  unfoldable pub apply_flag : String → Option String → Draft N → Option (Parsed (Draft N))
  apply_flag flag value d =
      let s = d.service in
      if flag == "--address"
      then some (text_arg flag (λ v. record d { service = record s { address = v } }) value)
      else if flag == "--heartbeat-interval-ms"
      then some (
          number_arg flag (λ n. record d { service = record s { heartbeat_interval_ms = n } })
            value)
      else if flag == "--timeout-multiplier"
      then some
          (number_arg flag (λ n. record d { service = record s { timeout_multiplier = n } }) value)
      else if flag == "--idle-timeout-ms"
      then some
          (number_arg flag (λ n. record d { service = record s { idle_timeout_ms = n } }) value)
      else if flag == "--unknown-edge-timeout-ms"
      then some (
          number_arg flag
            (λ n. record d { service = record s { unknown_edge_timeout_ms = some n } }) value)
      else if flag == "--rps-window-ms"
      then some
          (number_arg flag (λ n. record d { service = record s { rps_window_ms = some n } }) value)
      else if flag == "--activity-flush-ms"
      then some
          (number_arg flag (λ n. record d { service = record s { activity_flush_ms = n } }) value)
      else if flag == "--node-update-throttle-ms"
      then some (
          number_arg flag (λ n. record d { service = record s { node_update_throttle_ms = n } })
            value)
      else if flag == "--sweep-interval-ms"
      then some
          (number_arg flag (λ n. record d { service = record s { sweep_interval_ms = n } }) value)
      else if flag == "--topology-proxy-grpc-address"
      then some (text_arg flag (λ v. record d { topology_proxy_grpc_address = some v }) value)
      else if flag == "--topology-proxy-http-port"
      then some (number_arg flag (λ n. record d { topology_proxy_http_port = n }) value)
      else if flag == "--topology-reporter-topology-address"
      then some (text_arg flag (λ v. record d { reporter_proxy_topology_address = some v }) value)
      else if flag == "--topology-reporter-http-port"
      then some (number_arg flag (λ n. record d { reporter_proxy_http_port = n }) value)
      else none

  unfoldable pub parse_args : List String → Draft N → Parsed (Draft N)
  parse_args [] d = parsed d
  parse_args (flag ∷ []) d = or_else (apply_flag flag none d) (parsed d)
  parse_args (flag ∷ value ∷ argv) d = elim (apply_flag flag (some value) d) [
    | none ↦ parse_args (value ∷ argv) d
    | some result ↦ elim result [ failed message ↦ failed message | parsed d' ↦ parse_args argv d' ]
  ]

  unfoldable pub parse_topology_stack_args : (ℕ → N) → List String → Parsed (TopologyStackConfig N)
  parse_topology_stack_args number argv = elim (parse_args argv (initial_draft number)) [
    | failed message ↦ failed message
    | parsed d ↦ parsed (finish d)
  ]
