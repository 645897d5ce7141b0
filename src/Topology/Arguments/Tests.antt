-- ===== src/Topology/Arguments/Tests.antt =====
-- apps/topology/src/config.ts: a configuration on which the theorem is tried. Numbers are printed as
-- tallies here.
use Prim.Native.String.compare
use modular_runtime.Shared.{ℕ, zero, suc, String, Option, some, none, ◌∷◌, [], true, ◌≡◌, refl}
use modular_runtime.Shared.Text.{truthy}
use modular_runtime.Topology.Arguments.{
  parsed, failed, TopologyStackConfig, parse_topology_stack_args, parse_args, apply_flag,
  number_arg,
}
use modular_runtime.Topology.Arguments.Printing.{print_args, parse_topology_stack_args-print_args}

tally : ℕ → String
tally zero = String.◌∷◌ "|" String.[]
tally (suc n) = String.◌∷◌ "|" (tally n)

read : String → Option ℕ
read String.[] = none
read (String.◌∷◌ c s) = elim (read s) [ none ↦ some 0 | some n ↦ some (suc n) ]

read-tally : (n : ℕ) → read (tally n) ≡ some n
unfolding read tally
read-tally zero = refl
read-tally (suc n) = rw (read-tally n) refl

truthy-tally : (n : ℕ) → truthy (tally n) ≡ true
unfolding tally
truthy-tally zero = refl
truthy-tally (suc n) = rw (compare.cons-nil "|" (tally n)) refl

abbrev config : TopologyStackConfig ℕ
config = record {
  service = record {
    address = "0.0.0.0:1";
    heartbeat_interval_ms = 100;
    timeout_multiplier = 2;
    idle_timeout_ms = 7;
    unknown_edge_timeout_ms = some 9;
    rps_window_ms = some 0;
    activity_flush_ms = 3;
    node_update_throttle_ms = 0;
    sweep_interval_ms = 5;
  };
  topology_proxy = record { grpc_address = "a:1"; http_port = 80 };
  reporter_proxy = record { topology_address = "b:1"; http_port = 81 };
}

parse_topology_stack_args-print_args_example :
    parse_topology_stack_args read (λ n. n) (print_args tally 9 0 config) ≡ parsed config
parse_topology_stack_args-print_args_example =
    parse_topology_stack_args-print_args tally read (λ n. n) read-tally truthy-tally config 9 0 refl
      refl refl refl refl

-- A flag without its value is an error.
missing_value_test :
    parse_topology_stack_args read (λ n. n) ("--idle-timeout-ms" ∷ [])
    ≡ failed "Missing value for --idle-timeout-ms"
unfolding parse_topology_stack_args parse_args apply_flag number_arg
missing_value_test = refl
