-- ===== src/Topology/Store/Preservation/Identity.antt =====
-- apps/topology/src/topology-store.ts: the changes to a record that keep its service and name.
use modular_runtime.Shared.{ℕ, Option, some, none, Bool, ◌≡◌, arith}
use modular_runtime.Topology.Types.{ApplicationHealth}
use modular_runtime.Topology.Store.State.{ServiceRecord, Settings, emit_node_update}
use modular_runtime.Topology.Store.Services.{heartbeat_record, revive, update_health}
use modular_runtime.Topology.Store.Activity.{activity_record}
use modular_runtime.Topology.Store.Sweep.{mark_stale, mark_idle}

-- Two records of one service under one name.
pub record IsSameService (r r' : ServiceRecord) : Type 0 where
  pub id : r'.node.service_id ≡ r.node.service_id
  pub name : r'.node.service_name ≡ r.node.service_name

pub heartbeat_record-IsSame :
    (health : Option ApplicationHealth) (now : ℕ) (r : ServiceRecord)
    → IsSameService r (heartbeat_record health now r).0
unfolding heartbeat_record revive update_health
heartbeat_record-IsSame none now r = record { id = ground arith; name = ground arith }
heartbeat_record-IsSame (some h) now r = record { id = ground arith; name = ground arith }

pub activity_record-IsSame :
    (now : ℕ) (r : ServiceRecord) → IsSameService r (activity_record now r).0
unfolding activity_record
activity_record-IsSame now r = record { id = ground arith; name = ground arith }

pub marks-IsSame :
    (cfg : Settings) (now : ℕ) (r : ServiceRecord)
    → IsSameService r (mark_idle cfg now (mark_stale now r).0).0
unfolding mark_idle mark_stale
marks-IsSame cfg now r = record { id = ground arith; name = ground arith }

pub emit-IsSame :
    (R : Type 0) (cfg : Settings) (force : Bool) (r : ServiceRecord) (now : ℕ)
    → IsSameService r (emit_node_update {R = R} cfg force r now).0
unfolding emit_node_update
emit-IsSame R cfg force r now = record { id = ground arith; name = ground arith }
