-- ===== src/Topology/Store/WellFormed.antt =====
-- apps/topology/src/topology-store.ts: the invariant of `TopologyStore`.
use modular_runtime.Shared.{
  ℕ, ◌≤◌, String, some, List, [], ◌∷◌, true, ◌==◌, ◌≡◌, ◌∙◌, arith, elem, inl, inr, Bool-cases,
  IsUnique, All, eq_iff,
}
use modular_runtime.Shared.Dict.{
  Dict, keys, get, set, get-set, set-IsUnique, keys-set_old, elem_of_get, All-set, All-get, All-map,
}
use modular_runtime.Topology.Store.State.{
  ServiceRecord, RateSample, EdgeRecord, TopologyStore, TopologyStoreOptions, new_store, key_of,
}

abbrev pub IsNamed : String × ServiceRecord → Type 0
IsNamed entry = entry.1.node.service_id ≡ entry.0

abbrev pub IsIndexed : Dict ServiceRecord → String × String → Type 0
IsIndexed services entry =
    (r : ServiceRecord) × (get entry.1 services ≡ some r) × (r.node.service_name ≡ entry.0)

-- The counts of the samples rise from `lo` to at most `hi`.
abbrev pub AreRising : ℕ → List RateSample → ℕ → Type 0
AreRising lo [] hi = lo ≤ hi
AreRising lo (x ∷ xs) hi = (lo ≤ x.total_count) × AreRising x.total_count xs hi

module _ {R : Type 0} where
  -- The counters of an edge and the copies that the update carries agree.
  pub record IsCounted (e : EdgeRecord R) : Type 0 where
    pub errors : e.total_error_count ≤ e.total_count
    pub pending_errors : e.pending_error_count ≤ e.pending_count
    pub requests_shown : e.edge.total_requests ≡ e.total_count
    pub errors_shown : e.edge.total_errors ≡ e.total_error_count
    pub samples_rise : AreRising 0 e.rate_samples e.total_count

  pub record IsEdgeOk (live : List String) (entry : String × EdgeRecord R) : Type 0 where
    pub key : entry.0 ≡ key_of entry.1.edge
    pub source : elem entry.1.edge.source_service_id live ≡ true
    pub counted : IsCounted entry.1

  -- Keys are unique and are the identifiers of what they hold; every edge comes from a live
  -- service; the name index points to live services of that name; the counters are consistent.
  pub record IsWellFormed (s : TopologyStore R) : Type 0 where
    pub services_unique : IsUnique (keys s.services)
    pub services_named : All IsNamed s.services
    pub edges_unique : IsUnique (keys s.edges)
    pub edges_ok : All (IsEdgeOk (keys s.services)) s.edges
    pub index_unique : IsUnique (keys s.service_name_index)
    pub indexed : All (IsIndexed s.services) s.service_name_index

  pub new_store-IsWellFormed :
      (options : TopologyStoreOptions) (now : ℕ) → IsWellFormed (new_store {R = R} options now)
  unfolding new_store
  new_store-IsWellFormed options now = record {
    services_unique = tt;
    services_named = tt;
    edges_unique = tt;
    edges_ok = tt;
    index_unique = tt;
    indexed = tt;
  }

  -- Writing back a record of the same service.
  pub put_service-IsWellFormed :
      (id : String) (r r' : ServiceRecord) (s : TopologyStore R)
      → get id s.services ≡ some r
      → r'.node.service_id ≡ r.node.service_id
      → r'.node.service_name ≡ r.node.service_name
      → IsWellFormed s
      → IsWellFormed (record s { services = set id r' s.services })
  put_service-IsWellFormed id r r' s found same_id same_name w = record {
    services_unique = set-IsUnique id r' s.services w.services_unique;
    services_named =
        All-set IsNamed id r' s.services
          (same_id ∙ All-get IsNamed id s.services r w.services_named found) w.services_named;
    edges_unique = w.edges_unique;
    edges_ok = rw (keys-set_old id r' s.services (elem_of_get id s.services r found)) w.edges_ok;
    index_unique = w.index_unique;
    indexed =
        All-map (IsIndexed s.services) (IsIndexed (set id r' s.services)) s.service_name_index still
          w.indexed;
  }
    where
      still : (e : String × String) → IsIndexed s.services e → IsIndexed (set id r' s.services) e
      still e (q, at, named) = elim (Bool-cases (id == e.1)) [
        | inl same ↦ (
          r',
          ground (arith, get-set id e.1 r' s.services),
          same_name ∙ ground (arith, eq_iff id e.1),
        )
        | inr other ↦ (q, ground (arith, get-set id e.1 r' s.services), named)
      ]
