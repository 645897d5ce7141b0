-- ===== src/Client.antt =====
-- packages/common/src/index.ts and packages/broker/src/BrokerClientManager.ts: the manager of a gRPC client,
-- which connects again when the connection is lost, and the one for the broker. A callback is an
-- operation of its own; how many of each kind are outstanding is kept. Clients are numbers; what the
-- constructor of the client gives, and the state that the channel reports, are arguments. A reconnection that is
-- scheduled is a flag, and its delay an operation. Logging, the address and the deadlines are left out.
pub mod Steady
pub mod Registry
pub mod Announcing
pub mod Tests
use modular_runtime.Shared.{
  ℕ, ◌+◌, ◌-◌, Option, some, none, List, [], ◌∷◌, ◌++◌, Bool, true, false, not, ◌&&◌, ◌||◌, eqb,
  if◌then◌else◌, get_elem?, zero, suc,
}

pub record ClientManager : Type 0 where
  pub client : Option ℕ
  pub reconnect_timer : Bool
  -- Callbacks of `waitForReady` and of `watchConnectivityState` that have not been called, the latter
  -- with the state they were set up for, and the calls of `onConnected`.
  pub waiting : ℕ
  pub watched : List ℕ
  pub notified : ℕ

unfoldable pub new_client_manager : ClientManager
new_client_manager = record {
  client = none;
  reconnect_timer = false;
  waiting = 0;
  watched = [];
  notified = 0;
}

unfoldable pub schedule_reconnect : ClientManager → ClientManager
schedule_reconnect c = elim c.client [
  | some id ↦ c
  | none ↦ if c.reconnect_timer then c else record c { reconnect_timer = true }
]

unfoldable pub clear_reconnect_timer : ClientManager → ClientManager
clear_reconnect_timer c = if not c.reconnect_timer then c else record c { reconnect_timer = false }

-- `this.client = null` and a reconnection
unfoldable pub lose_client : ClientManager → ClientManager
lose_client c = schedule_reconnect (record c { client = none })

-- `none`: the constructor of the client, or `waitForReady`, throws.
unfoldable pub connect : Option ℕ → ClientManager → ClientManager
connect made c = elim c.client [
  | some id ↦ c
  | none ↦ elim made [
    | none ↦ lose_client c
    | some id ↦ record c { client = some id; waiting = c.waiting + 1 }
  ]
]

-- The reconnection's delay is over.
unfoldable pub reconnect : Option ℕ → ClientManager → ClientManager
reconnect made c =
    let late = record c { reconnect_timer = false } in
    elim c.client [ some id ↦ late | none ↦ connect made late ]

-- The callback of `waitForReady`, with whether it is given an error and the state of the channel, and whether
-- it throws.
unfoldable pub ready : Bool → Option ℕ → ClientManager → ClientManager × Bool
ready error state c =
    let called = record c { waiting = c.waiting - 1 } in
    let cleared = clear_reconnect_timer called in
    let notified = record cleared { notified = cleared.notified + 1 } in
    let connected = elim cleared.client as (λ o. ClientManager × Bool) [
      | none ↦ (cleared, true)
      | some id ↦ elim state [
        | none ↦ (lose_client notified, false)
        | some s ↦ (record notified { watched = notified.watched ++ s ∷ [] }, false)
      ]
    ] in
    if error then (lose_client called, false) else connected

unfoldable pub drop_at : ℕ → List ℕ → List ℕ
drop_at i [] = []
drop_at zero (x ∷ xs) = xs
drop_at (suc i) (x ∷ xs) = x ∷ drop_at i xs

-- `s2 !== 2`, where no client is no state
abbrev pub is_other : Option ℕ → Bool
is_other none = true
is_other (some s) = not (eqb s 2)

-- The callback of the `i`-th watch, with the state of the channel of the client that is there, and
-- whether it is given an error.
unfoldable pub watch_called : ℕ → ℕ → Bool → ClientManager → ClientManager
watch_called i state error c =
    let called = record c { watched = drop_at i c.watched } in
    let s2 = elim c.client as (λ o. Option ℕ) [ none ↦ none | some id ↦ some state ] in
    elim (get_elem? c.watched i) [
      | none ↦ c
      | some s ↦ if (eqb s 2 && is_other s2) || error then lose_client called else called
    ]

-- `on('error')` and `on('end')` of the stream of changes, in `connected` of the broker's client manager
unfoldable pub stream_ended : ClientManager → ClientManager
stream_ended c = record c { client = none }
