-- ===== src/Client/Steady.antt =====
-- packages/common/src/index.ts: what a client manager waits for.
use modular_runtime.Shared.{
  ℕ, zero, suc, ◌+◌, ◌<◌, ◌≤◌, Option, some, none, List, [], ◌∷◌, Bool, true, false, ◌≡◌, refl,
  arith, length, length-append, nil-of_length, eqb,
}
use modular_runtime.Client.{
  ClientManager, new_client_manager, schedule_reconnect, clear_reconnect_timer, lose_client,
  connect, reconnect, ready, drop_at, watch_called, stream_ended,
}

-- What can happen to a client manager.
pub data Step : ClientManager → ClientManager → Type 0 where
  connects : (made : Option ℕ) (c : ClientManager) → Step c (connect made c)
  delay_over :
      (made : Option ℕ) (c : ClientManager) → c.reconnect_timer ≡ true → Step c (reconnect made c)
  answers :
      (error : Bool) (state : Option ℕ) (c : ClientManager)
      → 0 < c.waiting
      → Step c (ready error state c).0
  changes :
      (i state : ℕ) (error : Bool) (c : ClientManager)
      → i < length c.watched
      → Step c (watch_called i state error c)

-- From the first call of `connect` on.
pub data Reachable : ClientManager → Type 0 where
  begins : (made : Option ℕ) → Reachable (connect made new_client_manager)
  continues : {c d : ClientManager} → Reachable c → Step c d → Reachable d

-- Without a client a reconnection is scheduled and nothing else is awaited; with one, at most one
-- callback is.
abbrev pub IsSteadyWith : Option ℕ → ClientManager → Type 0
IsSteadyWith none c = (c.reconnect_timer ≡ true) × (c.waiting ≡ 0) × (c.watched ≡ [])
IsSteadyWith (some id) c = c.waiting + length c.watched ≤ 1

abbrev pub IsSteady : ClientManager → Type 0
IsSteady c = IsSteadyWith c.client c

length-drop_at : (i : ℕ) (xs : List ℕ) → i < length xs → length xs ≡ suc (length (drop_at i xs))
unfolding drop_at
length-drop_at i [] h = absurd (omega arith)
length-drop_at zero (x ∷ xs) h = refl
length-drop_at (suc i) (x ∷ xs) h = omega (arith, length-drop_at i xs (omega arith))

connect-IsSteady :
    (made : Option ℕ) (c : ClientManager)
    → c.waiting ≡ 0
    → c.watched ≡ []
    → c.client ≡ none
    → IsSteady (connect made c)
unfolding connect lose_client schedule_reconnect
connect-IsSteady made c a b d = ground arith

Step-IsSteady : {c d : ClientManager} → Step c d → IsSteady c → IsSteady d
unfolding connect lose_client schedule_reconnect reconnect ready clear_reconnect_timer watch_called
Step-IsSteady (connects made c) h = ground arith
Step-IsSteady (delay_over made c due) h = ground arith
Step-IsSteady (answers error none c awaited) h = ground arith
Step-IsSteady (answers error (some s) c awaited) h =
    ground (arith, length-append c.watched (s ∷ []))
Step-IsSteady (changes i state error c awaited) h =
    ground (arith, length-drop_at i c.watched awaited, nil-of_length (drop_at i c.watched))

Reachable-IsSteady : {c : ClientManager} → Reachable c → IsSteady c
unfolding connect new_client_manager lose_client schedule_reconnect
Reachable-IsSteady (begins made) = ground arith
Reachable-IsSteady (continues r st) = Step-IsSteady st (Reachable-IsSteady r)

-- From the first call of `connect` on, whatever the constructor, the channel and the callbacks of
-- `waitForReady` and of the watch give, in whatever order: a client manager without a client has a
-- reconnection scheduled and awaits nothing else, and one with a client awaits at most one callback.
pub never_stranded : (c : ClientManager) → Reachable c → IsSteady c
never_stranded c r = Reachable-IsSteady r

-- A client manager that can be reached and has no client has one again when the delay is over and
-- the constructor gives one. If the callback of `waitForReady` is then called without an error while
-- the state of the channel is known, the listener is notified, the client stays, and the channel is
-- watched from that state on.
pub reconnects :
    (id s : ℕ) (c : ClientManager)
    → Reachable c
    → c.client ≡ none
    → let d = reconnect (some id) c in
      let (e, thrown) = ready false (some s) d in
      (c.reconnect_timer ≡ true)
      × (d.client ≡ some id)
      × (thrown ≡ false)
      × (e.client ≡ some id)
      × (e.watched ≡ s ∷ [])
      × (e.notified ≡ suc c.notified)
unfolding reconnect connect ready clear_reconnect_timer
reconnects id s c r lost = let h = Reachable-IsSteady r in ground arith

-- When the stream of changes ends while the channel is watched and no reconnection is scheduled, the
-- client is lost and none is scheduled. When the watch is then called without an error, a reconnection
-- is scheduled if it was set up for a channel that was ready; otherwise the manager has no
-- client and awaits nothing.
pub stream_ended-strands :
    (s state : ℕ) (c : ClientManager)
    → c.watched ≡ s ∷ []
    → c.waiting ≡ 0
    → c.reconnect_timer ≡ false
    → let d = stream_ended c in
      let e = watch_called 0 state false d in
      (d.client ≡ none)
      × (d.reconnect_timer ≡ false)
      × (e.client ≡ none)
      × (e.reconnect_timer ≡ eqb s 2)
      × (e.waiting ≡ 0)
      × (e.watched ≡ [])
unfolding stream_ended watch_called drop_at lose_client schedule_reconnect
stream_ended-strands s state c w a t = ground arith
