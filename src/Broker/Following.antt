-- ===== src/Broker/Following.antt =====
-- packages/broker/src/broker.ts: a client that follows the notifications of the broker.
use modular_runtime.Shared.{
  ℕ, String, some, none, List, [], ◌∷◌, ◌++◌, ◌==◌, ◌≡◌, refl, sym, ap, ◌∙◌, arith, if◌then◌else◌,
  inl, inr, Bool-cases, Option-cases, All, All-append, eq_iff,
}
use modular_runtime.Broker.{
  IService, RegisterServiceRequest, UnregisterServiceRequest, Listener, Broker,
  NotifyServiceChangesResponse, notify_all_listeners, service_change, register_service,
  splice_service, unregister_service, notify_service_changes, remove_listener, cancel_listener,
}

-- What a client makes of a notification that keeps its own list of the services, and knows these two tags for a service that came
-- and one that went; a notification with another tag it passes over.
unfoldable pub follow :
    String → String → List IService → NotifyServiceChangesResponse → List IService
follow came went ss n =
    if n.change_type == came
    then ss
      ++ record { name = n.info.interface_name; role = n.info.role; url = n.url; port = n.port }
        ∷ []
    else if n.change_type == went
    then elim (splice_service n.info.interface_name ss) [ none ↦ ss | some found ↦ found.1 ]
    else ss

unfoldable pub follow_all :
    String → String → List IService → List NotifyServiceChangesResponse → List IService
follow_all came went ss [] = ss
follow_all came went ss (n ∷ ns) = follow_all came went (follow came went ss n) ns

follow_all-append :
    (came went : String) (ss : List IService) (ns ms : List NotifyServiceChangesResponse)
    → follow_all came went ss (ns ++ ms) ≡ follow_all came went (follow_all came went ss ns) ms
unfolding follow_all
follow_all-append came went ss [] ms = refl
follow_all-append came went ss (n ∷ ns) ms =
    follow_all-append came went (follow came went ss n) ns ms

-- `joined call` are the services at the time when the listener `call` joined. With the tags that the broker sends a client
-- follows it; with those that broker.proto documents it stays with what it had.
pub record IsFollowing (joined : ℕ → List IService) (services : List IService) (l : Listener)
    : Type 0 where
  pub sent_tags : follow_all "added" "removed" (joined l.call) l.written ≡ services
  pub documented_tags :
      follow_all "registered" "unregistered" (joined l.call) l.written ≡ joined l.call

module _ (joined : ℕ → List IService) where
  notified-IsFollowing :
      (n : NotifyServiceChangesResponse) (before after : List IService) (ls : List Listener)
      → follow "added" "removed" before n ≡ after
      → ((ss : List IService) → follow "registered" "unregistered" ss n ≡ ss)
      → All (IsFollowing joined before) ls
      → All (IsFollowing joined after) (notify_all_listeners n ls)
  unfolding notify_all_listeners follow_all
  notified-IsFollowing n before after [] e passed h = tt
  notified-IsFollowing n before after (l ∷ ls) e passed h = (
    record {
      sent_tags =
          follow_all-append "added" "removed" (joined l.call) l.written (n ∷ [])
          ∙ rw (h.0.sent_tags) e;
      documented_tags =
          follow_all-append "registered" "unregistered" (joined l.call) l.written (n ∷ [])
          ∙ rw (h.0.documented_tags) (passed (joined l.call));
    },
    notified-IsFollowing n before after ls e passed h.1,
  )

  removed-IsFollowing :
      (call : ℕ) (services : List IService) (ls : List Listener)
      → All (IsFollowing joined services) ls
      → All (IsFollowing joined services) (remove_listener call ls)
  unfolding remove_listener
  removed-IsFollowing call services [] h = tt
  removed-IsFollowing call services (l ∷ ls) h =
      ground (arith, removed-IsFollowing call services ls h.1)

-- The calls that a broker gets; a listener that joins gets the identity `call`.
pub data Step (joined : ℕ → List IService) : Broker → Broker → Type 0 where
  registers : (rq : RegisterServiceRequest) (b : Broker) → Step joined b (register_service rq b).0
  unregisters :
      (rq : UnregisterServiceRequest) (b : Broker) → Step joined b (unregister_service rq b).0
  joins :
      (call : ℕ) (b : Broker)
      → joined call ≡ b.services
      → Step joined b (notify_service_changes call b)
  cancels : (call : ℕ) (b : Broker) → Step joined b (cancel_listener call b)

pub data Run (joined : ℕ → List IService) (b : Broker) : Broker → Type 0 where
  begins : Run joined b b
  continues : {c d : Broker} → Run joined b c → Step joined c d → Run joined b d

abbrev pub AllFollow : (ℕ → List IService) → Broker → Type 0
AllFollow joined b = All (IsFollowing joined b.services) b.service_change_listeners

splice_service-name :
    (name : String) (ss rest : List IService) (s : IService)
    → splice_service name ss ≡ some (s, rest)
    → s.name ≡ name
unfolding splice_service
splice_service-name name [] rest s h = cc
splice_service-name name (t ∷ ss) rest s h = elim (Bool-cases (t.name == name)) [
  | inl same ↦
      let first : t ≡ s = ground arith in
      ap (λ (u : IService). u.name) (sym first) ∙ ground (arith, eq_iff t.name name)
  | inr other ↦ elim (Option-cases (splice_service name ss)) [
    | inl missing ↦ cc (rw (other, missing) at h)
    | inr ((u, us), found) ↦
        let later : u ≡ s = ground arith in
        ap (λ (v : IService). v.name) (sym later) ∙ splice_service-name name ss us u found
  ]
]

Step-AllFollow :
    (joined : ℕ → List IService) {b c : Broker}
    → Step joined b c
    → AllFollow joined b
    → AllFollow joined c
unfolding register_service unregister_service service_change notify_service_changes cancel_listener
    follow follow_all
Step-AllFollow joined (registers rq b) h = elim (Option-cases rq.info) [
  | inl e ↦ rw (e, register_service) h
  | inr (info, e) ↦
      rw (e, register_service)
        (notified-IsFollowing joined _ b.services _ b.service_change_listeners refl (λ ss. refl) h)
]
Step-AllFollow joined (unregisters rq b) h =
    elim (Option-cases (splice_service rq.interface_name b.services)) [
      | inl e ↦ rw (e, unregister_service) h
      | inr ((s, rest), e) ↦
          rw (e, unregister_service)
            (notified-IsFollowing joined _ b.services rest b.service_change_listeners
              (rw (splice_service-name rq.interface_name b.services rest s e, e) refl) (λ ss. refl)
              h)
    ]
Step-AllFollow joined (joins call b e) h =
    All-append (IsFollowing joined b.services) b.service_change_listeners _ h
      (record { sent_tags = e; documented_tags = refl }, tt)
Step-AllFollow joined (cancels call b) h =
    removed-IsFollowing joined call b.services b.service_change_listeners h

-- From a broker without listeners, whatever registrations, unregistrations, new listeners and cancellations come: a client
-- that takes the list of services as it was when it joined, and follows the notifications that were written to it, has
-- the broker's list of services in its order, if it takes the tag "added" for a service that came and "removed" for one that
-- went. A client that goes by the tags that broker.proto documents, "registered" and "unregistered", still has the list
-- with which it joined.
pub Run-AllFollow :
    (joined : ℕ → List IService) (services : List IService) (b : Broker)
    → Run joined (record { services = services; service_change_listeners = [] }) b
    → AllFollow joined b
Run-AllFollow joined services b begins = tt
Run-AllFollow joined services b (continues {c = c} run step) =
    Step-AllFollow joined step (Run-AllFollow joined services c run)
