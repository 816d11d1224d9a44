-- ===== src/LogHub/Tests.antt =====
-- hub.go on concrete inputs.
use finops_proxy.Prelude.{
  ℕ, ◌+◌, ◌==◌, ◌≡◌, refl, List, [], ◌∷◌, ◌++◌, arith, length, drop, pos, if◌then◌else◌, Option,
  none, some, true, Bytes, bytes_eq, equals, get_elem?,
}
use finops_proxy.Events.{LogEvent, log_event}
use finops_proxy.LogHub.Hub
use finops_proxy.LogHub.Hub.{
  Hub, Subscription, new_hub, subscribe, close, close_once, deliver_to, read_from, resolve, len,
}
use finops_proxy.LogHub.Isolation
use finops_proxy.LogHub.Isolation.{Step, on_subscribe, on_close, on_publish, on_read, step, seen}
use finops_proxy.LogHub.{Subscriber, deliver, pop, send, new_subscriber, receive}
use finops_proxy.LogHub.Delivery
use finops_proxy.LogHub.Delivery.{Event, publish, read, run, published, received, Accounts}

-- three events into a buffer of two, and a read between them
abbrev events : List (Event ℕ)
events = publish 1 ∷ publish 2 ∷ publish 3 ∷ read ∷ publish 4 ∷ []

buffered : (run events (new_subscriber (pos 2))).ch ≡ 3 ∷ 4 ∷ []
unfolding run deliver pop send receive new_subscriber
buffered = refl

-- a full buffer of one
abbrev full : Subscriber ℕ
full = record { ch = 7 ∷ []; cap = 1; dropped = 5 }

deliver_newest_example :
    ((deliver 8 full).ch
      ≡ (if length full.ch == full.cap then drop 1 full.ch else full.ch) ++ (8 ∷ []))
    × ((deliver 8 full).dropped ≡ full.dropped + (if length full.ch == full.cap then 1 else 0))
deliver_newest_example = Delivery.deliver_newest 8 full (omega arith) (omega arith)

-- the tenant 7 has the name 1 2; another subscription is there before and is closed, and ours is closed
-- after two of three events
abbrev names : Option (Bytes → Option Bytes)
names = some (λ tenant. if equals tenant (7 ∷ []) then some (1 ∷ 2 ∷ []) else none)

abbrev started : LogEvent
started = record (log_event "request.complete" "info" 9) { tenant_id = 7 ∷ [] }

abbrev hub : Hub
hub = subscribe (pos 1) (new_hub names)

abbrev steps : List Step
steps =
    on_publish started
    ∷ on_close 0
    ∷ on_publish (log_event "loop_blocked" "warn" 10)
    ∷ on_subscribe (pos 4)
    ∷ on_read 1
    ∷ on_close 1
    ∷ on_close 1
    ∷ on_publish (log_event "cost_alert" "warn" 11)
    ∷ []

subscribe-Accounts_example :
    let i = length hub.made in
    let es = seen hub.resolver i true steps in
    (s : Subscription) × (get_elem? (Isolation.run steps (subscribe (pos 2) hub)).made i ≡ some s)
    × Accounts (published es) (received es (new_subscriber (pos 2))) s.sub
subscribe-Accounts_example = Isolation.subscribe-Accounts hub (pos 2) steps

-- of the three subscriptions the one that was not closed is left
left_over : len (Isolation.run steps (subscribe (pos 2) hub)) ≡ 1
unfolding len Isolation.run step subscribe close Hub.publish Hub.read close_once new_hub deliver_to
    read_from resolve deliver pop send receive new_subscriber
left_over = refl

-- the closed one keeps the second event, and the first has got its tenant's name
named :
    published (seen names 1 true steps)
    ≡ record started { tenant_name = 1 ∷ 2 ∷ [] } ∷ log_event "loop_blocked" "warn" 10 ∷ []
unfolding published seen resolve finops_proxy.Prelude.bytes_discrete finops_proxy.Prelude.ℕ_discrete
named = refl
