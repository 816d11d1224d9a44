-- ===== src/LogHub.antt =====
-- pkg/logstream/hub.go: the hub that delivers each log event to every subscriber. A subscriber's
-- channel is the list of its buffered events, oldest first, and `E` is the type of the events. A step
-- under the mutexes is one function. The hub with its subscriptions is in Hub.
pub mod Delivery
pub mod Hub
pub mod Isolation
mod Tests
use finops_proxy.Prelude.{
  ℕ, zero, suc, ◌+◌, ◌==◌, ℤ, Option, none, some, Bool, true, false, List, [], ◌∷◌, ◌++◌, length,
  ltb, if◌then◌else◌, positive_or, Eq,
}

pub record Subscriber (E : Type 0) : Type 0 where
  pub ch : List E
  pub cap : ℕ
  pub dropped : ℕ

-- `select { case <-sub.ch: sub.dropped++ default: }`
unfoldable pub pop : {E : Type 0} → Subscriber E → Subscriber E
pop sub = elim sub.ch [ [] ↦ sub | e ∷ es ↦ record sub { ch = es; dropped = sub.dropped + 1 } ]

-- `select { case sub.ch <- ev: default: sub.dropped++ }`
unfoldable pub send : {E : Type 0} → E → Subscriber E → Subscriber E
send ev sub =
    if ltb (length sub.ch) sub.cap
    then record sub { ch = sub.ch ++ (ev ∷ []) }
    else record sub { dropped = sub.dropped + 1 }

-- the body of the loop of `Publish`
unfoldable pub deliver : {E : Type 0} → E → Subscriber E → Subscriber E
unfolding pop send
deliver ev sub = send ev (if length sub.ch == sub.cap then pop sub else sub)

-- `if buf < 1 { buf = 1 }`
unfoldable pub new_subscriber : {E : Type 0} → ℤ → Subscriber E
new_subscriber buf = record { ch = []; cap = positive_or 1 buf; dropped = 0 }

-- a receive from `C`, before or after a whole `deliver`: the channel has no part in the mutex, so that
-- in the source a receive can also fall between the drop and the send of one `Publish`
unfoldable pub receive : {E : Type 0} → Subscriber E → Subscriber E × Option E
receive sub = elim sub.ch [ [] ↦ (sub, none) | e ∷ es ↦ (record sub { ch = es }, some e) ]
