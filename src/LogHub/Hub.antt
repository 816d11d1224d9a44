-- ===== src/LogHub/Hub.antt =====
-- pkg/logstream/hub.go: `Hub` with its subscriptions. The subscribers that were ever made stand in a
-- list, and the place in it is the pointer to one; `subs` of the source is the set of the registered
-- ones. Each function is one step under the mutexes. The resolver of tenant names is a parameter.
use finops_proxy.Prelude.{
  ℕ, zero, suc, ◌&&◌, not, ℤ, Option, none, some, Bool, true, false, List, [], ◌∷◌, ◌++◌, map,
  Bytes, if◌then◌else◌,
}
use finops_proxy.Events.{LogEvent}
use finops_proxy.LogHub.{Subscriber, new_subscriber, deliver, receive}

pub record Subscription : Type 0 where
  pub sub : Subscriber LogEvent
  -- whether `subs` has it
  pub registered : Bool
  -- whether `once` has run
  pub once : Bool

pub record Hub : Type 0 where
  pub resolver : Option (Bytes → Option Bytes)
  pub made : List Subscription

abbrev pub update : {A : Type 0} → ℕ → (A → A) → List A → List A
update i f [] = []
update zero f (x ∷ xs) = f x ∷ xs
update (suc i) f (x ∷ xs) = x ∷ update i f xs

unfoldable pub new_hub : Option (Bytes → Option Bytes) → Hub
new_hub resolver = record { resolver = resolver; made = [] }

unfoldable pub subscribe : ℤ → Hub → Hub
subscribe buf h = record h {
  made = h.made ++ (record { sub = new_subscriber buf; registered = true; once = false } ∷ []);
}

-- what `once.Do` runs; a closed channel keeps what it has buffered
unfoldable pub close_once : Subscription → Subscription
close_once s = if s.once then s else record s { registered = false; once = true }

unfoldable pub close : ℕ → Hub → Hub
unfolding close_once
close i h = record h { made = update i close_once h.made }

abbrev pub is_empty : Bytes → Bool
is_empty [] = true
is_empty (b ∷ bs) = false

-- the name that `Publish` sets before the fan-out
unfoldable pub resolve : Option (Bytes → Option Bytes) → LogEvent → LogEvent
resolve none ev = ev
resolve (some find) ev =
    if is_empty ev.tenant_name && not (is_empty ev.tenant_id)
    then elim (find ev.tenant_id) [ none ↦ ev | some name ↦ record ev { tenant_name = name } ]
    else ev

unfoldable pub deliver_to : LogEvent → Subscription → Subscription
deliver_to ev s = if s.registered then record s { sub = deliver ev s.sub } else s

unfoldable pub publish : LogEvent → Hub → Hub
publish ev h = record h { made = map (deliver_to (resolve h.resolver ev)) h.made }

-- a receive from `C` of one subscription
unfoldable pub read_from : Subscription → Subscription
read_from s = record s { sub = (receive s.sub).0 }

unfoldable pub read : ℕ → Hub → Hub
read i h = record h { made = update i read_from h.made }

abbrev count : List Subscription → ℕ
count [] = 0
count (s ∷ ss) = let rest = count ss in if s.registered then suc rest else rest

unfoldable pub len : Hub → ℕ
len h = count h.made
