-- ===== src/LogHub/Isolation.antt =====
-- What one subscription of a hub receives while others subscribe, close and read.
use finops_proxy.Prelude.{
  ℕ, zero, suc, ◌≡◌, refl, ◌∙◌, ap, ◌==◌, not, ℤ, Option, some, Bool, true, false, List, [], ◌∷◌,
  ◌++◌, map, length, get_elem?, Bytes, if◌then◌else◌, arith, Bool-cases, inl, inr,
}
use finops_proxy.Events.{LogEvent}
use finops_proxy.LogHub.{Subscriber, new_subscriber, deliver, receive}
use finops_proxy.LogHub.Delivery
use finops_proxy.LogHub.Delivery.{Event, run-new_subscriber, Accounts, received}
use finops_proxy.LogHub.Hub
use finops_proxy.LogHub.Hub.{
  Hub, Subscription, update, subscribe, close_once, close, resolve, deliver_to, read_from,
}

-- what happens at a hub
pub data Step : Type 0 where
  on_subscribe : ℤ → Step
  on_close : ℕ → Step
  on_publish : LogEvent → Step
  on_read : ℕ → Step

unfoldable pub step : Step → Hub → Hub
step (on_subscribe buf) h = subscribe buf h
step (on_close i) h = close i h
step (on_publish ev) h = Hub.publish ev h
step (on_read i) h = Hub.read i h

unfoldable pub run : List Step → Hub → Hub
run [] h = h
run (s ∷ ss) h = run ss (step s h)

-- what of it concerns the subscription at the place `i`, which is open or not: the events that are
-- published until it is closed, with their names resolved, and its own reads
unfoldable pub seen : Option (Bytes → Option Bytes) → ℕ → Bool → List Step → List (Event LogEvent)
seen find i live [] = []
seen find i live (on_subscribe buf ∷ ss) = seen find i live ss
seen find i live (on_close j ∷ ss) = seen find i (if i == j then false else live) ss
seen find i live (on_publish ev ∷ ss) =
    let rest = seen find i live ss in
    if live then Delivery.publish (resolve find ev) ∷ rest else rest
seen find i live (on_read j ∷ ss) =
    let rest = seen find i live ss in if i == j then Delivery.read ∷ rest else rest

module _ {A : Type 0} where
  get-map :
      {B : Type 0} (f : A → B) (xs : List A) (i : ℕ) (x : A)
      → get_elem? xs i ≡ some x
      → get_elem? (map f xs) i ≡ some (f x)
  get-map f [] i x e = absurd (ground arith)
  get-map f (y ∷ xs) zero x e = ground arith
  get-map f (y ∷ xs) (suc i) x e = get-map f xs i x e

  get-update :
      (f : A → A) (xs : List A) (j i : ℕ) (x : A)
      → get_elem? xs i ≡ some x
      → get_elem? (update j f xs) i ≡ some (if i == j then f x else x)
  get-update f [] j i x e = absurd (ground arith)
  get-update f (y ∷ xs) zero zero x e = ground arith
  get-update f (y ∷ xs) zero (suc i) x e =
      let other : (suc i == 0) ≡ false = ground arith in rw other e
  get-update f (y ∷ xs) (suc j) zero x e =
      let other : (0 == suc j) ≡ false = ground arith in rw other e
  get-update f (y ∷ xs) (suc j) (suc i) x e =
      let same : (suc i == suc j) ≡ (i == j) = ground arith in rw same (get-update f xs j i x e)

  get-append :
      (xs ys : List A) (i : ℕ) (x : A) → get_elem? xs i ≡ some x → get_elem? (xs ++ ys) i ≡ some x
  get-append [] ys i x e = absurd (ground arith)
  get-append (y ∷ xs) ys zero x e = e
  get-append (y ∷ xs) ys (suc i) x e = get-append xs ys i x e

  get-append_end : (xs : List A) (x : A) → get_elem? (xs ++ (x ∷ [])) (length xs) ≡ some x
  get-append_end [] x = refl
  get-append_end (y ∷ xs) x = get-append_end xs x

abbrev cell : Subscriber LogEvent → Bool → Subscription
cell sub live = record { sub = sub; registered = live; once = not live }

close_cell :
    (b live : Bool) (sub : Subscriber LogEvent)
    → (if b then close_once (cell sub live) else cell sub live)
      ≡ cell sub (if b then false else live)
unfolding close_once
close_cell false live sub = refl
close_cell true false sub = refl
close_cell true true sub = refl

-- whatever the steps are, the place `i` holds what its own events make of it
follow :
    (ss : List Step) (h : Hub) (i : ℕ) (sub : Subscriber LogEvent) (live : Bool)
    → get_elem? h.made i ≡ some (cell sub live)
    → (open_end : Bool) × (get_elem? (run ss h).made i
        ≡ some (cell (Delivery.run (seen h.resolver i live ss) sub) open_end))
unfolding run seen step subscribe close Hub.publish Hub.read Delivery.run deliver_to read_from
follow [] h i sub live e = (live, e)
follow (on_subscribe buf ∷ ss) h i sub live e =
    follow ss (subscribe buf h) i sub live (get-append h.made _ i (cell sub live) e)
follow (on_close j ∷ ss) h i sub live e =
    follow ss (close j h) i sub (if i == j then false else live) (
      get-update close_once h.made j i (cell sub live) e
      ∙ ap (λ (s : Subscription). some s) (close_cell (i == j) live sub))
follow (on_publish ev ∷ ss) h i sub false e =
    follow ss (Hub.publish ev h) i sub false
      (get-map (deliver_to (resolve h.resolver ev)) h.made i (cell sub false) e)
follow (on_publish ev ∷ ss) h i sub true e =
    follow ss (Hub.publish ev h) i (deliver (resolve h.resolver ev) sub) true
      (get-map (deliver_to (resolve h.resolver ev)) h.made i (cell sub true) e)
follow (on_read j ∷ ss) h i sub live e =
    let now = get-update read_from h.made j i (cell sub live) e in
    let at : Bool → Option Subscription =
      λ b. some (if b then read_from (cell sub live) else cell sub live) in
    elim (Bool-cases (i == j)) [
      | inl own ↦ rw own (follow ss (Hub.read j h) i (receive sub).0 live (now ∙ ap at own))
      | inr other ↦ rw other (follow ss (Hub.read j h) i sub live (now ∙ ap at other))
    ]

-- Whatever happens at a hub after a subscription to it, others' subscriptions, reads and closes
-- included, with `es` the events published until the subscription is closed and its own reads: its
-- buffer holds the latest of the published events in their order, with the tenants' names resolved, no
-- more than the capacity, and its dropped, received and buffered events add up to the published ones.
pub subscribe-Accounts :
    (h : Hub) (buf : ℤ) (ss : List Step)
    → let i = length h.made in
      let es = seen h.resolver i true ss in
      (s : Subscription) × (get_elem? (run ss (subscribe buf h)).made i ≡ some s)
      × Accounts (Delivery.published es) (received es (new_subscriber buf)) s.sub
unfolding subscribe
subscribe-Accounts h buf ss =
    let i = length h.made in
    let es = seen h.resolver i true ss in
    let (open_end, found) =
      follow ss (subscribe buf h) i (new_subscriber buf) true (get-append_end h.made _) in
    (cell (Delivery.run es (new_subscriber buf)) open_end, found, run-new_subscriber es buf)
