-- ===== src/VelocityBreaker/Ring.antt =====
-- What one ring of velocity_breaker.go holds: the observations that are still in the window, but no
-- more than the latest 1024.
use finops_proxy.Prelude.{
  ℕ, ◌+◌, ◌≤◌, ◌<◌, ◌≡◌, refl, ◌∙◌, sym, ap, subst, List, [], ◌∷◌, ◌++◌, arith, length, ltb,
  Bool-cases, ◌⊎◌, inl, inr, All, length-append, append_assoc, min, ltb→lt, sub64, add64,
}
use finops_proxy.VelocityBreaker.{TokenEvent, expire, trim, append_ring, max_velocity_events}

abbrev pub observation : ℕ → ℕ → TokenEvent
observation now tokens = record { t = now; n = tokens }

abbrev pub IsLive : ℕ → ℕ → TokenEvent → Type 0
IsLive window now e = now < e.t + window

abbrev pub IsDead : ℕ → ℕ → TokenEvent → Type 0
IsDead window now e = e.t + window ≤ now

-- the observations in the order of their times, up to `now`
abbrev pub Ordered : ℕ → List TokenEvent → Type 0
Ordered now [] = Unit
Ordered now (e ∷ es) = (e.t ≤ now) × All (λ x. e.t ≤ x.t) es × Ordered now es

pub All-append :
    (P : TokenEvent → Type 0) (xs ys : List TokenEvent) → All P xs → All P ys → All P (xs ++ ys)
All-append P [] ys h k = k
All-append P (x ∷ xs) ys h k = (h.0, All-append P xs ys h.1 k)

pub All-back : (P : TokenEvent → Type 0) (xs ys : List TokenEvent) → All P (xs ++ ys) → All P ys
All-back P [] ys h = h
All-back P (x ∷ xs) ys h = All-back P xs ys h.1

All-map :
    (P Q : TokenEvent → Type 0)
    → ((e : TokenEvent) → P e → Q e)
    → (xs : List TokenEvent) → All P xs
    → All Q xs
All-map P Q f [] h = tt
All-map P Q f (x ∷ xs) h = (f x h.0, All-map P Q f xs h.1)

pub Ordered-back : (now : ℕ) (xs ys : List TokenEvent) → Ordered now (xs ++ ys) → Ordered now ys
Ordered-back now [] ys h = h
Ordered-back now (x ∷ xs) ys h = Ordered-back now xs ys h.2

-- what stands before an observation is no later
Ordered-front :
    (now : ℕ) (xs : List TokenEvent) (e : TokenEvent) (ys : List TokenEvent)
    → Ordered now (xs ++ (e ∷ ys))
    → All (λ x. x.t ≤ e.t) xs
Ordered-front now [] e ys h = tt
Ordered-front now (x ∷ xs) e ys h =
    ((All-back (λ y. x.t ≤ y.t) xs (e ∷ ys) h.1).0, Ordered-front now xs e ys h.2)

-- The expired events are dead, and if the ring is in order, the others are live.
pub expire_split :
    (window now : ℕ) (es : List TokenEvent) (sum : ℕ)
    → Ordered now es
    → (dead : List TokenEvent) × (es ≡ dead ++ (expire window now es sum).0)
      × All (IsDead window now) dead
      × All (IsLive window now) (expire window now es sum).0
unfolding expire
expire_split window now [] sum h = ([], refl, tt, tt)
expire_split window now (e ∷ es) sum h = elim (Bool-cases (ltb now (e.t + window))) [
  | inl live ↦
      let l = ltb→lt now (e.t + window) live in
      rw live (
        [],
        refl,
        tt,
        (l, All-map (λ x. e.t ≤ x.t) (IsLive window now) (λ x le. omega arith) es h.1),
      )
  | inr out ↦
      let (dead, split, all_dead, all_live) = expire_split window now es (sub64 sum e.n) h.2 in
      rw out (e ∷ dead, ap (◌∷◌ e) split, (ground arith, all_dead), all_live)
]

pub trim_split :
    (es : List TokenEvent) (sum : ℕ)
    → (cut : List TokenEvent) × (es ≡ cut ++ (trim es sum).0)
      × (length (trim es sum).0 ≡ min (length es) max_velocity_events)
unfolding trim
trim_split [] sum = ([], refl, omega arith)
trim_split (e ∷ es) sum = elim (Bool-cases (ltb max_velocity_events (length (e ∷ es)))) [
  | inl long ↦
      let (cut, split, len) = trim_split es (sub64 sum e.n) in
      rw long (e ∷ cut, ap (◌∷◌ e) split, ground (arith, len))
  | inr fits ↦ rw fits ([], refl, ground arith)
]

-- The ring against all the observations of the agent.
pub record Covers (window now : ℕ) (history events : List TokenEvent) : Type 0 where
  pub before : List TokenEvent
  pub split : history ≡ before ++ events
  pub live : All (IsLive window now) events
  pub bounded : length events ≤ max_velocity_events
  pub complete : All (IsDead window now) before ⊎ (length events ≡ max_velocity_events)

-- Observations stay dead.
IsDead-later :
    (window now later : ℕ) (es : List TokenEvent)
    → now ≤ later
    → All (IsDead window now) es
    → All (IsDead window later) es
IsDead-later window now later es le =
    All-map (IsDead window now) (IsDead window later) (λ e h. omega arith) es

module _ (window now later tokens : ℕ) (history events : List TokenEvent) (sum : ℕ) where
  -- What stands before the ring is dead, if the ring was not full or something in it has expired.
  before-IsDead :
      (before dead rest : List TokenEvent)
      → Ordered later (before ++ (dead ++ rest))
      → All (IsDead window later) dead
      → 0 < length dead
      → All (IsDead window later) before
  before-IsDead before [] rest ordered dead some_dead = absurd (omega arith)
  before-IsDead before (d ∷ dead) rest ordered all_dead some_dead =
      let d_dead : IsDead window later d = all_dead.0 in
      All-map (λ x. x.t ≤ d.t) (IsDead window later) (λ x le. omega arith) before
        (Ordered-front later before d (dead ++ rest) ordered)

  All-empty : (P : TokenEvent → Type 0) (xs : List TokenEvent) → length xs ≡ 0 → All P xs
  All-empty P [] h = tt
  All-empty P (x ∷ xs) h = absurd (omega arith)

  module _ (le : now ≤ later) (c : Covers window now history events)
      (ordered : Ordered later (history ++ (observation later tokens ∷ []))) where
    resplit :
        (xs : List TokenEvent)
        → events ++ (observation later tokens ∷ []) ≡ xs
        → history ++ (observation later tokens ∷ []) ≡ c.before ++ xs
    resplit xs e =
        ap (λ (h : List TokenEvent). h ++ (observation later tokens ∷ [])) c.split
        ∙ append_assoc c.before events (observation later tokens ∷ [])
        ∙ ap (λ (y : List TokenEvent). c.before ++ y) e

    -- What has left the ring when it is not full.
    left-IsDead :
        (dead rest cut : List TokenEvent)
        → events ++ (observation later tokens ∷ []) ≡ dead ++ rest
        → All (IsDead window later) dead
        → length rest < max_velocity_events
        → length cut ≡ 0
        → All (IsDead window later) (c.before ++ (dead ++ cut))
    left-IsDead dead rest cut e all_dead few none_cut =
        let rest_dead =
          All-append (IsDead window later) dead cut all_dead
            (All-empty (IsDead window later) cut none_cut) in
        All-append (IsDead window later) c.before (dead ++ cut)
          (elim c.complete [
            | inl gone ↦ IsDead-later window now later c.before le gone
            | inr full ↦
                before-IsDead c.before dead rest
                  (subst (Ordered later) (resplit (dead ++ rest) e) ordered) all_dead
                  (omega (
                    arith,
                    full,
                    few,
                    length-append events (observation later tokens ∷ []),
                    length-append dead rest,
                    ap (λ (y : List TokenEvent). length y) e,
                  ))
          ])
          rest_dead

    -- One more observation: the ring holds all of the live ones again, or the latest 1024 of them.
    pub append_ring-Covers :
        Covers window later
          (history ++ (observation later tokens ∷ []))
          (append_ring window later tokens events sum).0
    unfolding append_ring
    append_ring-Covers =
        let (dead, e1, all_dead, all_live) =
          expire_split window later (events ++ (observation later tokens ∷ [])) (add64 sum tokens) (
            Ordered-back later c.before (events ++ (observation later tokens ∷ [])) (
              subst (Ordered later) (resplit (events ++ (observation later tokens ∷ [])) refl)
                ordered)) in
        let expired =
          expire window later (events ++ (observation later tokens ∷ [])) (add64 sum tokens) in
        let (cut, e2, len) = trim_split expired.0 expired.1 in
        let result = (trim expired.0 expired.1).0 in
        record {
          before = c.before ++ (dead ++ cut);
          split =
              resplit (dead ++ expired.0) e1
              ∙ ap (λ (y : List TokenEvent). c.before ++ (dead ++ y)) e2
              ∙ sym (
                  append_assoc c.before (dead ++ cut) result
                  ∙ ap (λ (y : List TokenEvent). c.before ++ y) (append_assoc dead cut result));
          live =
              All-back (IsLive window later) cut result
                (subst (All (IsLive window later)) e2 all_live);
          bounded = omega (arith, len);
          complete = elim (Bool-cases (ltb (length expired.0) max_velocity_events)) [
            | inl few ↦ inl (
                left-IsDead dead expired.0 cut e1 all_dead
                  (ltb→lt (length expired.0) max_velocity_events few)
                  (omega (
                    arith,
                    len,
                    ltb→lt (length expired.0) max_velocity_events few,
                    ap (λ (y : List TokenEvent). length y) e2,
                    length-append cut result,
                  )))
            | inr many ↦ inr (ground (arith, len))
          ];
        }
