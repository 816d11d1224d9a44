-- ===== src/VelocityBreaker/Window.antt =====
-- The sums of velocity_breaker.go against the agent's whole history of observations.
use finops_proxy.Prelude.{
  ℕ, ◌+◌, ◌%◌, ◌^◌, ◌≤◌, ◌<◌, ◌≡◌, refl, ◌∙◌, sym, ap, List, [], ◌∷◌, ◌++◌, arith, length, ltb,
  if◌then◌else◌, inl, inr, All, subst, append_assoc, append-nil, length-append, lt→ltb,
  le→ltb_false,
}
use finops_proxy.VelocityBreaker.{
  TokenEvent, VelocityState, append, empty_state, max_velocity_events,
}
use finops_proxy.VelocityBreaker.Ring.{
  Covers, IsLive, IsDead, Ordered, Ordered-back, observation, append_ring-Covers, All-back,
}
use finops_proxy.VelocityBreaker.Sums.{total, InRange, IsSum, append_ring-IsSum}

-- the observations that are still in the window at `now`
unfoldable pub still_live : ℕ → ℕ → List TokenEvent → List TokenEvent
still_live window now [] = []
still_live window now (e ∷ es) =
    let rest = still_live window now es in if ltb now (e.t + window) then e ∷ rest else rest

-- the observations one after the other
unfoldable pub append_all : ℕ → ℕ → List TokenEvent → VelocityState → VelocityState
append_all window short_window [] st = st
append_all window short_window (e ∷ es) st =
    append_all window short_window es (append e.t e.n window short_window st)

module _ (window now : ℕ) where
  still_live-append :
      (xs ys : List TokenEvent)
      → still_live window now (xs ++ ys) ≡ still_live window now xs ++ still_live window now ys
  unfolding still_live
  still_live-append [] ys = refl
  still_live-append (x ∷ xs) ys = ground (arith, still_live-append xs ys)

  pub still_live-All :
      (es : List TokenEvent) → All (IsLive window now) es → still_live window now es ≡ es
  unfolding still_live
  still_live-All [] h = refl
  still_live-All (e ∷ es) h = rw (lt→ltb now (e.t + window) h.0, still_live-All es h.1)

  still_live_dead :
      (es : List TokenEvent) → All (IsDead window now) es → still_live window now es ≡ []
  unfolding still_live
  still_live_dead [] h = refl
  still_live_dead (e ∷ es) h = rw (le→ltb_false (e.t + window) now h.0) (still_live_dead es h.1)

  empty_front : (xs ys : List TokenEvent) → length xs ≡ 0 → xs ++ ys ≡ ys
  empty_front [] ys h = refl
  empty_front (x ∷ xs) ys h = absurd (omega arith)

  -- A ring that covers the history holds the live observations, if they fit.
  Covers-still_live :
      (history events : List TokenEvent)
      → Covers window now history events
      → length (still_live window now history) ≤ max_velocity_events
      → events ≡ still_live window now history
  Covers-still_live history events c fits =
      let parts : still_live window now history ≡ still_live window now c.before ++ events =
        ap (still_live window now) c.split
        ∙ still_live-append c.before events
        ∙ ap (λ (y : List TokenEvent). still_live window now c.before ++ y)
            (still_live-All events c.live) in
      elim c.complete [
        | inl gone ↦
            sym (parts ∙ ap (λ (y : List TokenEvent). y ++ events) (still_live_dead c.before gone))
        | inr full ↦ sym (
            parts
            ∙ empty_front (still_live window now c.before) events (
                omega (
                  arith,
                  fits,
                  full,
                  ap (λ (y : List TokenEvent). length y) parts,
                  length-append (still_live window now c.before) events,
                )))
      ]

pub All-front : (P : TokenEvent → Type 0) (xs ys : List TokenEvent) → All P (xs ++ ys) → All P xs
All-front P [] ys k = tt
All-front P (z ∷ zs) ys k = (k.0, All-front P zs ys k.1)

All-upto :
    (P : TokenEvent → Type 0) (xs : List TokenEvent) (e : TokenEvent) (ys : List TokenEvent)
    → All P (xs ++ (e ∷ ys))
    → All P (xs ++ (e ∷ []))
All-upto P [] e ys k = (k.0, tt)
All-upto P (z ∷ zs) e ys k = (k.0, All-upto P zs e ys k.1)

module _ (window short_window : ℕ) where
  record Tracks (now : ℕ) (history : List TokenEvent) (st : VelocityState) : Type 0 where
    long : Covers window now history st.events
    brief : Covers short_window now history st.short
    long_sum : IsSum (st.events, st.sum_long)
    brief_sum : IsSum (st.short, st.sum_short)

  append-Tracks :
      (now later tokens : ℕ) (history : List TokenEvent) (st : VelocityState)
      → now ≤ later
      → tokens < 2 ^ 64
      → Ordered later (history ++ (observation later tokens ∷ []))
      → Tracks now history st
      → Tracks later
          (history ++ (observation later tokens ∷ []))
          (append later tokens window short_window st)
  unfolding append
  append-Tracks now later tokens history st le range ordered h = record {
    long =
        append_ring-Covers window now later tokens history st.events st.sum_long le h.long ordered;
    brief =
        append_ring-Covers short_window now later tokens history st.short st.sum_short le h.brief
          ordered;
    long_sum = append_ring-IsSum window later tokens st.events st.sum_long range h.long_sum;
    brief_sum = append_ring-IsSum short_window later tokens st.short st.sum_short range h.brief_sum;
  }

  Ordered-upto :
      (now : ℕ) (xs : List TokenEvent) (e : TokenEvent) (ys : List TokenEvent)
      → Ordered now (xs ++ (e ∷ ys))
      → Ordered e.t (xs ++ (e ∷ []))
  Ordered-upto now [] e ys h = (omega arith, tt, tt)
  Ordered-upto now (x ∷ xs) e ys h =
      let later = All-back (λ y. x.t ≤ y.t) xs (e ∷ ys) h.1 in
      (later.0, All-upto (λ y. x.t ≤ y.t) xs e ys h.1, Ordered-upto now xs e ys h.2)

  append_all-Tracks :
      (now start : ℕ) (done rest : List TokenEvent) (st : VelocityState)
      → start ≤ now
      → All (λ e. start ≤ e.t) rest
      → InRange rest
      → Ordered now (done ++ rest)
      → Tracks start done st
      → (end : ℕ) × (end ≤ now) × Tracks end (done ++ rest) (append_all window short_window rest st)
  unfolding append_all
  append_all-Tracks now start done [] st le later range ordered h =
      (start, le, subst (λ (d : List TokenEvent). Tracks start d st) (sym (append-nil done)) h)
  append_all-Tracks now start done (e ∷ rest) st le later range ordered h =
      let st' = append e.t e.n window short_window st in
      let here =
        append-Tracks start e.t e.n done st later.0 range.0 (Ordered-upto now done e rest ordered)
          h in
      let split = append_assoc done (e ∷ []) rest in
      let tail = Ordered-back now done (e ∷ rest) ordered in
      let (end, bound, tracks) =
        append_all-Tracks now e.t (done ++ (e ∷ [])) rest st' tail.0 tail.1 range.1
          (subst (Ordered now) (sym split) ordered) here in
      (
        end,
        bound,
        subst (λ (d : List TokenEvent). Tracks end d (append_all window short_window rest st'))
            split tracks,
      )

  start-Tracks : Tracks 0 [] empty_state
  unfolding total
  start-Tracks = record {
    long = record {
      before = [];
      split = refl;
      live = tt;
      bounded = omega arith;
      complete = inl tt;
    };
    brief = record {
      before = [];
      split = refl;
      live = tt;
      bounded = omega arith;
      complete = inl tt;
    };
    long_sum = (refl, tt);
    brief_sum = (refl, tt);
  }

  from_zero : (es : List TokenEvent) → All (λ e. 0 ≤ e.t) es
  from_zero [] = tt
  from_zero (e ∷ es) = (omega arith, from_zero es)

  Ordered-front_part : (now : ℕ) (xs ys : List TokenEvent) → Ordered now (xs ++ ys) → Ordered now xs
  Ordered-front_part now [] ys h = tt
  Ordered-front_part now (x ∷ xs) ys h =
      (h.0, All-front (λ y. x.t ≤ y.t) xs ys h.1, Ordered-front_part now xs ys h.2)

  -- After observations at times that do not decrease, starting from the empty state and with the
  -- last one now: if at most 1024 of them are still in the long window, and at most 1024 in the
  -- short one, the two sums are those of the tokens observed in the two windows, modulo 2^64.
  pub append_all-total :
      (now tokens : ℕ) (history : List TokenEvent)
      → tokens < 2 ^ 64
      → InRange history
      → Ordered now (history ++ (observation now tokens ∷ []))
      → length (still_live window now (history ++ (observation now tokens ∷ []))) ≤ 1024
      → length (still_live short_window now (history ++ (observation now tokens ∷ []))) ≤ 1024
      → ((append now tokens window short_window
            (append_all window short_window history empty_state)).sum_long
          ≡ total (still_live window now (history ++ (observation now tokens ∷ []))) % 2 ^ 64)
        × ((append now tokens window short_window
              (append_all window short_window history empty_state)).sum_short
            ≡ total (still_live short_window now (history ++ (observation now tokens ∷ [])))
              % 2 ^ 64)
  append_all-total now tokens history range ranges ordered fits fits_short =
      let all = history ++ (observation now tokens ∷ []) in
      let before = append_all window short_window history empty_state in
      let (end, bound, tracks) =
        append_all-Tracks now 0 [] history empty_state (omega arith) (from_zero history) ranges
          (Ordered-front_part now history (observation now tokens ∷ []) ordered) start-Tracks in
      let h = append-Tracks end now tokens history before bound range ordered tracks in
      let st = append now tokens window short_window before in
      (
        h.long_sum.0
            ∙ ap (λ (es : List TokenEvent). total es % 2 ^ 64)
                (Covers-still_live window now all st.events h.long fits),
        h.brief_sum.0
            ∙ ap (λ (es : List TokenEvent). total es % 2 ^ 64)
                (Covers-still_live short_window now all st.short h.brief fits_short),
      )
