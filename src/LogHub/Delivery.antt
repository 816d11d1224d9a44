-- ===== src/LogHub/Delivery.antt =====
-- What one subscriber of hub.go receives of the published events.
use finops_proxy.Prelude.{
  ℕ, suc, ◌+◌, ◌≤◌, ◌<◌, ◌≡◌, refl, ◌∙◌, sym, ap, true, false, List, [], ◌∷◌, ◌++◌, arith, length,
  length-append, append_assoc, ltb, ◌==◌, if◌then◌else◌, Bool-cases, inl, inr, lt→ltb, ℤ,
  positive_or_pos, append-nil, subst, drop,
}
use finops_proxy.LogHub.{Subscriber, pop, send, deliver, new_subscriber, receive}

-- what happens at a subscriber
pub data Event (E : Type 0) : Type 0 where
  publish : E → Event E
  read : Event E

unfoldable pub run : {E : Type 0} → List (Event E) → Subscriber E → Subscriber E
run [] sub = sub
run (publish ev ∷ es) sub = run es (deliver ev sub)
run (read ∷ es) sub = run es (receive sub).0

-- the events that were published
unfoldable pub published : {E : Type 0} → List (Event E) → List E
published [] = []
published (publish ev ∷ es) = ev ∷ published es
published (read ∷ es) = published es

-- how many events the reads have returned
unfoldable pub received : {E : Type 0} → List (Event E) → Subscriber E → ℕ
received [] sub = 0
received (publish ev ∷ es) sub = received es (deliver ev sub)
received (read ∷ es) sub = (elim sub.ch [ [] ↦ 0 | e ∷ rest ↦ 1 ]) + received es (receive sub).0

module _ {E : Type 0} where
  -- The buffer is the end of what was published, within its capacity, and every published event is
  -- buffered, received or dropped.
  pub record Accounts (all : List E) (taken : ℕ) (sub : Subscriber E) : Type 0 where
    pub before : List E
    pub suffix : all ≡ before ++ sub.ch
    pub bounded : length sub.ch ≤ sub.cap
    pub positive : 0 < sub.cap
    pub counted : sub.dropped + taken + length sub.ch ≡ length all

  -- The new event is always buffered, and the oldest one dropped if the buffer was full.
  deliver_cases :
      (ev : E) (ch : List E) (cap dropped : ℕ)
      → 0 < cap
      → length ch ≤ cap
      → (gone kept : List E) × (ch ≡ gone ++ kept)
        × (deliver ev (record { ch = ch; cap = cap; dropped = dropped })
            ≡ record { ch = kept ++ (ev ∷ []); cap = cap; dropped = dropped + length gone })
        × (length kept < cap)
  unfolding deliver pop send
  deliver_cases ev [] cap dropped positive bounded =
      let room : ltb 0 cap ≡ true = lt→ltb 0 cap positive in
      let open_end : (0 == cap) ≡ false = ground arith in
      let same : dropped ≡ dropped + 0 = omega arith in
      ([], [], refl, rw (open_end, room, ← same), positive)
  deliver_cases ev (e ∷ es) cap dropped positive bounded =
      elim (Bool-cases (suc (length es) == cap)) [
        | inl full ↦
            let fits : length es < cap = ground arith in
            (e ∷ [], es, refl, rw (full, lt→ltb (length es) cap fits) refl, fits)
        | inr free ↦
            let fits : suc (length es) < cap = ground arith in
            let same : dropped ≡ dropped + 0 = omega arith in
            ([], e ∷ es, refl, rw (free, lt→ltb (suc (length es)) cap fits, ← same), fits)
      ]

  newest_of :
      (ev : E) (ch : List E) (cap dropped : ℕ)
      → 0 < cap
      → length ch ≤ cap
      → ((deliver ev (record { ch = ch; cap = cap; dropped = dropped })).ch
          ≡ (if length ch == cap then drop 1 ch else ch) ++ (ev ∷ []))
        × ((deliver ev (record { ch = ch; cap = cap; dropped = dropped })).dropped
            ≡ dropped + (if length ch == cap then 1 else 0))
  unfolding deliver pop send
  newest_of ev [] cap dropped positive bounded =
      let room : ltb 0 cap ≡ true = lt→ltb 0 cap positive in
      let not_full : (0 == cap) ≡ false = ground arith in rw (not_full, room) (refl, omega arith)
  newest_of ev (e ∷ es) cap dropped positive bounded = elim (Bool-cases (suc (length es) == cap)) [
    | inl full ↦
        let fits : length es < cap = ground arith in
        rw (full, lt→ltb (length es) cap fits) (refl, refl)
    | inr free ↦
        let fits : suc (length es) < cap = ground arith in
        rw (free, lt→ltb (suc (length es)) cap fits) (refl, omega arith)
  ]

  deliver-Accounts :
      (ev : E) (all : List E) (taken : ℕ) (sub : Subscriber E)
      → Accounts all taken sub
      → Accounts (all ++ (ev ∷ [])) taken (deliver ev sub)
  deliver-Accounts ev all taken sub h =
      let (gone, kept, split, result, fits) =
        deliver_cases ev sub.ch sub.cap sub.dropped h.positive h.bounded in
      let len : length sub.ch ≡ length gone + length kept =
        ap (λ (y : List E). length y) split ∙ length-append gone kept in
      rw result (record {
        before = h.before ++ gone;
        suffix =
            ap (λ (y : List E). y ++ (ev ∷ []))
              (h.suffix
                ∙ ap (λ (y : List E). h.before ++ y) split
                ∙ sym (append_assoc h.before gone kept))
            ∙ append_assoc (h.before ++ gone) kept (ev ∷ []);
        bounded = omega (arith, fits, length-append kept (ev ∷ []));
        positive = h.positive;
        counted =
            omega
              (arith, h.counted, len, length-append kept (ev ∷ []), length-append all (ev ∷ []));
      })

  read-Accounts :
      (all : List E) (taken cap dropped : ℕ) (ch : List E)
      → Accounts all taken (record { ch = ch; cap = cap; dropped = dropped })
      → Accounts all
          (taken + (elim ch [ [] ↦ 0 | e ∷ rest ↦ 1 ]))
          (receive (record { ch = ch; cap = cap; dropped = dropped })).0
  unfolding receive
  read-Accounts all taken cap dropped [] h = let e : taken ≡ taken + 0 = omega arith in rw (← e) h
  read-Accounts all taken cap dropped (c ∷ ch) h = record {
    before = h.before ++ (c ∷ []);
    suffix = h.suffix ∙ sym (append_assoc h.before (c ∷ []) ch);
    bounded = omega (arith, h.bounded);
    positive = h.positive;
    counted = omega (arith, h.counted);
  }

  run-Accounts :
      (es : List (Event E)) (all : List E) (taken : ℕ) (sub : Subscriber E)
      → Accounts all taken sub
      → Accounts (all ++ published es) (taken + received es sub) (run es sub)
  unfolding run published received
  run-Accounts [] all taken sub h =
      let e : taken ≡ taken + 0 = omega arith in rw (append-nil all, ← e) h
  run-Accounts (publish ev ∷ es) all taken sub h =
      rw (← append_assoc all (ev ∷ []) (published es)) (
        run-Accounts es (all ++ (ev ∷ [])) taken (deliver ev sub)
          (deliver-Accounts ev all taken sub h))
  run-Accounts (read ∷ es) all taken sub h =
      let first = elim sub.ch as (λ _. ℕ) [ [] ↦ 0 | e ∷ rest ↦ 1 ] in
      let rest = received es (receive sub).0 in
      let e : taken + first + rest ≡ taken + (first + rest) = omega arith in
      rw (← e) (
        run-Accounts es all (taken + first) (receive sub).0
          (read-Accounts all taken sub.cap sub.dropped sub.ch h))

  start-Accounts : (buf : ℤ) → Accounts [] 0 (new_subscriber buf)
  unfolding new_subscriber
  start-Accounts buf = record {
    before = [];
    suffix = refl;
    bounded = omega arith;
    positive = positive_or_pos 1 buf (omega arith);
    counted = omega arith;
  }

  -- Whatever is published and read, in any order, from the subscription on: what is buffered is the
  -- latest of the published events in their order, no more than the buffer holds, and the numbers of
  -- the dropped, the received and the buffered events add up to that of the published ones.
  pub run-new_subscriber :
      (es : List (Event E)) (buf : ℤ)
      → Accounts (published es) (received es (new_subscriber buf)) (run es (new_subscriber buf))
  run-new_subscriber es buf =
      let n = received es (new_subscriber {E = E} buf) in
      let e : 0 + n ≡ n = omega arith in
      subst (λ (k : ℕ). Accounts (published es) k (run es (new_subscriber buf))) e
        (run-Accounts es [] 0 (new_subscriber buf) (start-Accounts buf))

  -- If the capacity is positive and not exceeded, the new event is always
  -- buffered as the last one, and exactly if the buffer was full the oldest event is dropped.
  pub deliver_newest :
      (ev : E) (sub : Subscriber E)
      → 0 < sub.cap
      → length sub.ch ≤ sub.cap
      → ((deliver ev sub).ch
          ≡ (if length sub.ch == sub.cap then drop 1 sub.ch else sub.ch) ++ (ev ∷ []))
        × ((deliver ev sub).dropped ≡ sub.dropped + (if length sub.ch == sub.cap then 1 else 0))
  deliver_newest ev sub positive bounded = newest_of ev sub.ch sub.cap sub.dropped positive bounded
