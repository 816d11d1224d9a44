-- ===== src/ToolMatcher/Repeats.antt =====
-- What tool_matcher.go makes of requests that list the same tools each time.
use finops_proxy.Prelude.{
  ℕ, zero, suc, ◌+◌, ◌-◌, ◌*◌, ◌≤◌, ◌<◌, ◌≡◌, refl, ◌∙◌, sym, ap, some, List, [], ◌∷◌, ◌++◌, arith,
  length, drop, last, leb, ltb, Bytes, length-append, drop_front, drop-append, drop-drop,
  Bool-cases, inl, inr, append_assoc, lt→ltb, ◌==◌, All, subst,
}
use finops_proxy.Detector.{CheckResult}
use finops_proxy.ToolMatcher.{
  ToolConfig, ToolState, repeats_at, detect_from, detect_cycle, push, confirm, renew, judge,
  observe,
}
use finops_proxy.ToolMatcher.Cycle.{tail2, repeats_at-halves}

module _ (xs ys : List Bytes) where
  tail2-append : (p : ℕ) → 2 * p ≤ length ys → tail2 p (xs ++ ys) ≡ tail2 p ys
  tail2-append p fits =
      let e : length (xs ++ ys) - 2 * p ≡ length xs + (length ys - 2 * p) =
        omega (arith, length-append xs ys) in
      ap (λ (n : ℕ). drop n (xs ++ ys)) e
      ∙ sym (drop-drop (length ys - 2 * p) (length xs) (xs ++ ys))
      ∙ ap (drop (length ys - 2 * p)) (drop_front xs ys)

  repeats_at-append : (p : ℕ) → 2 * p ≤ length ys → repeats_at p (xs ++ ys) ≡ repeats_at p ys
  repeats_at-append p fits =
      repeats_at-halves p (xs ++ ys) (omega (arith, length-append xs ys))
      ∙ rw (tail2-append p fits) (sym (repeats_at-halves p ys fits))

  detect_from-append :
      (rounds p q : ℕ) → detect_from rounds p ys ≡ some q → detect_from rounds p (xs ++ ys) ≡ some q
  unfolding detect_from
  detect_from-append zero p q h = h
  detect_from-append (suc rounds) p q h =
      ground (arith, length-append xs ys, repeats_at-append p, detect_from-append rounds (p + 1) q)

  -- What came before does not change a period that is detected.
  pub detect_cycle-append :
      (max_period q : ℕ)
      → detect_cycle ys max_period ≡ some q
      → detect_cycle (xs ++ ys) max_period ≡ some q
  unfolding detect_cycle
  detect_cycle-append max_period q = detect_from-append (max_period - 1) 2 q

last-append :
    (cap : ℕ) (pre ys : List Bytes)
    → length ys ≤ cap
    → last cap (pre ++ ys) ≡ drop (length (pre ++ ys) - cap) pre ++ ys
last-append cap pre ys h =
    let e : length (pre ++ ys) - cap - length pre ≡ 0 = omega (arith, length-append pre ys) in
    drop-append (length (pre ++ ys) - cap) pre ys
    ∙ ap (λ (k : ℕ). drop (length (pre ++ ys) - cap) pre ++ drop k ys) e

pub renew_live :
    (cfg : ToolConfig) (now : ℕ) (st : ToolState) → now < st.expires → renew cfg now st ≡ st
unfolding renew
renew_live cfg now st h = rw (lt→ltb now st.expires h)

-- the requests of one agent with the same names, one at each of the times
unfoldable pub observe_all :
    ToolConfig → List Bytes → List ℕ → ToolState × CheckResult → ToolState × CheckResult
observe_all cfg names [] r = r
observe_all cfg names (now ∷ times) r = observe_all cfg names times (observe cfg names now r.0)

module _ (cfg : ToolConfig) (names : List Bytes) (expires q : ℕ) where
  -- After `n` repeats in one window.
  pub record Repeating (n : ℕ) (st : ToolState) : Type 0 where
    pub ends : (pre : List Bytes) × (st.seq ≡ pre ++ names)
    pub window : st.expires ≡ expires
    pub counted : n ≤ st.confirms
    pub settled : 0 < n → st.period ≡ q

  push-Repeating :
      (n : ℕ) (st : ToolState)
      → Repeating n st
      → (pre : List Bytes) → (push names cfg.max_seq st).seq ≡ pre ++ names
      → Repeating n (push names cfg.max_seq st)
  unfolding push
  push-Repeating n st r pre e = record {
    ends = (pre, e);
    window = r.window;
    counted = r.counted;
    settled = r.settled;
  }

  pub judge-Repeating :
      (n now : ℕ) (st : ToolState) → Repeating n st → Repeating n (judge cfg now st).0
  unfolding judge
  judge-Repeating n now st r = elim (Bool-cases (leb cfg.limit st.confirms)) [
    | inl reached ↦
        rw reached
          (record { ends = r.ends; window = r.window; counted = r.counted; settled = r.settled })
    | inr free ↦ rw free r
  ]

  confirm-Repeating :
      (n : ℕ) (st : ToolState) → Repeating n st → Repeating (n + 1) (confirm (some q) st)
  unfolding confirm
  confirm-Repeating n st r = elim (Bool-cases (q == st.period)) [
    | inl again ↦ rw again (record {
      ends = r.ends;
      window = r.window;
      counted = omega (arith, r.counted);
      settled = λ h. ground arith;
    })
    | inr new ↦ rw new (record {
      ends = r.ends;
      window = r.window;
      counted = ground (arith, r.counted, r.settled);
      settled = λ h. refl;
    })
  ]

  module _ (found : detect_cycle (names ++ names) cfg.max_period ≡ some q)
      (fits : 2 * length names ≤ cfg.max_seq) where
    push-ends :
        (st : ToolState) (pre : List Bytes)
        → st.seq ≡ pre ++ names
        → (rest : List Bytes) × ((push names cfg.max_seq st).seq ≡ rest ++ (names ++ names))
    unfolding push
    push-ends st pre e =
        let whole : st.seq ++ names ≡ pre ++ (names ++ names) =
          rw e (append_assoc pre names names) in
        elim (Bool-cases (ltb cfg.max_seq (length (st.seq ++ names)))) [
          | inl long ↦ (
            drop (length (pre ++ (names ++ names)) - cfg.max_seq) pre,
            rw (long, whole)
                (last-append cfg.max_seq pre (names ++ names)
                  (omega (arith, length-append names names))),
          )
          | inr short ↦ (pre, rw short whole)
        ]

    -- One more request with the same names.
    observe-Repeating :
        (n now : ℕ) (st : ToolState)
        → now < expires
        → Repeating n st
        → Repeating (n + 1) (observe cfg names now st).0
    unfolding observe
    observe-Repeating n now st live r =
        let (pre, e) = r.ends in
        let (rest, pushed) = push-ends st pre e in
        let same_state : renew cfg now st ≡ st = renew_live cfg now st (omega (arith, r.window)) in
        let st' = push names cfg.max_seq st in
        let detected : detect_cycle st'.seq cfg.max_period ≡ some q =
          ap (λ (x : List Bytes). detect_cycle x cfg.max_period) pushed
          ∙ detect_cycle-append rest (names ++ names) cfg.max_period q found in
        rw (same_state, detected)
          (judge-Repeating (n + 1) now (confirm (some q) st') (
            confirm-Repeating n st' (
              push-Repeating n st r (rest ++ names)
                (pushed ∙ sym (append_assoc rest names names)))))

    -- After more requests than the limit asks for, the last one is blocked.
    pub observe_all_counted :
        (times : List ℕ) (n : ℕ) (r : ToolState × CheckResult)
        → All (λ t. t < expires) times
        → Repeating n r.0
        → Repeating (n + length times) (observe_all cfg names times r).0
    unfolding observe_all
    observe_all_counted [] n r live h = let e : n ≡ n + 0 = omega arith in rw (← e) h
    observe_all_counted (now ∷ times) n r live h =
        let e : n + 1 + length times ≡ n + suc (length times) = omega arith in
        subst (λ (k : ℕ). Repeating k (observe_all cfg names (now ∷ times) r).0) e
          (observe_all_counted times (n + 1) (observe cfg names now r.0) live.1
            (observe-Repeating n now r.0 live.0 h))
