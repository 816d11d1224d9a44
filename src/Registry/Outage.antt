-- ===== src/Registry/Outage.antt =====
-- What the registry serves, and how long it waits, while the catalog cannot be fetched.
use finops_proxy.Prelude.{
  ℕ, zero, suc, ◌+◌, ◌-◌, ◌*◌, ◌^◌, min, ◌≤◌, ◌<◌, ◌≡◌, ◌⊎◌, inl, inr, refl, ap, ◌∙◌, arith, Bool,
  true, false, List, [], ◌∷◌, Bytes, All, length, lt→ltb,
}
use finops_proxy.GoMap.{Map}
use finops_proxy.Pricing.{ModelPrice}
use finops_proxy.Registry.{
  Registry, SourceKind, source_static, source_live, source_stale, refresh_failed, adopt, refresh,
  ticks, stale_kind, next_delay,
}
use finops_proxy.Registry.Refresh.{refresh_with}
use finops_proxy.Registry.Delay.{next_delay-min}

-- a fetch that brings no prices
abbrev pub failing : {E : Type 0} → E ⊎ Map Bytes ModelPrice → Bool
failing (inl e) = true
failing (inr []) = true
failing (inr (entry ∷ models)) = false

-- the kind after some failures
abbrev pub kind_after : ℕ → SourceKind → SourceKind
kind_after zero k = k
kind_after (suc n) k = stale_kind k

-- the registry `r` after the failure of some refreshes
pub record FailedSince {F E : Type 0} (n : ℕ) (r s : Registry F E) : Type 0 where
  pub table : s.cur ≡ r.cur
  pub time : s.last_sync ≡ r.last_sync
  pub count : s.fails ≡ r.fails + n
  pub kind : s.kind ≡ kind_after n r.kind
  pub config : s.cfg ≡ r.cfg
  pub fetcher : s.has_fetcher ≡ r.has_fetcher

stale_kind_twice : (k : SourceKind) → stale_kind (stale_kind k) ≡ stale_kind k
stale_kind_twice source_static = refl
stale_kind_twice source_live = refl
stale_kind_twice source_stale = refl

module _ {F E : Type 0} where
  adopt-failing :
      (fetched : E ⊎ Map Bytes ModelPrice) (now : ℕ) (r : Registry F E)
      → failing fetched ≡ true
      → FailedSince 1 r (adopt fetched now r).0
  unfolding adopt refresh_failed
  adopt-failing (inl e) now r h = record {
    table = refl;
    time = refl;
    count = refl;
    kind = refl;
    config = refl;
    fetcher = refl;
  }
  adopt-failing (inr []) now r h = record {
    table = refl;
    time = refl;
    count = refl;
    kind = refl;
    config = refl;
    fetcher = refl;
  }
  adopt-failing (inr (entry ∷ models)) now r h = absurd (ground arith)

  refresh-failing :
      (fetched : E ⊎ Map Bytes ModelPrice) (now : ℕ) (r : Registry F E)
      → r.has_fetcher ≡ true
      → failing fetched ≡ true
      → FailedSince 1 r (refresh fetched now r).0
  unfolding refresh
  refresh-failing fetched now r there h =
      rw (refresh_with fetched now r there) (adopt-failing fetched now r h)

  kind_next :
      (n : ℕ) (r s t : Registry F E)
      → s.kind ≡ stale_kind r.kind
      → t.kind ≡ kind_after n s.kind
      → t.kind ≡ stale_kind r.kind
  kind_next zero r s t a b = b ∙ a
  kind_next (suc n) r s t a b = b ∙ ap stale_kind a ∙ stale_kind_twice r.kind

  FailedSince-next :
      (n : ℕ) (r s t : Registry F E)
      → FailedSince 1 r s
      → FailedSince n s t
      → FailedSince (suc n) r t
  FailedSince-next n r s t a b = record {
    table = b.table ∙ a.table;
    time = b.time ∙ a.time;
    count = omega (arith, a.count, b.count);
    kind = kind_next n r s t a.kind b.kind;
    config = b.config ∙ a.config;
    fetcher = b.fetcher ∙ a.fetcher;
  }

  ticks-failing :
      (rounds : List ((E ⊎ Map Bytes ModelPrice) × ℕ)) (r : Registry F E)
      → r.has_fetcher ≡ true
      → All (λ e. failing e.0 ≡ true) rounds
      → FailedSince (length rounds) r (ticks rounds r)
  unfolding ticks
  ticks-failing [] r there h = record {
    table = refl;
    time = refl;
    count = omega arith;
    kind = refl;
    config = refl;
    fetcher = refl;
  }
  ticks-failing ((fetched, now) ∷ rest) r there (h, hs) =
      let first = refresh-failing fetched now r there h in
      FailedSince-next (length rest) r (refresh fetched now r).0
        (ticks rest (refresh fetched now r).0) first
        (ticks-failing rest (refresh fetched now r).0 (first.fetcher ∙ there) hs)

  -- While the catalog cannot be fetched, or has no prices, the table and the time of the last
  -- success stay, every failure is counted, and a live table is called stale, a static one static.
  -- The delay after n failures since a success, n positive, is the base of the backoff times
  -- 2^(n-1), no more than the largest backoff or the interval, if these are in range.
  pub ticks_outage :
      (rounds : List ((E ⊎ Map Bytes ModelPrice) × ℕ)) (r : Registry F E)
      → r.has_fetcher ≡ true
      → All (λ e. failing e.0 ≡ true) rounds
      → 0 < length rounds
      → r.fails ≡ 0
      → r.cfg.refresh_interval < 2 ^ 63
      → r.cfg.backoff_max ≤ 2 ^ 62
      → r.cfg.backoff_base < 2 ^ 63
      → FailedSince (length rounds) r (ticks rounds r)
        × (next_delay (ticks rounds r)
            ≡ min r.cfg.refresh_interval
                (min r.cfg.backoff_max (r.cfg.backoff_base * 2 ^ (length rounds - 1))))
  ticks_outage rounds r there h some_round fresh hi hm hb =
      let since = ticks-failing rounds r there h in
      let t = ticks rounds r in
      let interval : t.cfg.refresh_interval < 2 ^ 63 = rw since.config hi in
      let most : t.cfg.backoff_max ≤ 2 ^ 62 = rw since.config hm in
      let base : t.cfg.backoff_base < 2 ^ 63 = rw since.config hb in
      let count : t.fails ≡ length rounds = omega (arith, since.count) in
      (
        since,
        rw
            (
              next_delay-min t interval most base,
              since.config,
              count,
              lt→ltb 0 (length rounds) some_round,
            )
            refl,
      )
