-- ===== src/Registry/Refresh.antt =====
-- What the registry says of itself after any sequence of its operations.
use finops_proxy.Prelude.{
  ℕ, ◌+◌, ◌<◌, ◌≡◌, ◌≢◌, ◌⊎◌, inl, inr, refl, arith, Bool, true, false, Bool-cases, Option, none,
  some, List, [], ◌∷◌, Bytes, ℤ,
}
use finops_proxy.GoMap.{Map}
use finops_proxy.Pricing.{ModelPrice, Pricing}
use finops_proxy.Registry.{
  Registry, Config, SourceKind, source_static, source_live, source_stale, RefreshFailure,
  no_fetcher, empty_table, failed, new_registry, refresh_failed, table_of, install, adopt, refresh,
  set_on_sync, replace, replace_live, stale_kind,
}

pub data Event (F E : Type 0) : Type 0 where
  refreshed : E ⊎ Map Bytes ModelPrice → ℕ → Event F E
  hooked : Option (Map Bytes ModelPrice → E ⊎ Pricing F) → Event F E
  replaced : Option (Pricing F) → Event F E
  replaced_live : Option (Pricing F) → ℕ → Event F E

stale_kind_not_live : (k : SourceKind) → stale_kind k ≢ source_live
stale_kind_not_live source_static h = ground arith
stale_kind_not_live source_live h = ground arith
stale_kind_not_live source_stale h = ground arith

stale_kind_static : (k : SourceKind) → stale_kind k ≡ source_static → k ≡ source_static
stale_kind_static source_static h = refl
stale_kind_static source_live h = absurd (ground arith)
stale_kind_static source_stale h = h

module _ {F E : Type 0} where
  unfoldable pub step : Event F E → Registry F E → Registry F E
  unfolding refresh set_on_sync replace replace_live
  step (Event.refreshed fetched now) r = (refresh fetched now r).0
  step (Event.hooked hook) r = set_on_sync hook r
  step (Event.replaced tbl) r = replace tbl r
  step (Event.replaced_live tbl t) r = replace_live tbl t r

  unfoldable pub run : List (Event F E) → Registry F E → Registry F E
  unfolding step
  run [] r = r
  run (e ∷ es) r = run es (step e r)

  -- what the kind, the error and the count of failures say of each other
  pub record IsConsistent (r : Registry F E) : Type 0 where
    pub no_error : r.fails ≡ 0 → r.last_err ≡ none
    pub error : 0 < r.fails → r.last_err ≢ none
    pub live : r.has_fetcher ≡ true → r.kind ≡ source_live → r.fails ≡ 0
    pub stale : r.kind ≡ source_stale → 0 < r.fails
    pub static : r.kind ≡ source_static → r.last_sync ≡ 0

  refresh_failed-IsConsistent :
      (err : RefreshFailure E) (r : Registry F E)
      → IsConsistent r
      → IsConsistent (refresh_failed err r).0
  unfolding refresh_failed
  refresh_failed-IsConsistent err r c = record {
    no_error = λ h. absurd (omega arith);
    error = λ h k. ground arith;
    live = λ h k. absurd (stale_kind_not_live r.kind k);
    stale = λ h. omega arith;
    static = λ h. c.static (stale_kind_static r.kind h);
  }

  live-IsConsistent :
      (tbl : Pricing F) (now : ℕ) (r : Registry F E) → IsConsistent (replace_live (some tbl) now r)
  unfolding replace_live
  live-IsConsistent tbl now r = record {
    no_error = λ h. refl;
    error = λ h. absurd (omega arith);
    live = λ h k. refl;
    stale = λ h. absurd (ground arith);
    static = λ h. absurd (ground arith);
  }

  install-IsConsistent :
      (tbl : E ⊎ Pricing F) (now : ℕ) (r : Registry F E)
      → IsConsistent r
      → IsConsistent (install tbl now r).0
  unfolding install replace_live
  install-IsConsistent (inl e) now r c = refresh_failed-IsConsistent (failed e) r c
  install-IsConsistent (inr tbl) now r c = live-IsConsistent tbl now r

  adopt-IsConsistent :
      (fetched : E ⊎ Map Bytes ModelPrice) (now : ℕ) (r : Registry F E)
      → IsConsistent r
      → IsConsistent (adopt fetched now r).0
  unfolding adopt
  adopt-IsConsistent (inl e) now r c = refresh_failed-IsConsistent (failed e) r c
  adopt-IsConsistent (inr []) now r c = refresh_failed-IsConsistent empty_table r c
  adopt-IsConsistent (inr (entry ∷ models)) now r c =
      install-IsConsistent (table_of (entry ∷ models) r) now r c

  pub refresh_with :
      (fetched : E ⊎ Map Bytes ModelPrice) (now : ℕ) (r : Registry F E)
      → r.has_fetcher ≡ true
      → refresh fetched now r ≡ adopt fetched now r
  unfolding refresh
  refresh_with fetched now r there = rw (refresh, there) refl

  refresh_without :
      (fetched : E ⊎ Map Bytes ModelPrice) (now : ℕ) (r : Registry F E)
      → r.has_fetcher ≡ false
      → refresh fetched now r
        ≡ (record r { last_err = some no_fetcher; fails = r.fails + 1 }, some no_fetcher)
  unfolding refresh
  refresh_without fetched now r absent = rw (refresh, absent) refl

  unfetched-IsConsistent :
      (r : Registry F E)
      → r.has_fetcher ≡ false
      → IsConsistent r
      → IsConsistent (record r { last_err = some no_fetcher; fails = r.fails + 1 })
  unfetched-IsConsistent r absent c = record {
    no_error = λ h. absurd (omega arith);
    error = λ h k. ground arith;
    live = λ h. absurd (ground arith);
    stale = λ h. omega arith;
    static = c.static;
  }

  refresh-IsConsistent :
      (fetched : E ⊎ Map Bytes ModelPrice) (now : ℕ) (r : Registry F E)
      → IsConsistent r
      → IsConsistent (refresh fetched now r).0
  refresh-IsConsistent fetched now r c = elim (Bool-cases r.has_fetcher) [
    | inl there ↦ rw (refresh_with fetched now r there) (adopt-IsConsistent fetched now r c)
    | inr absent ↦ rw (refresh_without fetched now r absent) (unfetched-IsConsistent r absent c)
  ]

  step-IsConsistent : (e : Event F E) (r : Registry F E) → IsConsistent r → IsConsistent (step e r)
  unfolding step set_on_sync replace replace_live
  step-IsConsistent (Event.refreshed fetched now) r c = refresh-IsConsistent fetched now r c
  step-IsConsistent (Event.hooked hook) r c = record {
    no_error = c.no_error;
    error = c.error;
    live = c.live;
    stale = c.stale;
    static = c.static;
  }
  step-IsConsistent (Event.replaced tbl) r c = record {
    no_error = c.no_error;
    error = c.error;
    live = c.live;
    stale = c.stale;
    static = c.static;
  }
  step-IsConsistent (Event.replaced_live none t) r c = live-IsConsistent r.cur t r
  step-IsConsistent (Event.replaced_live (some tbl) t) r c = live-IsConsistent tbl t r

  run_keeps : (es : List (Event F E)) (r : Registry F E) → IsConsistent r → IsConsistent (run es r)
  unfolding run
  run_keeps [] r c = c
  run_keeps (e ∷ es) r c = run_keeps es (step e r) (step-IsConsistent e r c)

  -- After any sequence of refreshes, replacements and changes of the hook, a new registry has an
  -- error exactly if it counts failures since the last success, is stale only then, is live with a
  -- fetcher only if it counts none, and has no time of a success as long as it is static.
  pub run-IsConsistent :
      (es : List (Event F E)) (base : Pricing F) (has_fetcher : Bool) (cfg : Config ℤ)
      → IsConsistent (run es (new_registry base has_fetcher cfg))
  unfolding new_registry
  run-IsConsistent es base has_fetcher cfg =
      run_keeps es (new_registry base has_fetcher cfg) record {
        no_error = λ h. refl;
        error = λ h. absurd (omega arith);
        live = λ h k. refl;
        stale = λ h. absurd (ground arith);
        static = λ h. refl;
      }
