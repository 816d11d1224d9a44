-- ===== src/HashDetector/Window.antt =====
-- The verdicts of hash_detector.go against the count of sightings of `HashDetector.History`.
use finops_proxy.Prelude.{
  ℕ, ◌+◌, ◌≤◌, ◌<◌, ◌≡◌, refl, Option, none, some, List, [], ◌∷◌, arith, length, same, bytes_eq,
  inl, inr,
}
use finops_proxy.GoMap.{IsMap, lookup}
use finops_proxy.GoMap.Laws.{lookup-insert, length-insert-le}
use finops_proxy.GoMap.Evict.{evict_room}
use finops_proxy.Detector.{AgentId, Fingerprint}
use finops_proxy.HashDetector.{
  Key, key_eq, Entry, HashDetector, set_limit, evict_if_needed, open_window, count_repeat, check,
}
use finops_proxy.HashDetector.History.{
  Call, check_call, reset_call, limit_call, call, calls, Sightings, see, note, sightings, limit_now,
  limit_after, verdict,
}
use finops_proxy.HashDetector.Steps.{
  key, IsOver, check_cases, repeat_state, repeat_block, check_config,
}
use finops_proxy.HashDetector.Reset.{lookup-reset, length-reset-le, reset-IsMap, reset_config}
use finops_proxy.HashDetector.Capacity.{check-IsValid}

-- The window of a key as the detector has it, and as the sightings give it: end and count.
abbrev entry_window : Option Entry → Option (ℕ × ℕ)
entry_window none = none
entry_window (some e) = some (e.expires, e.count)

abbrev sighted_window : ℕ → Sightings → Option (ℕ × ℕ)
sighted_window ttl none = none
sighted_window ttl (some (opened, n)) = some (opened + ttl, n)

record Tracks (k : Key) (ttl limit max : ℕ) (s : Sightings) (d : HashDetector) : Type 0 where
  window : entry_window (lookup k d.seen) ≡ sighted_window ttl s
  ttl_kept : d.ttl ≡ ttl
  limit_set : d.limit ≡ limit
  max_kept : d.max ≡ max

see_over :
    (ttl now : ℕ) (o : Option Entry) (s : Sightings)
    → IsOver now o
    → entry_window o ≡ sighted_window ttl s
    → sighted_window ttl (see ttl now s) ≡ some (now + ttl, 1)
unfolding see
see_over ttl now none none over w = refl
see_over ttl now none (some (opened, n)) over w = cc
see_over ttl now (some e) none over w = refl
see_over ttl now (some e) (some (opened, n)) over w = ground arith

see_live :
    (ttl now : ℕ) (e : Entry) (s : Sightings)
    → now < e.expires
    → some (e.expires, e.count) ≡ sighted_window ttl s
    → sighted_window ttl (see ttl now s) ≡ some (e.expires, e.count + 1)
unfolding see
see_live ttl now e none live w = cc
see_live ttl now e (some (opened, n)) live w = ground arith

repeat_window :
    (limit : ℕ) (e : Entry) (now : ℕ)
    → entry_window (some (count_repeat limit e now).0) ≡ some (e.expires, e.count + 1)
unfolding count_repeat
repeat_window limit e now = ground arith

module _ (d : HashDetector) (room : length d.seen < d.max) where
  no_eviction : evict_if_needed d ≡ d.seen
  unfolding evict_if_needed
  no_eviction = evict_room (λ (e : Entry). e.expires) (length d.seen) d.max d.seen room

  module _ (agent : AgentId) (fp : Fingerprint) (now : ℕ) where
    pub length-check-le : length (check agent fp now d).0.seen ≤ length d.seen + 1
    unfolding open_window
    length-check-le = elim (check_cases d agent fp now) [
      | inl (opens, _) ↦ rw (opens, no_eviction) (length-insert-le (key agent fp) _ d.seen)
      | inr (e, found, _, repeats) ↦
          rw (repeats, repeat_state d (key agent fp) e now)
            (length-insert-le (key agent fp) (count_repeat d.limit e now).0 d.seen)
    ]

    module _ (k : Key) {ttl limit max : ℕ} {s : Sightings} (t : Tracks k ttl limit max s d) where
      check_window :
          entry_window (lookup k (check agent fp now d).0.seen)
          ≡ sighted_window ttl (note k ttl (check_call agent fp now) s)
      unfolding open_window note
      check_window = elim (check_cases d agent fp now) [
        | inl (opens, over) ↦
            rw (opens, no_eviction, lookup-insert (key agent fp) k)
              (elim (same (key agent fp) k) [
                | yes p ↦ ground (
                  arith,
                  see_over ttl now (lookup k d.seen) s (rw p at over) t.window,
                  t.ttl_kept,
                )
                | no p ↦ ground (arith, t.window)
              ])
        | inr (e, found, live, repeats) ↦
            rw (repeats, repeat_state d (key agent fp) e now, lookup-insert (key agent fp) k)
              (elim (same (key agent fp) k) [
                | yes p ↦
                    let here : lookup k d.seen ≡ some e = rw p at found in
                    ground (
                      arith,
                      here,
                      see_live ttl now e s live (rw here at t.window),
                      repeat_window d.limit e now,
                    )
                | no p ↦ ground (arith, t.window)
              ])
      ]

module _ (k : Key) {ttl limit max : ℕ} {s : Sightings} (d : HashDetector) where
  call-Tracks :
      (c : Call)
      → length d.seen < d.max
      → IsMap d.seen
      → Tracks k ttl limit max s d
      → Tracks k ttl (limit_now c limit) max (note k ttl c s) (call c d)
  unfolding call note
  call-Tracks (check_call agent fp now) room v t = record {
    window = check_window d room agent fp now k t;
    ttl_kept = rw (← check_config d agent fp now) t.ttl_kept;
    limit_set = rw (← check_config d agent fp now) t.limit_set;
    max_kept = rw (← check_config d agent fp now) t.max_kept;
  }
  call-Tracks (reset_call agent) room v t = record {
    window = rw (lookup-reset agent d k v) (ground (arith, t.window));
    ttl_kept = rw (← reset_config agent d) t.ttl_kept;
    limit_set = rw (← reset_config agent d) t.limit_set;
    max_kept = rw (← reset_config agent d) t.max_kept;
  }
  call-Tracks (limit_call n) room v t =
      unfold set_limit in
      record { window = t.window; ttl_kept = t.ttl_kept; limit_set = refl; max_kept = t.max_kept }

module _ (d : HashDetector) (room : length d.seen < d.max) where
  call-IsMap : (c : Call) → IsMap d.seen → IsMap (call c d).seen
  unfolding call set_limit
  call-IsMap (check_call agent fp now) v =
      (check-IsValid d (record { positive = omega arith; bounded = omega arith; distinct = v })
        agent fp now).distinct
  call-IsMap (reset_call agent) v = reset-IsMap agent d v
  call-IsMap (limit_call n) v = v

  length-call-le : (c : Call) → length (call c d).seen ≤ length d.seen + 1
  unfolding call set_limit
  length-call-le (check_call agent fp now) = length-check-le d room agent fp now
  length-call-le (reset_call agent) = omega (arith, length-reset-le agent d)
  length-call-le (limit_call n) = omega arith

calls-Tracks :
    (cs : List Call) (k : Key) {ttl limit max : ℕ} {s : Sightings} (d : HashDetector)
    → length d.seen + length cs ≤ max
    → IsMap d.seen
    → Tracks k ttl limit max s d
    → Tracks k ttl (limit_after cs limit) max (sightings k ttl cs s) (calls cs d)
unfolding calls sightings limit_after
calls-Tracks [] k d room v t = t
calls-Tracks (c ∷ cs) k {ttl} {limit} {max} {s} d room v t =
    let fits : length d.seen < d.max = omega (arith, t.max_kept) in
    calls-Tracks cs k (call c d) (omega (arith, length-call-le d fits c)) (call-IsMap d fits c v)
      (call-Tracks k d c fits v t)

over_closed :
    (now c n : ℕ) (o : Option Entry) → IsOver now o → entry_window o ≡ some (c, n) → c ≤ now
over_closed now c n none over w = absurd (ground arith)
over_closed now c n (some e) over w = ground arith

-- The verdict is read off the window.
verdict_of_window :
    (s : Sightings) (d : HashDetector) (agent : AgentId) (fp : Fingerprint) (now : ℕ)
    {ttl limit max : ℕ}
    → Tracks (key agent fp) ttl limit max s d
    → (check agent fp now d).1.block ≡ verdict limit ttl now s
unfolding open_window
verdict_of_window none d agent fp now t = elim (check_cases d agent fp now) [
  | inl (opens, over) ↦ rw opens
  | inr (e, found, live, repeats) ↦ cc (found, t.window)
]
verdict_of_window (some (opened, n)) d agent fp now {ttl = ttl} t =
    elim (check_cases d agent fp now) [
      | inl (opens, over) ↦ rw opens (
          ground
            (arith, over_closed now (opened + ttl) n (lookup (key agent fp) d.seen) over t.window))
      | inr (e, found, live, repeats) ↦
          rw (repeats, repeat_block d (key agent fp) e now)
            (ground (arith, found, t.window, t.limit_set))
    ]

-- From an empty detector, after any calls that are at most `max` in number, a check is blocked
-- exactly if the key's window is open and this sighting in it is at least the `limit`-th, by the
-- limit last set. Windows are those of the sightings alone: they open at a first sighting, last
-- `ttl`, and end early when the agent is reset.
pub check-verdict :
    (ttl limit max : ℕ) (cs : List Call) (agent : AgentId) (fp : Fingerprint) (now : ℕ)
    → length cs ≤ max
    → (check agent fp now
        (calls cs (record { seen = []; ttl = ttl; limit = limit; max = max }))).1.block
      ≡ verdict (limit_after cs limit) ttl now (sightings (key agent fp) ttl cs none)
unfolding open_window lookup
check-verdict ttl limit max cs agent fp now room =
    let d : HashDetector = calls cs (record { seen = []; ttl = ttl; limit = limit; max = max }) in
    let t =
      calls-Tracks cs (key agent fp) {s = none}
        (record { seen = []; ttl = ttl; limit = limit; max = max }) (omega arith) tt
        (record { window = refl; ttl_kept = refl; limit_set = refl; max_kept = refl }) in
    verdict_of_window (sightings (key agent fp) ttl cs none) d agent fp now t
