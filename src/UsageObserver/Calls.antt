-- ===== src/UsageObserver/Calls.antt =====
-- The cost of a call is recorded once, whatever is done with the body.
use finops_proxy.Prelude.{
  ◌≡◌, refl, sym, ap, ◌∙◌, arith, List, [], ◌∷◌, ◌++◌, map, Bool, true, false, Bytes, length,
  if◌then◌else◌, ltb, Bool-cases, inl, inr,
}
use finops_proxy.UsageObserver.{Wire, Observer, Usage, parse_chunk, tokens, finalize, read, close}
use finops_proxy.UsageObserver.Chunks.{parse_chunks}
use finops_proxy.UsageObserver.Once.{if_once, parse_chunk_once}

-- what the reverse proxy does with the body
pub data Access : Type 0 where
  reads : Bytes → Bool → Access
  closes : Access

abbrev pub ends : Access → Bool
ends (Access.reads chunk eof) = eof
ends Access.closes = true

-- the chunk that it brings
abbrev pub brings : Access → List Bytes
brings (Access.reads chunk eof) = chunk ∷ []
brings Access.closes = []

-- the chunks that have bytes: a read may return none, with io.EOF and without
unfoldable pub full : List Bytes → List Bytes
full [] = []
full (chunk ∷ chunks) =
    let rest = full chunks in if ltb 0 (length chunk) then chunk ∷ rest else rest

abbrev pub passes : Bytes → Access
passes chunk = Access.reads chunk false

module _ (wire : Wire) where
  unfoldable pub access : Access → Observer → Observer × List Usage
  unfolding read close
  access (Access.reads chunk eof) b = read wire chunk eof b
  access Access.closes b = close wire b

  -- the calls of `onCost` that a sequence of accesses makes
  unfoldable pub calls : List Access → Observer → List Usage
  unfolding access
  calls [] b = []
  calls (a ∷ later) b = (access a b).1 ++ calls later (access a b).0

  finalize_done : (b : Observer) → b.once ≡ true → finalize wire b ≡ (b, [])
  unfolding finalize
  finalize_done b h = rw (finalize, h) refl

  finalize_first :
      (b : Observer)
      → b.once ≡ false
      → finalize wire b ≡ (record b { once = true }, tokens wire b ∷ [])
  unfolding finalize
  finalize_first b h = rw (finalize, h) refl

  finalize_if_done :
      (eof : Bool) (b : Observer)
      → b.once ≡ true
      → (if eof then finalize wire b else (b, [])) ≡ (b, [])
  finalize_if_done true b h = finalize_done b h
  finalize_if_done false b h = refl

  access_done :
      (a : Access) (b : Observer)
      → b.once ≡ true
      → ((access a b).1 ≡ []) × ((access a b).0.once ≡ true)
  unfolding access read close
  access_done (Access.reads chunk eof) b h =
      let seen = if ltb 0 (length chunk) then parse_chunk wire chunk b else b in
      let once : seen.once ≡ true =
        if_once (ltb 0 (length chunk)) _ _ true (parse_chunk_once wire chunk b ∙ h) h in
      let same = finalize_if_done eof seen once in
      (ap (λ r. r.1) same, ap (λ r. r.0.once) same ∙ once)
  access_done Access.closes b h =
      let same = finalize_done b h in (ap (λ r. r.1) same, ap (λ r. r.0.once) same ∙ h)

  calls_done : (accesses : List Access) (b : Observer) → b.once ≡ true → calls accesses b ≡ []
  unfolding calls
  calls_done [] b h = refl
  calls_done (a ∷ later) b h =
      let done = access_done a b h in
      ap (λ us. us ++ calls later (access a b).0) done.0 ∙ calls_done later (access a b).0 done.1

  -- the state after a read, up to the end
  abbrev pub observed : Bytes → Observer → Observer
  observed chunk b = if ltb 0 (length chunk) then parse_chunk wire chunk b else b

  observed_once : (chunk : Bytes) (b : Observer) → (observed chunk b).once ≡ b.once
  observed_once chunk b =
      if_once (ltb 0 (length chunk)) _ _ b.once (parse_chunk_once wire chunk b) refl

  parse_chunks-full :
      (chunk : Bytes) (chunks : List Bytes) (b : Observer)
      → parse_chunks wire (full (chunk ∷ chunks)) b
        ≡ parse_chunks wire (full chunks) (observed chunk b)
  unfolding parse_chunks full
  parse_chunks-full chunk chunks b = elim (Bool-cases (ltb 0 (length chunk))) [
    | inl some_bytes ↦ rw some_bytes refl
    | inr empty ↦ rw empty refl
  ]

  access-passes : (chunk : Bytes) (b : Observer) → access (passes chunk) b ≡ (observed chunk b, [])
  unfolding access read
  access-passes chunk b = refl

  access_ends :
      (final : Access) (b : Observer)
      → ends final ≡ true
      → b.once ≡ false
      → ((access final b).1 ≡ tokens wire (parse_chunks wire (full (brings final)) b) ∷ [])
        × ((access final b).0.once ≡ true)
  unfolding access read close parse_chunks full
  access_ends (Access.reads chunk true) b e fresh =
      let first = finalize_first (observed chunk b) (observed_once chunk b ∙ fresh) in
      (
        ap (λ r. r.1) first ∙ ap (λ o. tokens wire o ∷ []) (sym (parse_chunks-full chunk [] b)),
        ap (λ r. r.0.once) first,
      )
  access_ends (Access.reads chunk false) b e fresh = absurd (ground arith)
  access_ends Access.closes b e fresh =
      let first = finalize_first b fresh in (ap (λ r. r.1) first, ap (λ r. r.0.once) first)

  -- The first end of a body, an io.EOF with or without bytes or a Close, records its cost, with the
  -- tokens of all bytes up to it, and nothing that is done with the body later records it again.
  pub calls_once :
      (chunks : List Bytes) (final : Access) (later : List Access) (b : Observer)
      → ends final ≡ true
      → b.once ≡ false
      → calls (map passes chunks ++ (final ∷ later)) b
        ≡ tokens wire (parse_chunks wire (full (chunks ++ brings final)) b) ∷ []
  unfolding calls
  calls_once [] final later b e fresh =
      let done = access_ends final b e fresh in
      ap (λ us. us ++ calls later (access final b).0) done.0
      ∙ ap (λ us. (tokens wire (parse_chunks wire (full (brings final)) b) ∷ []) ++ us)
          (calls_done later (access final b).0 done.1)
  calls_once (chunk ∷ chunks) final later b e fresh =
      ap (λ r. r.1 ++ calls (map passes chunks ++ (final ∷ later)) r.0) (access-passes chunk b)
      ∙ calls_once chunks final later (observed chunk b) e (observed_once chunk b ∙ fresh)
      ∙ ap (λ o. tokens wire o ∷ []) (sym (parse_chunks-full chunk (chunks ++ brings final) b))
