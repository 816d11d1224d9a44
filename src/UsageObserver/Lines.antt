-- ===== src/UsageObserver/Lines.antt =====
-- The loop over the complete lines against the lines of the stream.
use finops_proxy.Prelude.{
  ℕ, zero, suc, ◌+◌, ◌≤◌, ◌≡◌, refl, sym, ap, ◌∙◌, arith, Option, none, some, Option-cases, inl,
  inr, ◌||◌, List, [], ◌∷◌, ◌++◌, Bytes, length, ◌==◌, if◌then◌else◌, false, Bool-cases,
}
use finops_proxy.UsageObserver.{
  Wire, Observer, Chunk, extend_line, cut_line, process_line, parse_sse_payload, payload_of,
  count_chunk, process_pending,
}

-- the lines of a text that a newline ends, and what is after the last of them
abbrev pub add_byte : ℕ → List Bytes × Bytes → List Bytes × Bytes
add_byte c ([], tail) = ([], c ∷ tail)
add_byte c (line ∷ lines, tail) = ((c ∷ line) ∷ lines, tail)

abbrev pub end_line : List Bytes × Bytes → List Bytes × Bytes
end_line (lines, tail) = ([] ∷ lines, tail)

unfoldable pub lines_of : Bytes → List Bytes × Bytes
lines_of [] = ([], [])
lines_of (c ∷ s) = let rest = lines_of s in if c == b'\n' then end_line rest else add_byte c rest

-- what the cut finds
abbrev pub cut_lines : Option (Bytes × Bytes) → Bytes → List Bytes × Bytes
cut_lines none s = ([], s)
cut_lines (some (line, after)) s = (line ∷ (lines_of after).0, (lines_of after).1)

cut_lines_extend :
    (c : ℕ) (o : Option (Bytes × Bytes)) (s : Bytes)
    → add_byte c (cut_lines o s) ≡ cut_lines (extend_line c o) (c ∷ s)
cut_lines_extend c none s = refl
cut_lines_extend c (some (line, after)) s = refl

lines_of-cut_line : (s : Bytes) → lines_of s ≡ cut_lines (cut_line s) s
unfolding lines_of cut_line
lines_of-cut_line [] = refl
lines_of-cut_line (c ∷ s) = elim (Bool-cases (c == b'\n')) [
  | inl e ↦ rw e refl
  | inr e ↦ rw e (ap (add_byte c) (lines_of-cut_line s) ∙ cut_lines_extend c (cut_line s) s)
]

extend_line-some :
    (c : ℕ) (o : Option (Bytes × Bytes)) (line after : Bytes)
    → extend_line c o ≡ some (line, after)
    → (l : Bytes) × (o ≡ some (l, after))
extend_line-some c none line after h = absurd (ground arith)
extend_line-some c (some (l, a)) line after h = (l, ground arith)

cut_here :
    (s line after : Bytes)
    → ◌≡◌ {A = Option (Bytes × Bytes)} (some ([], s)) (some (line, after))
    → s ≡ after
cut_here s line after h = ground arith

cut_line-le : (s line after : Bytes) → cut_line s ≡ some (line, after) → length after + 1 ≤ length s
unfolding cut_line
cut_line-le [] line after h = absurd (ground arith)
cut_line-le (c ∷ s) line after h = elim (Bool-cases (c == b'\n')) [
  | inl e ↦ let same : s ≡ after = cut_here s line after (rw e at h) in rw (← same) (omega arith)
  | inr e ↦
      let shorter = extend_line-some c (cut_line s) line after (rw e at h) in
      omega (arith, cut_line-le s shorter.0 after shorter.1)
]

add_byte-append :
    (c : ℕ) (r : List Bytes × Bytes) (ys : Bytes)
    → (c == b'\n') ≡ false
    → add_byte c (r.0 ++ (lines_of (r.1 ++ ys)).0, (lines_of (r.1 ++ ys)).1) ≡ (
      (add_byte c r).0 ++ (lines_of ((add_byte c r).1 ++ ys)).0,
      (lines_of ((add_byte c r).1 ++ ys)).1,
    )
unfolding lines_of
add_byte-append c ([], tail) ys e = rw e refl
add_byte-append c (line ∷ lines, tail) ys e = refl

-- the lines of two texts in a row: what the first one leaves stands before the second
pub lines_of-append :
    (xs ys : Bytes)
    → lines_of (xs ++ ys) ≡ (
      (lines_of xs).0 ++ (lines_of ((lines_of xs).1 ++ ys)).0,
      (lines_of ((lines_of xs).1 ++ ys)).1,
    )
unfolding lines_of
lines_of-append [] ys = refl
lines_of-append (c ∷ xs) ys = elim (Bool-cases (c == b'\n')) [
  | inl e ↦ rw e (ap end_line (lines_of-append xs ys))
  | inr e ↦ rw e (ap (add_byte c) (lines_of-append xs ys) ∙ add_byte-append c (lines_of xs) ys e)
]

module _ (wire : Wire) where
  unfoldable pub process_all : List Bytes → Observer → Observer
  unfolding process_line
  process_all [] b = b
  process_all (line ∷ lines) b = process_all lines (process_line wire line b)

  pub process_all-append :
      (xs ys : List Bytes) (b : Observer)
      → process_all (xs ++ ys) b ≡ process_all ys (process_all xs b)
  unfolding process_all
  process_all-append [] ys b = refl
  process_all-append (x ∷ xs) ys b = process_all-append xs ys (process_line wire x b)

  -- the bytes that wait for the end of their line
  abbrev pub with_pending : Bytes → Observer → Observer
  with_pending p b = record b { pending = p }

  count_chunk-with_pending :
      (p : Bytes) (o : Option Chunk) (b : Observer)
      → count_chunk o (with_pending p b) ≡ with_pending p (count_chunk o b)
  unfolding count_chunk
  count_chunk-with_pending p none b = refl
  count_chunk-with_pending p (some chunk) b = elim (Option-cases chunk.usage) [
    | inl e ↦ rw (count_chunk, e) refl
    | inr (u, e) ↦ rw (count_chunk, e) refl
  ]

  pub process_line-with_pending :
      (line p : Bytes) (b : Observer)
      → process_line wire line (with_pending p b) ≡ with_pending p (process_line wire line b)
  unfolding process_line parse_sse_payload
  process_line-with_pending line p b = elim (Option-cases (payload_of wire line)) [
    | inl e ↦ rw (process_line, e) refl
    | inr (payload, e) ↦ elim (Bool-cases (b.over_cap || b.have_use)) [
      | inl stop ↦ rw (process_line, e, parse_sse_payload, stop) refl
      | inr go ↦
          rw (process_line, e, parse_sse_payload, go)
            (count_chunk-with_pending p (wire.decode_chunk payload) b)
    ]
  ]

  pub process_all-with_pending :
      (lines : List Bytes) (p : Bytes) (b : Observer)
      → process_all lines (with_pending p b) ≡ with_pending p (process_all lines b)
  unfolding process_all
  process_all-with_pending [] p b = refl
  process_all-with_pending (line ∷ lines) p b =
      ap (process_all lines) (process_line-with_pending line p b)
      ∙ process_all-with_pending lines p (process_line wire line b)

  process_pending-none :
      (fuel : ℕ) (b : Observer) → cut_line b.pending ≡ none → process_pending wire fuel b ≡ b
  unfolding process_pending
  process_pending-none zero b e = refl
  process_pending-none (suc fuel) b e = rw (process_pending, e) refl

  process_pending-some :
      (fuel : ℕ) (line after : Bytes) (b : Observer)
      → cut_line b.pending ≡ some (line, after)
      → process_pending wire (suc fuel) b
        ≡ process_pending wire fuel (with_pending after (process_line wire line b))
  unfolding process_pending
  process_pending-some fuel line after b e =
      rw (process_pending, e)
        (ap (process_pending wire fuel) (process_line-with_pending line after b))

  -- the observer after the lines of a text, of which the last one may be open
  unfoldable pub after_lines : List Bytes × Bytes → Observer → Observer
  unfolding process_all
  after_lines r b = with_pending r.1 (process_all r.0 b)

  after_lines-none :
      (b : Observer) → cut_line b.pending ≡ none → after_lines (lines_of b.pending) b ≡ b
  unfolding after_lines process_all
  after_lines-none b e =
      let open_line : lines_of b.pending ≡ ([], b.pending) =
        lines_of-cut_line b.pending ∙ ap (λ o. cut_lines o b.pending) e in
      ap (λ r. after_lines r b) open_line

  after_lines-some :
      (line after : Bytes) (b : Observer)
      → cut_line b.pending ≡ some (line, after)
      → after_lines (lines_of b.pending) b
        ≡ after_lines (lines_of after) (with_pending after (process_line wire line b))
  unfolding after_lines process_all
  after_lines-some line after b e =
      let cut : lines_of b.pending ≡ (line ∷ (lines_of after).0, (lines_of after).1) =
        lines_of-cut_line b.pending ∙ ap (λ o. cut_lines o b.pending) e in
      ap (λ r. after_lines r b) cut
      ∙ sym (
          ap (with_pending (lines_of after).1)
            (process_all-with_pending (lines_of after).0 after (process_line wire line b)))

  -- As many rounds as there are bytes are enough for the loop: it processes every line that has its
  -- newline, in order, and leaves what comes after the last of them.
  pub process_pending-lines_of :
      (fuel : ℕ) (b : Observer)
      → length b.pending ≤ fuel
      → process_pending wire fuel b ≡ after_lines (lines_of b.pending) b
  process_pending-lines_of zero b h = elim (Option-cases (cut_line b.pending)) [
    | inl e ↦ process_pending-none zero b e ∙ sym (after_lines-none b e)
    | inr ((line, after), e) ↦ absurd (omega (arith, cut_line-le b.pending line after e))
  ]
  process_pending-lines_of (suc fuel) b h = elim (Option-cases (cut_line b.pending)) [
    | inl e ↦ process_pending-none (suc fuel) b e ∙ sym (after_lines-none b e)
    | inr ((line, after), e) ↦
        process_pending-some fuel line after b e
        ∙ process_pending-lines_of fuel (with_pending after (process_line wire line b))
            (omega (arith, cut_line-le b.pending line after e))
        ∙ sym (after_lines-some line after b e)
  ]
