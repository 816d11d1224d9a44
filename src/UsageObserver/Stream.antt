-- ===== src/UsageObserver/Stream.antt =====
-- What the observer counts of an event stream, in whatever chunks it arrives.
use finops_proxy.Prelude.{
  ℕ, ◌≤◌, ◌≡◌, refl, sym, ap, ◌∙◌, arith, Option, none, some, Option-cases, inl, inr, List, [], ◌∷◌,
  ◌++◌, Bytes, length, true, le→ltb_false,
}
use finops_proxy.UsageObserver.{
  Wire, Observer, Usage, Chunk, usage_buffer_cap, new_observer, process_line, parse_sse_payload,
  payload_of, count_chunk, add_lengths, feed_sse, parse_chunk, process_pending, tokens,
  estimate_completion_tokens,
}
use finops_proxy.UsageObserver.Lines.{
  lines_of, process_all, with_pending, after_lines, process_pending-lines_of,
}

-- the usage that was found, and the length of the contents before it
abbrev pub Count : Type 0
Count = Option Usage × ℕ

abbrev pub count_of : Option Chunk → Count → Count
count_of o (some u, n) = (some u, n)
count_of none (none, n) = (none, n)
count_of (some chunk) (none, n) = elim chunk.usage [
  | some u ↦ (some u, n)
  | none ↦ (none, add_lengths n chunk.contents)
]

-- an observer of a stream that has counted so much, and waits for the end of a line
abbrev pub seen : ℕ → Bytes → Count → Observer
seen prompt_tok pending (none, n) = record (new_observer prompt_tok true) {
  pending = pending;
  delta_ch = n;
}
seen prompt_tok pending (some u, n) = record (new_observer prompt_tok true) {
  pending = pending;
  delta_ch = n;
  have_use = true;
  use_p = u.prompt_tokens;
  use_c = u.completion_tokens;
}

-- the counts as the tokens of a call
abbrev pub usage_of : ℕ → Count → Usage
usage_of prompt_tok (some u, n) = u
usage_of prompt_tok (none, n) = record {
  prompt_tokens = prompt_tok;
  completion_tokens = estimate_completion_tokens n;
}

pub tokens-seen :
    (wire : Wire) (k : ℕ) (p : Bytes) (c : Count) → tokens wire (seen k p c) ≡ usage_of k c
unfolding tokens
tokens-seen wire k p (none, n) = refl
tokens-seen wire k p (some u, n) = refl

count_chunk-seen :
    (o : Option Chunk) (k : ℕ) (p : Bytes) (n : ℕ)
    → count_chunk o (seen k p (none, n)) ≡ seen k p (count_of o (none, n))
unfolding count_chunk
count_chunk-seen none k p n = refl
count_chunk-seen (some chunk) k p n = elim (Option-cases chunk.usage) [
  | inl e ↦ rw (count_chunk, count_of, e) refl
  | inr (u, e) ↦ rw (count_chunk, count_of, e) refl
]

module _ (wire : Wire) where
  -- what a line says of the tokens, nothing if it is no event with a payload that decodes
  abbrev pub line_chunk : Bytes → Option Chunk
  line_chunk line = elim (payload_of wire line) [
    | none ↦ none
    | some payload ↦ wire.decode_chunk payload
  ]

  -- the tokens that a stream of these lines reports: the first usage in it, and the length of all
  -- contents before that
  unfoldable pub count_lines : List Bytes → Count → Count
  count_lines [] c = c
  count_lines (line ∷ lines) c = count_lines lines (count_of (line_chunk line) c)

  parse_sse_payload-seen :
      (payload : Bytes) (k : ℕ) (p : Bytes) (c : Count)
      → parse_sse_payload wire payload (seen k p c)
        ≡ seen k p (count_of (wire.decode_chunk payload) c)
  unfolding parse_sse_payload
  parse_sse_payload-seen payload k p (none, n) = count_chunk-seen (wire.decode_chunk payload) k p n
  parse_sse_payload-seen payload k p (some u, n) = refl

  count_nothing : (c : Count) → count_of none c ≡ c
  count_nothing (none, n) = refl
  count_nothing (some u, n) = refl

  process_line-seen :
      (line : Bytes) (k : ℕ) (p : Bytes) (c : Count)
      → process_line wire line (seen k p c) ≡ seen k p (count_of (line_chunk line) c)
  unfolding process_line
  process_line-seen line k p c = elim (Option-cases (payload_of wire line)) [
    | inl e ↦ rw (process_line, line_chunk, e) (ap (seen k p) (sym (count_nothing c)))
    | inr (payload, e) ↦ rw (process_line, line_chunk, e) (parse_sse_payload-seen payload k p c)
  ]

  process_all-seen :
      (lines : List Bytes) (k : ℕ) (p : Bytes) (c : Count)
      → process_all wire lines (seen k p c) ≡ seen k p (count_lines lines c)
  unfolding process_all count_lines
  process_all-seen [] k p c = refl
  process_all-seen (line ∷ lines) k p c =
      ap (process_all wire lines) (process_line-seen line k p c)
      ∙ process_all-seen lines k p (count_of (line_chunk line) c)

  seen-with_pending :
      (k : ℕ) (p q : Bytes) (c : Count) → with_pending wire q (seen k p c) ≡ seen k q c
  seen-with_pending k p q (none, n) = refl
  seen-with_pending k p q (some u, n) = refl

  pending-seen : (k : ℕ) (p : Bytes) (c : Count) → (seen k p c).pending ≡ p
  pending-seen k p (none, n) = refl
  pending-seen k p (some u, n) = refl

  after_lines-seen :
      (r : List Bytes × Bytes) (k : ℕ) (p : Bytes) (c : Count)
      → after_lines wire r (seen k p c) ≡ seen k r.1 (count_lines r.0 c)
  unfolding after_lines
  after_lines-seen r k p c =
      ap (with_pending wire r.1) (process_all-seen r.0 k p c)
      ∙ seen-with_pending k p r.1 (count_lines r.0 c)

  -- the loop on the bytes that wait
  process_pending-seen :
      (k : ℕ) (p : Bytes) (c : Count)
      → process_pending wire (length p) (seen k p c)
        ≡ seen k (lines_of p).1 (count_lines (lines_of p).0 c)
  process_pending-seen k p (none, n) =
      process_pending-lines_of wire (length p) (seen k p (none, n)) (omega arith)
      ∙ after_lines-seen (lines_of p) k p (none, n)
  process_pending-seen k p (some u, n) =
      process_pending-lines_of wire (length p) (seen k p (some u, n)) (omega arith)
      ∙ after_lines-seen (lines_of p) k p (some u, n)

  pub parse_chunk-seen :
      (chunk : Bytes) (k : ℕ) (p : Bytes) (c : Count)
      → length (p ++ chunk) ≤ usage_buffer_cap
      → parse_chunk wire chunk (seen k p c)
        ≡ seen k (lines_of (p ++ chunk)).1 (count_lines (lines_of (p ++ chunk)).0 c)
  unfolding parse_chunk feed_sse
  parse_chunk-seen chunk k p (none, n) h =
      rw (parse_chunk, feed_sse, le→ltb_false (length (p ++ chunk)) usage_buffer_cap h)
        (process_pending-seen k (p ++ chunk) (none, n))
  parse_chunk-seen chunk k p (some u, n) h =
      rw (parse_chunk, feed_sse, le→ltb_false (length (p ++ chunk)) usage_buffer_cap h)
        (process_pending-seen k (p ++ chunk) (some u, n))
