-- ===== src/UsageObserver/Chunks.antt =====
-- The chunks in which a response arrives do not matter.
use finops_proxy.Prelude.{
  ℕ, suc, ◌≤◌, ◌≡◌, refl, sym, ap, ◌∙◌, arith, none, List, [], ◌∷◌, ◌++◌, append_assoc, append-nil,
  Bytes, length, length-append, subst, ◌==◌, Bool-cases, inl, inr, true,
}
use finops_proxy.UsageObserver.{Wire, Observer, usage_buffer_cap, new_observer, parse_chunk, tokens}
use finops_proxy.UsageObserver.Lines.{lines_of, lines_of-append, add_byte}
use finops_proxy.UsageObserver.Stream.{
  Count, seen, usage_of, tokens-seen, count_lines, parse_chunk-seen,
}

abbrev pub concat : List Bytes → Bytes
concat [] = []
concat (chunk ∷ chunks) = chunk ++ concat chunks

add_byte-le :
    (c : ℕ) (r : List Bytes × Bytes) (n : ℕ) → length r.1 ≤ n → length (add_byte c r).1 ≤ suc n
add_byte-le c ([], tail) n h = omega arith
add_byte-le c (line ∷ lines, tail) n h = omega arith

-- what is after the last line is no longer than the text
tail-le : (s : Bytes) → length (lines_of s).1 ≤ length s
unfolding lines_of
tail-le [] = omega arith
tail-le (c ∷ s) = elim (Bool-cases (c == b'\n')) [
  | inl e ↦ rw e (omega (arith, tail-le s))
  | inr e ↦ rw e (add_byte-le c (lines_of s) (length s) (tail-le s))
]

module _ (wire : Wire) where
  unfoldable pub parse_chunks : List Bytes → Observer → Observer
  unfolding parse_chunk
  parse_chunks [] b = b
  parse_chunks (chunk ∷ chunks) b = parse_chunks chunks (parse_chunk wire chunk b)

  count_lines-append :
      (xs ys : List Bytes) (c : Count)
      → count_lines wire (xs ++ ys) c ≡ count_lines wire ys (count_lines wire xs c)
  unfolding count_lines
  count_lines-append [] ys c = refl
  count_lines-append (x ∷ xs) ys c = count_lines-append xs ys _

  -- the count of a text, and what is open at its end
  abbrev pub seen_text : ℕ → Bytes → Count → Observer
  seen_text k s c = seen k (lines_of s).1 (count_lines wire (lines_of s).0 c)

  seen_text-append :
      (k : ℕ) (xs ys : Bytes) (c : Count)
      → seen_text k ((lines_of xs).1 ++ ys) (count_lines wire (lines_of xs).0 c)
        ≡ seen_text k (xs ++ ys) c
  seen_text-append k xs ys c =
      let later = lines_of ((lines_of xs).1 ++ ys) in
      ap (seen k later.1) (sym (count_lines-append (lines_of xs).0 later.0 c))
      ∙ sym (ap (λ r. seen k r.1 (count_lines wire r.0 c)) (lines_of-append xs ys))

  parse_chunks-seen :
      (chunks : List Bytes) (k : ℕ) (xs : Bytes) (c : Count)
      → length (xs ++ concat chunks) ≤ usage_buffer_cap
      → parse_chunks chunks (seen_text k xs c) ≡ seen_text k (xs ++ concat chunks) c
  unfolding parse_chunks
  parse_chunks-seen [] k xs c h = ap (λ s. seen_text k s c) (sym (append-nil xs))
  parse_chunks-seen (chunk ∷ chunks) k xs c h =
      let fits : length ((lines_of xs).1 ++ chunk) ≤ usage_buffer_cap = omega (
        arith,
        length-append (lines_of xs).1 chunk,
        length-append xs (chunk ++ concat chunks),
        length-append chunk (concat chunks),
        tail-le xs,
      ) in
      let together : xs ++ (chunk ++ concat chunks) ≡ (xs ++ chunk) ++ concat chunks =
        sym (append_assoc xs chunk (concat chunks)) in
      ap (parse_chunks chunks) (
        parse_chunk-seen wire chunk k (lines_of xs).1 (count_lines wire (lines_of xs).0 c) fits
        ∙ seen_text-append k xs chunk c)
      ∙ parse_chunks-seen chunks k (xs ++ chunk) c
          (subst (λ s. length s ≤ usage_buffer_cap) together h)
      ∙ ap (λ s. seen_text k s c) (sym together)

  -- The tokens of an event stream of at most the buffer's size, in whatever chunks it arrives: those
  -- of the first usage that a complete line of it reports, else the estimate for the prompt, and a
  -- quarter of the length of the contents, rounded up.
  pub tokens-parse_chunks :
      (chunks : List Bytes) (prompt_tok : ℕ)
      → length (concat chunks) ≤ usage_buffer_cap
      → tokens wire (parse_chunks chunks (new_observer prompt_tok true))
        ≡ usage_of prompt_tok (count_lines wire (lines_of (concat chunks)).0 (none, 0))
  unfolding lines_of count_lines
  tokens-parse_chunks chunks k h =
      ap (tokens wire) (parse_chunks-seen chunks k [] (none, 0) h)
      ∙ tokens-seen wire k (lines_of (concat chunks)).1
          (count_lines wire (lines_of (concat chunks)).0 (none, 0))
