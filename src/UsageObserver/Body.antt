-- ===== src/UsageObserver/Body.antt =====
-- What the observer counts of a body that is no event stream.
use finops_proxy.Prelude.{
  ℕ, ◌+◌, ◌≤◌, ◌<◌, ◌≡◌, refl, sym, ap, ◌∙◌, arith, none, List, [], ◌∷◌, ◌++◌, append_assoc,
  append-nil, Bytes, length, length-append, if◌then◌else◌, true, false, leb, gt→leb, le→leb, lt→ltb,
  le→ltb_false, subst, dec_le,
}
use finops_proxy.UsageObserver.{
  Wire, Observer, usage_buffer_cap, new_observer, feed_json, parse_chunk, parse_json_usage,
  usage_or, tokens,
}
use finops_proxy.UsageObserver.Chunks.{concat, parse_chunks}

abbrev pub buffered : ℕ → Bytes → Observer
buffered k buf = record (new_observer k false) { json_buf = buf }

abbrev pub overflown : ℕ → Observer
overflown k = record (new_observer k false) { over_cap = true }

module _ (wire : Wire) where
  parse_chunks-overflown :
      (chunks : List Bytes) (k : ℕ) → parse_chunks wire chunks (overflown k) ≡ overflown k
  unfolding parse_chunks parse_chunk feed_json
  parse_chunks-overflown [] k = refl
  parse_chunks-overflown (chunk ∷ chunks) k = parse_chunks-overflown chunks k

  parse_chunk-buffered :
      (chunk : Bytes) (k : ℕ) (buf : Bytes)
      → length buf + length chunk ≤ usage_buffer_cap
      → parse_chunk wire chunk (buffered k buf) ≡ buffered k (buf ++ chunk)
  unfolding parse_chunk feed_json
  parse_chunk-buffered chunk k buf h =
      rw (parse_chunk, feed_json, le→ltb_false (length buf + length chunk) usage_buffer_cap h) refl

  parse_chunk-overflown :
      (chunk : Bytes) (k : ℕ) (buf : Bytes)
      → usage_buffer_cap < length buf + length chunk
      → parse_chunk wire chunk (buffered k buf) ≡ overflown k
  unfolding parse_chunk feed_json
  parse_chunk-overflown chunk k buf h =
      rw (parse_chunk, feed_json, lt→ltb usage_buffer_cap (length buf + length chunk) h) refl

  length_rest :
      (buf chunk rest : Bytes)
      → length (buf ++ (chunk ++ rest)) ≡ length buf + length chunk + length rest
  length_rest buf chunk rest =
      omega (arith, length-append buf (chunk ++ rest), length-append chunk rest)

  parse_chunks_fit :
      (chunks : List Bytes) (k : ℕ) (buf : Bytes)
      → length (buf ++ concat chunks) ≤ usage_buffer_cap
      → parse_chunks wire chunks (buffered k buf) ≡ buffered k (buf ++ concat chunks)
  unfolding parse_chunks
  parse_chunks_fit [] k buf h = ap (buffered k) (sym (append-nil buf))
  parse_chunks_fit (chunk ∷ chunks) k buf h =
      let together : buf ++ (chunk ++ concat chunks) ≡ (buf ++ chunk) ++ concat chunks =
        sym (append_assoc buf chunk (concat chunks)) in
      ap (parse_chunks wire chunks)
        (parse_chunk-buffered chunk k buf (omega (arith, length_rest buf chunk (concat chunks))))
      ∙ parse_chunks_fit chunks k (buf ++ chunk)
          (subst (λ s. length s ≤ usage_buffer_cap) together h)
      ∙ ap (buffered k) (sym together)

  parse_chunks_over :
      (chunks : List Bytes) (k : ℕ) (buf : Bytes)
      → length buf ≤ usage_buffer_cap
      → usage_buffer_cap < length (buf ++ concat chunks)
      → parse_chunks wire chunks (buffered k buf) ≡ overflown k
  unfolding parse_chunks
  parse_chunks_over [] k buf h over = absurd (omega (arith, length-append buf []))
  parse_chunks_over (chunk ∷ chunks) k buf h over =
      let together : buf ++ (chunk ++ concat chunks) ≡ (buf ++ chunk) ++ concat chunks =
        sym (append_assoc buf chunk (concat chunks)) in
      elim (dec_le (length buf + length chunk) usage_buffer_cap) [
        | yes fits ↦
            ap (parse_chunks wire chunks) (parse_chunk-buffered chunk k buf fits)
            ∙ parse_chunks_over chunks k (buf ++ chunk) (omega (arith, length-append buf chunk))
                (subst (λ s. usage_buffer_cap < length s) together over)
        | no full ↦
            ap (parse_chunks wire chunks) (parse_chunk-overflown chunk k buf (omega arith))
            ∙ parse_chunks-overflown chunks k
      ]

  -- The tokens of a JSON body, in whatever chunks it arrives: those that its usage reports, if it is
  -- at most the buffer's size and has a usage, else the estimate for the prompt, and zero.
  pub tokens-buffered :
      (chunks : List Bytes) (prompt_tok : ℕ)
      → tokens wire (parse_chunks wire chunks (new_observer prompt_tok false))
        ≡ usage_or prompt_tok (
            if leb (length (concat chunks)) usage_buffer_cap
            then parse_json_usage wire (concat chunks)
            else none)
  unfolding tokens
  tokens-buffered chunks k = elim (dec_le (length (concat chunks)) usage_buffer_cap) [
    | yes fits ↦
        rw
          (parse_chunks_fit chunks k [] fits, le→leb (length (concat chunks)) usage_buffer_cap fits)
          refl
    | no over ↦
        let more : usage_buffer_cap < length (concat chunks) = omega arith in
        rw
          (
            parse_chunks_over chunks k [] (omega arith) more,
            gt→leb (length (concat chunks)) usage_buffer_cap more,
          )
          refl
  ]
