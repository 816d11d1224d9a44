-- ===== src/UsageObserver/Once.antt =====
-- The bytes of a response do not touch the flag that the cost is recorded.
use finops_proxy.Prelude.{
  ℕ, zero, suc, ◌+◌, ◌≡◌, refl, ◌∙◌, ◌++◌, Bool, true, false, ◌||◌, Bytes, length, if◌then◌else◌,
  ltb, Bool-cases, inl, inr, Option, none, some, Option-cases,
}
use finops_proxy.UsageObserver.{
  Wire, Observer, Chunk, usage_buffer_cap, count_chunk, cut_line, payload_of, parse_sse_payload,
  process_line, process_pending, feed_json, feed_sse, parse_chunk,
}

count_chunk_once : (o : Option Chunk) (b : Observer) → (count_chunk o b).once ≡ b.once
unfolding count_chunk
count_chunk_once none b = refl
count_chunk_once (some chunk) b = elim (Option-cases chunk.usage) [
  | inl e ↦ rw (count_chunk, e) refl
  | inr (u, e) ↦ rw (count_chunk, e) refl
]

pub if_once :
    (test : Bool) (x y : Observer) (o : Bool)
    → x.once ≡ o
    → y.once ≡ o
    → (if test then x else y).once ≡ o
if_once true x y o h k = h
if_once false x y o h k = k

module _ (wire : Wire) where
  payload_once : (payload : Bytes) (b : Observer) → (parse_sse_payload wire payload b).once ≡ b.once
  unfolding parse_sse_payload
  payload_once payload b = elim (Bool-cases (b.over_cap || b.have_use)) [
    | inl e ↦ rw (parse_sse_payload, e) refl
    | inr e ↦ rw (parse_sse_payload, e) (count_chunk_once (wire.decode_chunk payload) b)
  ]

  process_line_once : (line : Bytes) (b : Observer) → (process_line wire line b).once ≡ b.once
  unfolding process_line
  process_line_once line b = elim (Option-cases (payload_of wire line)) [
    | inl e ↦ rw (process_line, e) refl
    | inr (payload, e) ↦ rw (process_line, e) (payload_once payload b)
  ]

  process_pending_once : (fuel : ℕ) (b : Observer) → (process_pending wire fuel b).once ≡ b.once
  unfolding process_pending
  process_pending_once zero b = refl
  process_pending_once (suc fuel) b = elim (Option-cases (cut_line b.pending)) [
    | inl e ↦ rw (process_pending, e) refl
    | inr ((line, after), e) ↦
        rw (process_pending, e)
          (process_pending_once fuel (process_line wire line (record b { pending = after }))
            ∙ process_line_once line (record b { pending = after }))
  ]

  feed_sse_once : (chunk : Bytes) (b : Observer) → (feed_sse wire chunk b).once ≡ b.once
  unfolding feed_sse
  feed_sse_once chunk b =
      let pending = b.pending ++ chunk in
      if_once b.over_cap _ _ b.once refl (
        if_once (ltb usage_buffer_cap (length pending)) _ _ b.once refl
          (process_pending_once (length pending) (record b { pending = pending })))

  feed_json_once : (chunk : Bytes) (b : Observer) → (feed_json chunk b).once ≡ b.once
  unfolding feed_json
  feed_json_once chunk b =
      if_once b.over_cap _ _ b.once refl
        (if_once (ltb usage_buffer_cap (length b.json_buf + length chunk)) _ _ b.once refl refl)

  pub parse_chunk_once : (chunk : Bytes) (b : Observer) → (parse_chunk wire chunk b).once ≡ b.once
  unfolding parse_chunk
  parse_chunk_once chunk b =
      if_once b.is_sse _ _ b.once (feed_sse_once chunk b) (feed_json_once chunk b)
