-- ===== src/UsageObserver.antt =====
-- pkg/proxy/cost_tracking.go: the observer of a response's body, which counts the tokens of a call
-- from the bytes that pass. The handler's `onCost` is the consumer of the calls that a step returns.
pub mod Lines
pub mod Stream
pub mod Chunks
pub mod Body
pub mod Once
pub mod Calls
mod Tests
use finops_proxy.Prelude.{
  ℕ, zero, suc, ◌+◌, ◌/◌, Bool, true, false, not, ◌&&◌, ◌||◌, Option, none, some, List, [], ◌∷◌,
  ◌++◌, Bytes, bytes, bytes_eq, equals, if◌then◌else◌, ltb, ◌==◌, length, drop,
}
use finops_proxy.Pricing.{has_prefix}

abbrev pub usage_buffer_cap : ℕ
usage_buffer_cap = 1048576

pub record Usage : Type 0 where
  pub prompt_tokens : ℕ
  pub completion_tokens : ℕ

-- what json.Unmarshal finds in the payload of an event: the contents of the choices' deltas, and the
-- usage, nil if there is none
pub record Chunk : Type 0 where
  pub contents : List Bytes
  pub usage : Option Usage

-- the library functions on the bytes: bytes.TrimSpace, and json.Unmarshal into the struct of an
-- event and into that of a body, `none` an error
pub record Wire : Type 0 where
  pub trim_space : Bytes → Bytes
  pub decode_chunk : Bytes → Option Chunk
  pub decode_usage : Bytes → Option (Option Usage)

-- `usageTrackingBody`, without the reader and with the prompt tokens of its `meta`
pub record Observer : Type 0 where
  pub prompt_tok : ℕ
  pub is_sse : Bool
  pub once : Bool
  pub pending : Bytes
  pub over_cap : Bool
  pub have_use : Bool
  pub use_p : ℕ
  pub use_c : ℕ
  pub delta_ch : ℕ
  pub json_buf : Bytes

-- the observer that `modifyResponse` puts in front of a body
abbrev pub new_observer : ℕ → Bool → Observer
new_observer prompt_tok is_sse = record {
  prompt_tok = prompt_tok;
  is_sse = is_sse;
  once = false;
  pending = [];
  over_cap = false;
  have_use = false;
  use_p = 0;
  use_c = 0;
  delta_ch = 0;
  json_buf = [];
}

unfoldable pub feed_json : Bytes → Observer → Observer
feed_json chunk b =
    if b.over_cap
    then b
    else if ltb usage_buffer_cap (length b.json_buf + length chunk)
    then record b { over_cap = true; json_buf = [] }
    else record b { json_buf = b.json_buf ++ chunk }

abbrev pub extend_line : ℕ → Option (Bytes × Bytes) → Option (Bytes × Bytes)
extend_line c none = none
extend_line c (some (line, after)) = some (c ∷ line, after)

-- `bytes.IndexByte(s, '\n')` and the two slices at it: the line, and what comes after the newline
unfoldable pub cut_line : Bytes → Option (Bytes × Bytes)
cut_line [] = none
cut_line (c ∷ s) = let rest = cut_line s in if c == b'\n' then some ([], s) else extend_line c rest

-- `bytes.TrimSuffix(line, "\r")`
unfoldable pub trim_return : Bytes → Bytes
trim_return [] = []
trim_return (c ∷ []) = if c == b'\r' then [] else c ∷ []
trim_return (c ∷ d ∷ line) = c ∷ trim_return (d ∷ line)

-- `for _, c := range chunk.Choices { total += len(c.Delta.Content) }`
unfoldable pub add_lengths : ℕ → List Bytes → ℕ
add_lengths total [] = total
add_lengths total (content ∷ contents) = add_lengths (total + length content) contents

-- the part of `parseSSEPayload` after the decoding
unfoldable pub count_chunk : Option Chunk → Observer → Observer
unfolding add_lengths
count_chunk none b = b
count_chunk (some chunk) b = elim chunk.usage [
  | some u ↦ record b { use_p = u.prompt_tokens; use_c = u.completion_tokens; have_use = true }
  | none ↦ record b { delta_ch = add_lengths b.delta_ch chunk.contents }
]

-- `if chars <= 0 { return 0 }`, and (0 + 3) / 4 is 0
abbrev pub estimate_completion_tokens : ℕ → ℕ
estimate_completion_tokens chars = if ltb 0 chars then (chars + 3) / 4 else 0

abbrev pub usage_or : ℕ → Option Usage → Usage
usage_or prompt_tok none = record { prompt_tokens = prompt_tok; completion_tokens = 0 }
usage_or prompt_tok (some u) = u

module _ (wire : Wire) where
  unfoldable pub parse_sse_payload : Bytes → Observer → Observer
  unfolding count_chunk
  parse_sse_payload payload b =
      if b.over_cap || b.have_use then b else count_chunk (wire.decode_chunk payload) b

  -- the payload of a line that has one to decode
  unfoldable pub payload_of : Bytes → Option Bytes
  unfolding trim_return has_prefix
  payload_of raw =
      let line = trim_return raw in
      let payload = wire.trim_space (drop 5 line) in
      if not (has_prefix line (bytes "data:"))
      then none
      else if length payload == 0
      then none
      else if equals payload (bytes "[DONE]")
      then none
      else some payload

  unfoldable pub process_line : Bytes → Observer → Observer
  unfolding payload_of parse_sse_payload
  process_line line b = elim (payload_of line) [
    | none ↦ b
    | some payload ↦ parse_sse_payload payload b
  ]

  -- the loop over the complete lines, with the rounds left; each round takes a line
  unfoldable pub process_pending : ℕ → Observer → Observer
  unfolding cut_line process_line
  process_pending zero b = b
  process_pending (suc fuel) b = elim (cut_line b.pending) [
    | none ↦ b
    | some (line, after) ↦ process_pending fuel (process_line line (record b { pending = after }))
  ]

  unfoldable pub feed_sse : Bytes → Observer → Observer
  unfolding process_pending
  feed_sse chunk b =
      let pending = b.pending ++ chunk in
      if b.over_cap
      then b
      else if ltb usage_buffer_cap (length pending)
      then record b {
        over_cap = true;
        pending = [];
        delta_ch = if not b.have_use then 0 else b.delta_ch;
      }
      else process_pending (length pending) (record b { pending = pending })

  unfoldable pub parse_chunk : Bytes → Observer → Observer
  unfolding feed_json feed_sse
  parse_chunk chunk b = if b.is_sse then feed_sse chunk b else feed_json chunk b

  -- `none` is ok = false
  abbrev pub parse_json_usage : Bytes → Option Usage
  parse_json_usage body = elim (wire.decode_usage body) [ none ↦ none | some usage ↦ usage ]

  unfoldable pub tokens : Observer → Usage
  tokens b =
      if b.is_sse
      then if b.have_use
        then record { prompt_tokens = b.use_p; completion_tokens = b.use_c }
        else record {
          prompt_tokens = b.prompt_tok;
          completion_tokens = estimate_completion_tokens b.delta_ch;
        }
      else usage_or b.prompt_tok (if not b.over_cap then parse_json_usage b.json_buf else none)

  -- the calls of `onCost`, at most one
  unfoldable pub finalize : Observer → Observer × List Usage
  unfolding tokens
  finalize b = if b.once then (b, []) else (record b { once = true }, tokens b ∷ [])

  -- `Read`, with the bytes that the reader below returns and whether it returns io.EOF with them
  unfoldable pub read : Bytes → Bool → Observer → Observer × List Usage
  unfolding parse_chunk finalize
  read chunk eof b =
      let seen = if ltb 0 (length chunk) then parse_chunk chunk b else b in
      if eof then finalize seen else (seen, [])

  unfoldable pub close : Observer → Observer × List Usage
  unfolding finalize
  close b = finalize b
