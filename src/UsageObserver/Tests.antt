-- ===== src/UsageObserver/Tests.antt =====
-- cost_tracking.go on concrete inputs. The decoder of the tests takes a payload "u" for a usage, and
-- any other payload for a content.
use finops_proxy.Prelude.{
  ◌≡◌, refl, true, false, none, some, [], ◌∷◌, ◌++◌, map, arith, Bytes, bytes, equals, bytes_eq,
  bytes_discrete, ℕ_discrete, dec_lt, dec_le, List, if◌then◌else◌, leb, length,
}
use finops_proxy.Pricing.{has_prefix}
use finops_proxy.UsageObserver.{
  Wire, Usage, usage_buffer_cap, new_observer, feed_json, cut_line, trim_return, add_lengths,
  count_chunk, parse_sse_payload, payload_of, process_line, process_pending, feed_sse, parse_chunk,
  parse_json_usage, usage_or, tokens, finalize, read, close,
}
use finops_proxy.UsageObserver.Lines
use finops_proxy.UsageObserver.Lines.{lines_of, after_lines, process_all}
use finops_proxy.UsageObserver.Stream.{usage_of, count_lines}
use finops_proxy.UsageObserver.Chunks
use finops_proxy.UsageObserver.Chunks.{concat, parse_chunks}
use finops_proxy.UsageObserver.Body
use finops_proxy.UsageObserver.Calls
use finops_proxy.UsageObserver.Calls.{Access, access, calls, passes, brings, full}

abbrev reported : Usage
reported = record { prompt_tokens = 10; completion_tokens = 20 }

abbrev wire : Wire
wire = record {
  trim_space = λ s. s;
  decode_chunk = λ s.
      some
        record { contents = s ∷ []; usage = if equals s (bytes "u") then some reported else none };
  decode_usage = λ s. if equals s (bytes "{}") then some none else some (some reported);
}

runs : Unit {0}
unfolding has_prefix feed_json cut_line trim_return add_lengths count_chunk parse_sse_payload
    payload_of process_line process_pending feed_sse parse_chunk tokens finalize read close lines_of
    after_lines process_all count_lines parse_chunks access calls bytes_discrete ℕ_discrete dec_lt
    dec_le
runs = tt

-- an event in two chunks, the end of the stream, and an event without its newline
abbrev stream : List Bytes
stream = bytes "data:abcd\ndata:ef" ∷ bytes "ghi\r\n: hello\ndata:[DONE]\n" ∷ bytes "data:u" ∷ []

tokens-parse_chunks_example :
    tokens wire (parse_chunks wire stream (new_observer 7 true))
    ≡ usage_of 7 (count_lines wire (lines_of (concat stream)).0 (none, 0))
tokens-parse_chunks_example = Chunks.tokens-parse_chunks wire stream 7 (omega arith)

-- nine bytes of contents
estimated :
    tokens wire (parse_chunks wire stream (new_observer 7 true))
    ≡ record { prompt_tokens = 7; completion_tokens = 3 }
unfolding runs
estimated = refl

abbrev reporting : List Bytes
reporting = stream ++ (bytes "\n" ∷ [])

found : tokens wire (parse_chunks wire reporting (new_observer 7 true)) ≡ reported
unfolding runs
found = refl

tokens-buffered_example :
    tokens wire (parse_chunks wire stream (new_observer 7 false))
    ≡ usage_or 7 (
        if leb (length (concat stream)) usage_buffer_cap
        then parse_json_usage wire (concat stream)
        else none)
tokens-buffered_example = Body.tokens-buffered wire stream 7

-- an empty read on the way, an end without bytes, and a Close after it
abbrev ended : Access
ended = Access.reads [] true

calls_once_example :
    calls wire (map passes ([] ∷ stream) ++ (ended ∷ Access.closes ∷ [])) (new_observer 7 true)
    ≡ tokens wire (parse_chunks wire (full (([] ∷ stream) ++ brings ended)) (new_observer 7 true))
      ∷ []
calls_once_example =
    Calls.calls_once wire ([] ∷ stream) ended (Access.closes ∷ []) (new_observer 7 true) refl refl

process_pending-lines_of_example :
    process_pending wire 20 (record (new_observer 7 true) { pending = bytes "data:a\n\nb" })
    ≡ after_lines wire
        (lines_of (bytes "data:a\n\nb"))
        (record (new_observer 7 true) { pending = bytes "data:a\n\nb" })
process_pending-lines_of_example =
    Lines.process_pending-lines_of wire 20
      (record (new_observer 7 true) { pending = bytes "data:a\n\nb" }) (omega arith)
