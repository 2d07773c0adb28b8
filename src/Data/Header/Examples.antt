-- ===== src/Data/Header/Examples.antt =====
-- The header of the source's datagram test, and the theorems on headers at concrete inputs.
use flip_flop_protocol.Common.{◌/◌, ◌%◌, ◌<◌, ◌≡◌, refl, ◌↔◌, arith, none, some}
use flip_flop_protocol.Data.Header.{Header, server, Packed, IsHeader, to_packed, parse}
use flip_flop_protocol.Data.Header.RoundTrip.{
  parse-to_packed, to_packed-parse, parse-eq-none_iff, parse-IsHeader, parse_ignores,
}

abbrev sample : Header
sample = record {
  version = 0;
  source = server;
  server_address = 255;
  server_port = 7;
  frame_counter = 1;
}

abbrev sample_bytes : Packed
sample_bytes = (0, 1, 63, 252)

to_packed-sample : to_packed sample ≡ sample_bytes
unfolding to_packed
to_packed-sample = refl

parse-sample : parse sample_bytes ≡ some sample
unfolding parse
parse-sample = refl

-- A frame that says version 1 is read as one of version 0; version 2 is refused.
parse_versions : (parse (0, 1, 63, 253) ≡ some sample) × (parse (0, 1, 63, 254) ≡ none)
unfolding parse
parse_versions = (refl, refl)

parse-to_packed_example :
    parse (to_packed (record sample { server_port = 9 })) ≡ some (record sample { server_port = 1 })
parse-to_packed_example = parse-to_packed (record sample { server_port = 9 }) (omega arith)

to_packed-parse_example : to_packed sample ≡ (0, 1, 63, 252)
to_packed-parse_example = to_packed-parse sample_bytes (omega arith) parse-sample

parse-eq-none_iff_example : (parse sample_bytes ≡ none) ↔ (252 / 2 % 2 ≡ 1)
parse-eq-none_iff_example = parse-eq-none_iff sample_bytes (omega arith)

parse-IsHeader_example : IsHeader sample × (sample.version ≡ 0) × (sample.server_port < 8)
parse-IsHeader_example = parse-IsHeader sample_bytes (omega arith) parse-sample

parse_ignores_example : parse (0, 1, 255, 253) ≡ parse (0, 1, 63, 252)
parse_ignores_example = parse_ignores (0, 1, 255, 253) (omega arith)
