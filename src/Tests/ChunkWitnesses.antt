-- ===== src/Tests/ChunkWitnesses.antt =====
-- The theorem of chunked bodies at a concrete message.
use network_pool.Common.{
  ℕ, ◌≡◌, ◌<◌, ◌+◌, refl, true, none, some, List, [], ◌∷◌, arith, length, drop,
}
use network_pool.Buffer.Laws.{Ends, Has}
use network_pool.Http.{HttpContext, state_read_chunk_header}
use network_pool.Http.Analysis.{analysis, returned}
use network_pool.Http.Chunks.Reading.{Chunk, AreChunks, encode, carried, IsHeading}
use network_pool.Http.Chunks.RoundTrip.{last, encoded_size, get_content-encode}
use network_pool.Http.Chunks.Sizes.{decimal, lower, no_digits, digit_last}
use network_pool.Http.Content.{get_content}
use network_pool.Http.Content.Merge.{Reads}
use network_pool.Tests.HttpSample.{zeros, arrived, no_buffer, no_buffer-IsValid}

-- "0a" and ten bytes, and "2" and two.
abbrev two_chunks : List Chunk
two_chunks =
    record { digit = 48; more = 97 ∷ []; content = zeros 10 }
    ∷ record { digit = 50; more = []; content = 104 ∷ 105 ∷ [] }
    ∷ []

abbrev memory : List ℕ
memory = 0 ∷ 0 ∷ encode two_chunks (last 48 [] (71 ∷ []))

-- The header ends at the place 2.
abbrev heading : HttpContext
heading = record arrived {
  buffer = record { trace = 0; memory = some memory; length = 31; max_length = 31 };
  now_index = 31;
  analysis_index = 2;
  state = state_read_chunk_header;
  lines = [];
}

two_chunks-AreChunks : AreChunks two_chunks
two_chunks-AreChunks = (
  record {
    digits =
        digit_last (48 ∷ []) 97 0 10 (digit_last [] 48 0 0 no_digits (decimal 0 (omega arith)))
          (lower 0 (omega arith));
    has = omega arith;
    small = omega arith;
  },
  (
    record {
      digits = digit_last [] 50 0 2 no_digits (decimal 2 (omega arith));
      has = omega arith;
      small = omega arith;
    },
    tt,
  ),
)

heading-IsHeading : IsHeading heading (encode two_chunks (last 48 [] (71 ∷ [])))
unfolding drop
heading-IsHeading = record { state = refl; size = refl; begun = refl; ahead = refl }

get_content-encode_example :
    (d : HttpContext) × (analysis heading ≡ returned true d)
    × (d.analysis_index ≡ 2 + encoded_size two_chunks + 1 + 4)
    × Reads
        (Ends
          (Has (carried two_chunks))
          ((some (zeros 12) ≡ none) × (0 < length (carried two_chunks))))
        (get_content no_buffer (some (zeros 12)) d)
unfolding encode encoded_size carried
get_content-encode_example =
    get_content-encode two_chunks 48 [] (71 ∷ []) heading no_buffer (some (zeros 12))
      two_chunks-AreChunks (digit_last [] 48 0 0 no_digits (decimal 0 (omega arith)))
      heading-IsHeading refl (omega arith) (omega arith) (omega arith) no_buffer-IsValid refl
