-- ===== src/Http/Header.antt =====
-- kvDecoder and decoderHeaderAndUpdateState of http_context.h.
use network_pool.Common.{
  ℕ, ◌+◌, Bool, false, Option, none, some, List, [], ◌∷◌, take, drop, get_elem?, ltb, ◌==◌,
  if◌then◌else◌,
}
use network_pool.Http.{
  state_read_body, state_read_chunk_header, state_done, Line, HttpContext, bytes,
}
use network_pool.Http.Text.{split_line, is_text, atoi}
use mathlib.Core.List.{reverse}

abbrev text_connection : List ℕ
text_connection = 99 ∷ 111 ∷ 110 ∷ 110 ∷ 101 ∷ 99 ∷ 116 ∷ 105 ∷ 111 ∷ 110 ∷ []

abbrev text_keep_alive : List ℕ
text_keep_alive = 107 ∷ 101 ∷ 101 ∷ 112 ∷ 45 ∷ 97 ∷ 108 ∷ 105 ∷ 118 ∷ 101 ∷ []

abbrev text_content_length : List ℕ
text_content_length =
    99 ∷ 111 ∷ 110 ∷ 116 ∷ 101 ∷ 110 ∷ 116 ∷ 45 ∷ 108 ∷ 101 ∷ 110 ∷ 103 ∷ 116 ∷ 104 ∷ []

abbrev text_transfer_encoding : List ℕ
text_transfer_encoding =
    116 ∷ 114 ∷ 97 ∷ 110 ∷ 115 ∷ 102 ∷ 101 ∷ 114 ∷ 45 ∷ 101 ∷ 110 ∷ 99 ∷ 111 ∷ 100 ∷ 105 ∷ 110 ∷ 103
    ∷ []

abbrev text_chunked : List ℕ
text_chunked = 99 ∷ 104 ∷ 117 ∷ 110 ∷ 107 ∷ 101 ∷ 100 ∷ []

-- What the header says of the message.
pub record Fields : Type 0 where
  pub keep_alive : Bool
  pub chunked : Bool
  pub content_length : ℕ

-- `kvDecoder`
unfoldable pub kv_decoder : List ℕ → List ℕ → Fields → Fields
kv_decoder name value f =
    if is_text text_connection name
    then record f { keep_alive = is_text text_keep_alive value }
    else if is_text text_content_length name
    then record f { content_length = atoi value }
    else if is_text text_transfer_encoding name
    then record f { chunked = is_text text_chunked value }
    else f

-- The bytes of a line of known length. The source reads on to the null that ends it: `none` where
-- there is none.
unfoldable pub line_at : ℕ → ℕ → List ℕ → Option (List ℕ)
line_at start n mem = elim (get_elem? mem (start + n)) [
  | none ↦ none
  | some c ↦ if c == 0 then some (take n (drop start mem)) else none
]

unfoldable pub decode_text : List ℕ → Fields → Fields
decode_text cs f = elim (split_line cs) [ none ↦ f | some (name, value) ↦ kv_decoder name value f ]

-- The loop over the lines; `none` where it reads on past a line.
unfoldable pub decode_lines : List Line → ℕ → List ℕ → Fields → Option Fields
decode_lines [] header_size mem f = some f
decode_lines ((start, n?) ∷ ls) header_size mem f =
    if ltb header_size start then some f else elim n? [
      | none ↦ decode_lines ls header_size mem f
      | some n ↦ elim (line_at start n mem) [
        | none ↦ none
        | some cs ↦ decode_lines ls header_size mem (decode_text cs f)
      ]
    ]

-- "Switch state."
unfoldable pub switch_state : Fields → HttpContext → HttpContext
switch_state f c =
    let d = record c {
      keep_alive = f.keep_alive;
      chunked = f.chunked;
      content_length = f.content_length;
    } in
    if f.chunked
    then record d {
      state = state_read_chunk_header;
      now_chunk_size = 0;
      chunk_size_start = false;
      chunk_size_done = false;
    }
    else if ltb 0 f.content_length
    then record d { state = state_read_body }
    else record d { state = state_done }

-- `decoderHeaderAndUpdateState`
unfoldable pub decoder_header : HttpContext → Option HttpContext
decoder_header c =
    let f : Fields = record {
      keep_alive = c.keep_alive;
      chunked = c.chunked;
      content_length = c.content_length;
    } in
    elim (decode_lines (reverse c.lines) c.header_size (bytes c) f) [
      | none ↦ none
      | some g ↦ some (switch_state g c)
    ]
