-- ===== src/WebSocket/Tests.antt =====
-- Runs of src/uvhttp_websocket.c on small inputs, and the theorems on them.
use uvhttp.Prelude.{
  ℕ, ◌⊎◌, ◌^◌, ◌+◌, ◌≤◌, ◌<◌, Bool, true, false, List, [], ◌∷◌, ◌++◌, none, some, ◌≡◌, refl, inr,
  ◌↔◌, length, drop, arith,
}
use uvhttp.Error.{invalid_param, ok, err}
use uvhttp.WebSocket.Frame.{
  FrameHeader, build_frame, parse_frame_header, apply_mask, header_size_for, mask_size,
}
use uvhttp.WebSocket.Frame.RoundTrip.{
  header_of, unmasked, in_second_byte, wire_size, parse_frame_header-build_frame,
  build_frame-eq-err_iff,
}
use uvhttp.WebSocket.Connection.{
  open_state, message, sent, Net, Connection, send_frame, send_ping, close,
}
use uvhttp.WebSocket.Fragments.{
  handle_data, handle_first, start_fragment, fragment_append, grown_capacity,
}
use uvhttp.WebSocket.Fragments.Bounds.{IsBounded}
use uvhttp.WebSocket.Fragments.Reassembly.{Delivers, feed, feed-message, feed-empty_first}
use uvhttp.WebSocket.Receive.{
  process_data, process_frames, round, reserve, after_all, is_acceptable, handle_frame,
  frame_payload,
}
use uvhttp.WebSocket.Receive.Chunks.{process_data-append}

abbrev key : List ℕ
key = 1 ∷ 2 ∷ 3 ∷ 4 ∷ []

-- A masked TEXT frame "Hi".
abbrev hi : List ℕ
hi = 0x81 ∷ 0x82 ∷ 1 ∷ 2 ∷ 3 ∷ 4 ∷ 73 ∷ 107 ∷ []

build_frame-hi : build_frame (some key) 8 (72 ∷ 105 ∷ []) 1 true true ≡ ok hi
unfolding build_frame
build_frame-hi = refl

parse_frame_header-build_frame_example :
    (parse_frame_header (hi ++ 9 ∷ []) ≡ ok (header_of true 1 true 2, header_size_for 2))
    × (unmasked true (drop (header_size_for 2) hi) ≡ 72 ∷ 105 ∷ [])
    × (length hi ≡ header_size_for 2 + mask_size true + 2)
    × (length hi ≤ 8)
parse_frame_header-build_frame_example =
    parse_frame_header-build_frame key 8 (72 ∷ 105 ∷ []) 1 true true (9 ∷ []) hi refl (omega arith)
      (omega arith) build_frame-hi

build_frame-eq-err_iff_example :
    (build_frame (some key) 7 (72 ∷ 105 ∷ []) 1 true true ≡ err invalid_param)
    ↔ ((7 < wire_size 0 true 2) ⊎ (2 ^ 63 ≤ wire_size 0 true 2))
build_frame-eq-err_iff_example =
    build_frame-eq-err_iff key 7 (72 ∷ 105 ∷ []) 1 true true (in_second_byte (omega arith))

abbrev net : Net
net = record { random = λ n. some key; send = λ n bytes. some (length bytes) }

-- A server's connection that takes frames of 1000 bytes and messages of 100.
abbrev server : Connection
server = record {
  state = open_state;
  is_server = true;
  max_frame_size = 1000;
  max_message_size = 100;
  recv_buffer = [];
  recv_buffer_size = 64;
  fragmented = none;
  fragmented_capacity = 0;
  fragmented_opcode = 0;
  has_on_message = true;
  has_on_close = true;
  has_context = true;
  bytes_sent = 0;
  frames_sent = 0;
}

-- The first three bytes of the frame wait in the buffer.
abbrev waiting : Connection
waiting = record server { recv_buffer = 0x81 ∷ 0x82 ∷ 1 ∷ [] }

process_data_part : process_data net server (0x81 ∷ 0x82 ∷ 1 ∷ []) ≡ some (waiting, [], ok tt)
unfolding process_data process_frames round reserve parse_frame_header is_acceptable
process_data_part = refl

process_data-hi : process_data net server hi ≡ some (server, message (72 ∷ 105 ∷ []) 1 ∷ [], ok tt)
unfolding process_data process_frames round reserve parse_frame_header is_acceptable handle_frame
    handle_data handle_first frame_payload apply_mask
process_data-hi = refl

process_data-append_example :
    process_data net server hi ≡ after_all [] (process_data net waiting (2 ∷ 3 ∷ 4 ∷ 73 ∷ 107 ∷ []))
process_data-append_example =
    process_data-append net server waiting (0x81 ∷ 0x82 ∷ 1 ∷ []) (2 ∷ 3 ∷ 4 ∷ 73 ∷ 107 ∷ []) []
      (omega arith) process_data_part

-- The header of an unmasked frame.
abbrev header : Bool → ℕ → ℕ → FrameHeader
header fin opcode n = header_of fin opcode false n

server-IsBounded : IsBounded server
server-IsBounded = record { stored = omega arith; limited = λ set. omega arith }

abbrev started : Connection
started = record server {
  fragmented = some (72 ∷ []);
  fragmented_capacity = 1;
  fragmented_opcode = 1;
}

handle_data_start : handle_data server (header false 1 1) (72 ∷ []) ≡ some (started, [])
unfolding handle_data handle_first start_fragment fragment_append grown_capacity
handle_data_start = refl

abbrev last : FrameHeader × List ℕ
last = (header true 0 1, 105 ∷ [])

feed-message_example : Delivers server ((header false 1 1, 72 ∷ []) ∷ last ∷ []) (72 ∷ 105 ∷ []) 1
feed-message_example =
    feed-message server (header false 1 1) (72 ∷ []) (last ∷ []) refl refl (λ e. ground arith) refl
      (omega arith) (refl, refl) (omega arith, inr (omega arith))

feed-empty_first_example :
    feed server ((header false 1 0, []) ∷ (header true 0 1, 105 ∷ []) ∷ []) ≡ none
feed-empty_first_example =
    feed-empty_first server (header false 1 0) (header true 0 1) (105 ∷ []) [] refl
      (λ e. ground arith) refl refl

-- A server sends a ping of one byte without a mask.
ping_sent : (send_ping net server (7 ∷ [])).1 ≡ sent (137 ∷ 1 ∷ 7 ∷ []) ∷ []
unfolding send_frame build_frame
ping_sent = refl

-- A server closes with the code 1000 and no reason.
close_sent : (close net server 1000 none).1 ≡ sent (136 ∷ 2 ∷ 3 ∷ 232 ∷ []) ∷ []
unfolding close send_frame build_frame
close_sent = refl
