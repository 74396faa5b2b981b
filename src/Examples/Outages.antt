-- ===== src/Examples/Outages.antt =====
-- The results on the client's reconnection, at concrete inputs.
use csc469_a.Base.{
  ◌++◌, ℕ, ◌+◌, ◌≤◌, ◌<◌, ◌≡◌, refl, true, false, none, some, List, [], ◌∷◌, arith, ltb, codes,
  if◌then◌else◌, ok, same,
}
use csc469_a.Protocol.{has_zero, c_str, header_bytes, u16_at, u16_bytes}
use csc469_a.Client.{
  prepare_register_request, prepare_request_with_data, encode_control_msghdr, prepare_room_request,
}
use csc469_a.Server.Start.{word_before}
use csc469_a.Client.Location.{
  refresh_chatserver, send_http_request, copy_last, line_tokens, word_in, skip_spaces,
}
use csc469_a.Client.Reconnect.{send_control_msg, tried, Net, Core}
use csc469_a.Client.Reconnect.Outage.{reconnected, send_control_msg-returns}
use csc469_a.Client.Reconnect.Rename.{in_use, welcome, Renamed, re_register_func-Renamed}

-- A server that agrees to everything, with the id 77.
abbrev agreeing : List ℕ → List ℕ × ℕ
agreeing request = (header_bytes (u16_at request 0 + 1) 77 8, 8)

-- The client's servers are down for two attempts.
abbrev back_again : Net
back_again = record {
  attempt = λ i request. if ltb i 2 then none else some (agreeing request);
  udp_port = 40000;
  reserved = 0 ∷ 0 ∷ [];
  udp_opens = λ i. true;
  stale = λ i. [];
  locate = λ i.
      some (codes "HTTP/1.0 200 OK" ++ (13 ∷ 10 ∷ 13 ∷ 10 ∷ (codes "host 5000 5001" ++ (0 ∷ []))));
  block = λ size. size + 8;
}

abbrev client : Core
client = record {
  member_name = codes "ann";
  member_id = 700;
  curr_room = codes "c";
  tries = 0;
  sleeps = 0;
  printed = [];
}

abbrev ask_rooms : List ℕ
ask_rooms = 0 ∷ 4 ∷ 2 ∷ 188 ∷ 0 ∷ 8 ∷ 0 ∷ 0 ∷ []

-- During that outage each look-up of another server succeeds.
looked_up : (i : ℕ) → i < 2 → refresh_chatserver back_again.block (back_again.locate i) ≡ ok tt
unfolding refresh_chatserver send_http_request copy_last line_tokens word_in skip_spaces word_before
    has_zero c_str
looked_up i h = refl

outage_example :
    send_control_msg 4 back_again ask_rooms client
    ≡ ok (agreeing ask_rooms, if ltb 0 2 then reconnected client 77 (2 + 3) else tried client)
unfolding u16_at u16_bytes prepare_register_request prepare_room_request prepare_request_with_data
    encode_control_msghdr
outage_example =
    send_control_msg-returns back_again agreeing 2 down up looked_up 77 77 (omega arith)
      (λ name. refl) (codes "c") refl 4 ask_rooms client refl (omega arith)
  where
    down : (i : ℕ) (request : List ℕ) → i < 2 → back_again.attempt i request ≡ none
    down i request h = let early : ltb i 2 ≡ true = ground arith in rw early

    up : (i : ℕ) (request : List ℕ) → 2 ≤ i → back_again.attempt i request ≡ some (agreeing request)
    up i request h = let late : ltb i 2 ≡ false = ground arith in rw late

-- A server where the name "ann" is in use.
abbrev taken_once : List ℕ → List ℕ × ℕ
taken_once request =
    if same request (prepare_register_request 40000 (codes "ann") (0 ∷ 0 ∷ []))
    then in_use []
    else welcome 77

abbrev reachable : Net
reachable = record {
  attempt = λ i request. some (taken_once request);
  udp_port = 40000;
  reserved = 0 ∷ 0 ∷ [];
  udp_opens = λ i. true;
  stale = λ i. [];
  locate = λ i.
      some (codes "HTTP/1.0 200 OK" ++ (13 ∷ 10 ∷ 13 ∷ 10 ∷ (codes "host 5000 5001" ++ (0 ∷ []))));
  block = λ size. size + 8;
}

rename_example : Renamed reachable taken_once 77 [] (λ i request. refl) (omega arith) 1 3 client
unfolding prepare_register_request prepare_request_with_data encode_control_msghdr u16_bytes
rename_example =
    re_register_func-Renamed reachable taken_once 77 [] (λ i request. refl) (omega arith) 1 3 client
      (refl, refl) (omega arith) (omega arith)
