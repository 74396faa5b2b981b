-- ===== src/Client/Wire.antt =====
-- What the server reads of the client's requests, and the client of the server's answers.
use csc469_a.Base.{
  take_all, ℕ, suc, ◌+◌, ◌*◌, ◌/◌, ◌%◌, ◌^◌, ◌≤◌, ◌<◌, ◌≡◌, ◌≢◌, refl, ap, ◌∙◌, true, false, List,
  [], ◌∷◌, arith, take, drop, length, fault,
}
use csc469_a.Protocol
use csc469_a.Protocol.{
  ControlMsghdr, read_header, header_bytes, u16_at, u16_bytes, c_str, has_zero, max_msg_len,
  max_member_name_len, max_room_name_len, control_msghdr_size,
}
use csc469_a.Chain.{Ptr, null}
use csc469_a.Server.{Server}
use csc469_a.Server.Control.{fill}
use csc469_a.Server.Buffers.{c_str-fill, has_zero-fill, has_zero-take, length-take-le}
use csc469_a.Server.Requests.{process_create_room_request}
use csc469_a.Session.Create.{create_room_overflow}
use csc469_a.Client.{
  encode_control_msghdr, prepare_request_with_data, prepare_register_request, prepare_room_request,
}

abbrev header_of : ℕ → ℕ → ℕ → ControlMsghdr
header_of t i l = record { msg_type = t; member_id = i; msg_len = l }

header_cong : {t t' i i' l l' : ℕ} → t ≡ t' → i ≡ i' → l ≡ l' → header_of t i l ≡ header_of t' i' l'
header_cong a b c = rw (a, b, c)

-- A length that fits 16 bits survives its two bytes.
u16_round : (n : ℕ) → n < 2 ^ 16 → n % 2 ^ 16 / 256 % 256 * 256 + n % 2 ^ 16 % 256 ≡ n
u16_round n h = omega arith

sized :
    (n : ℕ)
    → n ≤ max_member_name_len
    → (8 + suc (suc n)) % 2 ^ 16 / 256 % 256 * 256 + (8 + suc (suc n)) % 2 ^ 16 % 256 ≡ 10 + n
sized n h = omega arith

u16_bytes_round : (n : ℕ) → n < 2 ^ 16 → n / 256 % 256 * 256 + n % 256 ≡ n
u16_bytes_round n h = omega arith

-- A register request for a port of 16 bits and a name without a zero byte is read by the server, in
-- its zeroed buffer, as one: the type, no member id, the length of the message, the port, and the
-- first 24 bytes of the name.
pub register_request-read :
    (udp_port : ℕ) (name : List ℕ) (r₁ r₂ : ℕ)
    → udp_port < 2 ^ 16
    → has_zero name ≡ false
    → (read_header (fill max_msg_len (prepare_register_request udp_port name (r₁ ∷ r₂ ∷ [])))
        ≡ record {
          msg_type = Protocol.register_request;
          member_id = 0;
          msg_len = 10 + length (take max_member_name_len name);
        })
      × (u16_at (fill max_msg_len (prepare_register_request udp_port name (r₁ ∷ r₂ ∷ []))) 8
          ≡ udp_port)
      × (c_str (drop 10 (fill max_msg_len (prepare_register_request udp_port name (r₁ ∷ r₂ ∷ []))))
          ≡ take max_member_name_len name)
unfolding prepare_register_request prepare_request_with_data encode_control_msghdr u16_bytes fill
    read_header u16_at
register_request-read udp_port name r₁ r₂ hp z = (
  header_cong refl refl
      (sized (length (take max_member_name_len name)) (length-take-le max_member_name_len name)),
  u16_bytes_round udp_port hp,
  c_str-fill 2038 (take max_member_name_len name) (has_zero-take max_member_name_len name z)
      (omega (arith, length-take-le max_member_name_len name)),
)

-- A room request for an id of 16 bits and a room name without a zero byte is read by the server, in
-- its zeroed buffer, with the same type, id and length, and the first 24 bytes of the name.
pub room_request-read :
    (type id : ℕ) (name : List ℕ) (r₁ r₂ : ℕ)
    → type < 2 ^ 16
    → id < 2 ^ 16
    → has_zero name ≡ false
    → (read_header (fill max_msg_len (prepare_room_request type id name (r₁ ∷ r₂ ∷ []))) ≡ record {
      msg_type = type;
      member_id = id;
      msg_len = control_msghdr_size + length (take max_room_name_len name);
    })
      × (c_str (
            drop control_msghdr_size
              (fill max_msg_len (prepare_room_request type id name (r₁ ∷ r₂ ∷ []))))
          ≡ take max_room_name_len name)
unfolding prepare_room_request prepare_request_with_data encode_control_msghdr u16_bytes fill
    read_header u16_at
room_request-read type id name r₁ r₂ ht hi z = (
  header_cong (u16_bytes_round type ht) (u16_bytes_round id hi) (
      u16_round (control_msghdr_size + length (take max_room_name_len name))
        (omega (arith, length-take-le max_room_name_len name))),
  c_str-fill 2040 (take max_room_name_len name) (has_zero-take max_room_name_len name z)
      (omega (arith, length-take-le max_room_name_len name)),
)

overflow :
    (fd : ℕ) (fresh m : Ptr) (buf : List ℕ) (s : Server)
    → fresh ≢ null
    → has_zero buf ≡ true
    → length (c_str buf) ≡ max_room_name_len
    → process_create_room_request fd fresh m buf s ≡ fault
unfolding process_create_room_request
overflow fd fresh m buf s ne z full = rw (z, create_room_overflow s fresh (c_str buf) ne full)

request_text :
    (id : ℕ) (name : List ℕ) (r₁ r₂ : ℕ)
    → length name ≡ max_room_name_len
    → drop control_msghdr_size (
        fill max_msg_len (prepare_room_request Protocol.create_room_request id name (r₁ ∷ r₂ ∷ [])))
      ≡ fill 2040 name
unfolding prepare_room_request prepare_request_with_data encode_control_msghdr u16_bytes fill
request_text id name r₁ r₂ full =
    ap (λ n. fill 2040 n) (take_all max_room_name_len name (omega (arith, full)))

-- A create request of a client for a room name of exactly 24 bytes, none of them zero, faults in the
-- server, in every state, if malloc gives an object.
pub create_request-fault :
    (fd : ℕ) (fresh m : Ptr) (id : ℕ) (name : List ℕ) (r₁ r₂ : ℕ) (s : Server)
    → fresh ≢ null
    → has_zero name ≡ false
    → length name ≡ max_room_name_len
    → process_create_room_request fd fresh m
        (drop control_msghdr_size (
          fill max_msg_len
            (prepare_room_request Protocol.create_room_request id name (r₁ ∷ r₂ ∷ []))))
        s
      ≡ fault
create_request-fault fd fresh m id name r₁ r₂ s ne z full =
    ap (λ buf. process_create_room_request fd fresh m buf s) (request_text id name r₁ r₂ full)
    ∙ overflow fd fresh m (fill 2040 name) s ne (has_zero-fill 2040 name (omega (arith, full)))
        (ap length text ∙ full)
  where
    text : c_str (fill 2040 name) ≡ name
    text = c_str-fill 2040 name z (omega (arith, full))
