-- ===== src/Protocol/RoundTrip.antt =====
-- Encoding a header and decoding it again.
use csc469_a.Base.{ℕ, ◌<◌, ◌≡◌, ◌++◌, ◌^◌, List, arith}
use csc469_a.Protocol.{read_header, header_bytes}

-- A header whose three fields fit 16 bits is decoded to the values that were encoded, whatever
-- bytes follow it.
pub read_header-header_bytes :
    (type id len : ℕ) (rest : List ℕ)
    → type < 2 ^ 16
    → id < 2 ^ 16
    → len < 2 ^ 16
    → read_header (header_bytes type id len ++ rest)
      ≡ record { msg_type = type; member_id = id; msg_len = len }
unfolding read_header header_bytes
read_header-header_bytes type id len rest ht hi hl = ground arith
