-- ===== src/Client/Dialogue.antt =====
-- A registration from the client's request over the server to the client's reading of the answer.
use csc469_a.Base.{
  ℕ, ◌≡◌, ◌≢◌, Option, none, List, [], ◌∷◌, ◌++◌, take, length, codes, Run, ok, fault,
}
use csc469_a.Protocol
use csc469_a.Protocol.{
  read_header, max_msg_len, max_member_name_len, max_num_of_members, ControlMsghdr,
}
use csc469_a.Chain.{Ptr, null}
use csc469_a.Server.{Server, Output, reply, datagram}
use csc469_a.Server.Control.{Env, fill}
use csc469_a.Session.Register.{Enrolled, member_named}
use csc469_a.Client.{prepare_register_request, handle_register_response, rejected}
use csc469_a.Client.Answer.{shown}

-- What the client reads of the last answer that the server wrote, with the bytes `behind` in its buffer,
-- and `stale` in the block for the text of a refusal.
abbrev pub told : List ℕ → List Output → List ℕ → ℕ → Run (Option (List ℕ) × ℕ)
told stale [] behind old = fault
told stale (reply fd bytes ∷ sent) behind old =
    handle_register_response stale (bytes ++ behind) (length bytes) old
told stale (datagram addr bytes ∷ sent) behind old = fault

-- What a registration leads to on both sides; `old` is the client's id before.
pub record Joined (fd : ℕ) (s : Server) (ms rs : List Ptr) (roster : Ptr → List Ptr) (fresh : Ptr)
    (name : List ℕ) (port ip id : ℕ) (x : ℕ) (behind : List ℕ) (old : ℕ) (stale : List ℕ)
    (t : Server) : Type 0 where
  pub accepted :
      length ms ≢ max_num_of_members
      → member_named s (take max_member_name_len name) ms ≡ null
      → Enrolled fd s ms rs roster fresh (take max_member_name_len name) port ip id t
        × (told stale t.sent (x ∷ behind) old ≡ ok (none, id))
  pub full :
      length ms ≡ max_num_of_members
      → told stale t.sent (x ∷ behind) old
        ≡ rejected (shown (codes "Number of members reached maximum!") x (take 7 stale)) old
  pub in_use :
      length ms ≢ max_num_of_members
      → member_named s (take max_member_name_len name) ms ≢ null
      → told stale t.sent (x ∷ behind) old
        ≡ rejected (shown (codes "Name has already been used!") x (take 7 stale)) old

abbrev arrived : ℕ → List ℕ → ℕ → ℕ → List ℕ
arrived port name r₁ r₂ = fill max_msg_len (prepare_register_request port name (r₁ ∷ r₂ ∷ []))

module _ (fd : ℕ) (s : Server) (ms rs : List Ptr) (roster : Ptr → List Ptr) (env : Env) (port : ℕ)
    (name : List ℕ) (ip id : ℕ) (x : ℕ) (behind : List ℕ) (old : ℕ) (stale : List ℕ) where
  abbrev short : List ℕ
  short = take max_member_name_len name
