-- ===== src/Server/Control.antt =====
-- process_control_msg of a3/server_util.c: the check of the sender's id and the dispatch.
use csc469_a.Base.{
  ℕ, zero, suc, ◌+◌, Bool, Option, none, some, List, [], ◌∷◌, ◌==◌, ◌&&◌, leb, if◌then◌else◌, codes,
  update, drop,
}
use csc469_a.Protocol
use csc469_a.Protocol.{ControlMsghdr, read_header, max_msg_len, control_msghdr_size}
use csc469_a.Chain.{Ptr, null}
use csc469_a.Server.{Step, return, ◌>>=◌, ◌>>◌, get, put, check, send_control_msg_reply}
use csc469_a.Server.Members.{find_member_with_id}
use csc469_a.Server.Requests.{
  process_create_room_request, process_room_list_request, process_switch_room_request,
  process_member_list_request, process_quit_request,
}
use csc469_a.Server.Registration.{process_register_request}

-- What the libraries answer while one message is processed.
pub record Env : Type 0 where
  -- RAND_MAX, and the values that rand returns
  pub rand_max : ℕ
  pub draws : List ℕ
  -- what malloc returns, NULL if there is no memory
  pub fresh : Ptr
  -- the address that getpeername gives
  pub peer : Option ℕ
  -- does gethostbyaddr find a name for that address?
  pub named : Bool

-- The `switch`. `mt` is the sender, and is set for every type but registration.
unfoldable pub dispatch : ℕ → Env → ℕ → Ptr → List ℕ → Step (Unit {0})
dispatch fd env type mt buf =
    if type == Protocol.register_request
    then process_register_request fd env.rand_max env.draws env.fresh env.peer buf
    else if type == Protocol.room_list_request
    then process_room_list_request fd mt
    else if type == Protocol.member_list_request
    then process_member_list_request fd mt (drop control_msghdr_size buf)
    else if type == Protocol.switch_room_request
    then process_switch_room_request fd mt (drop control_msghdr_size buf)
    else if type == Protocol.create_room_request
    then process_create_room_request fd env.fresh mt (drop control_msghdr_size buf)
    else if type == Protocol.quit_request
    then process_quit_request mt
    else return tt

-- "make sure the sender has a valid id", and the dispatch. The reply to a message of type 16 or 17
-- from an unknown sender has type 18 or 19, which the protocol does not have.
unfoldable pub process_message : ℕ → Env → ControlMsghdr → List ℕ → Step (Unit {0})
process_message fd env cmh buf =
    if leb Protocol.room_list_request cmh.msg_type && leb cmh.msg_type Protocol.quit_request
    then (do
      mt ← find_member_with_id cmh.member_id
      if mt == null
          then send_control_msg_reply fd (cmh.msg_type + 2) 0 (some (codes "Member id invalid!"))
          else (do
            s ← get
            put (record s { quiet_flag = update s.quiet_flag mt 0 })
            dispatch fd env cmh.msg_type mt buf))
    else dispatch fd env cmh.msg_type null buf

-- The buffer of `n` bytes once `packet` has been read into it.
unfoldable pub fill : ℕ → List ℕ → List ℕ
fill zero packet = []
fill (suc n) [] = 0 ∷ fill n []
fill (suc n) (b ∷ packet) = b ∷ fill n packet

-- dump_control_msg calls get_peer_info, with or without a log: for a peer without a name it reads through
-- the NULL of gethostbyaddr. send_control_msg_reply calls it again after its write, for the same
-- connection. With the same answers of the libraries that call faults only if this one did.
unfoldable pub dump_control_msg : Env → Step (Unit {0})
dump_control_msg env = elim env.peer [ none ↦ return tt | some address ↦ check env.named ]

-- `received` is what read gives: at most the buffer's bytes, or an error. The buffer is zero behind
-- them, so that a shorter message ends with a zero.
unfoldable pub process_control_msg : ℕ → Env → Option (List ℕ) → Step (Unit {0})
unfolding dump_control_msg
process_control_msg fd env none = return tt
process_control_msg fd env (some packet) =
    let buf = fill max_msg_len packet in
    dump_control_msg env >> process_message fd env (read_header buf) buf
