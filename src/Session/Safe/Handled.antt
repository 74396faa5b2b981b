-- ===== src/Session/Safe/Handled.antt =====
-- A control message from the buffer to its effect: what process_control_msg does for each type of request.
use csc469_a.Base.{
  ℕ, ◌+◌, ◌≤◌, ◌<◌, ◌≡◌, ◌≢◌, false, some, List, [], map, erase, update, drop, codes, Run, ok, Ends,
}
use csc469_a.Protocol
use csc469_a.Protocol.{ControlMsghdr, read_header, control_msghdr_size, c_str, u16_at}
use csc469_a.Chain.{Ptr, null}
use csc469_a.Server.{Server}
use csc469_a.Server.Control.{Env, process_control_msg}
use csc469_a.Session.{Inv}
use csc469_a.Session.Find.{replied, member_with_id}
use csc469_a.Session.Joined.{joined}
use csc469_a.Session.ListReplies.{MembersListed}
use csc469_a.Session.ListTexts.{room_entry}
use csc469_a.Session.Switch.{Switched}
use csc469_a.Session.CreateReply.{CreateReplied}
use csc469_a.Session.Remove.{rosters_without}
use csc469_a.Session.Register.{Registered}
use csc469_a.Session.Sender.{awake}
use csc469_a.Session.Safe.Control.{buffer}

module _ (fd : ℕ) (env : Env) (s : Server) (ms rs : List Ptr) (roster : Ptr → List Ptr)
    (packet : List ℕ) where
  abbrev cmh : ControlMsghdr
  cmh = read_header (buffer packet)

  -- The sender, and the server once it has taken note of it.
  abbrev from : Ptr
  from = member_with_id s cmh.member_id ms

  abbrev noted : Server
  noted = awake s from

  abbrev text : List ℕ
  text = drop control_msghdr_size (buffer packet)

  abbrev outcome : Run (Unit {0} × Server)
  outcome = process_control_msg fd env (some packet) s

  -- What a control message leads to.
  pub record Handled (ip id : ℕ) : Type 0 where
    pub unknown :
        Protocol.room_list_request ≤ cmh.msg_type
        → cmh.msg_type ≤ Protocol.quit_request
        → from ≡ null
        → outcome ≡ ok (tt, replied fd (cmh.msg_type + 2) 0 (codes "Member id invalid!") s)
    pub register :
        cmh.msg_type ≡ Protocol.register_request
        → Ends
            (λ a.
              Registered fd s ms rs roster env.fresh
                (c_str (drop 10 (buffer packet)))
                (u16_at (buffer packet) 8)
                ip
                id
                a.1)
            outcome
    pub no_rooms :
        cmh.msg_type ≡ Protocol.room_list_request
        → from ≢ null
        → rs ≡ []
        → outcome
          ≡ ok (
            tt,
            replied fd Protocol.room_list_fail
                (s.member_id from)
                (codes "No rooms available!")
                noted,
          )
    pub rooms :
        cmh.msg_type ≡ Protocol.room_list_request
        → from ≢ null
        → rs ≢ []
        → outcome
          ≡ ok (
            tt,
            replied fd Protocol.room_list_succ
                (s.member_id from)
                (joined (map (room_entry s roster) rs))
                noted,
          )
    pub members :
        cmh.msg_type ≡ Protocol.member_list_request
        → from ≢ null
        → MembersListed fd noted rs roster from (c_str text) outcome
    pub switch :
        cmh.msg_type ≡ Protocol.switch_room_request
        → from ≢ null
        → Ends (λ a. Switched fd noted ms rs roster from (c_str text) a.1) outcome
    pub create :
        cmh.msg_type ≡ Protocol.create_room_request
        → from ≢ null
        → Ends (λ a. CreateReplied fd noted ms rs roster env.fresh from (c_str text) a.1) outcome
    pub keep_alive :
        cmh.msg_type ≡ Protocol.member_keep_alive → from ≢ null → outcome ≡ ok (tt, noted)
    pub quit :
        cmh.msg_type ≡ Protocol.quit_request
        → from ≢ null
        → Ends
            (λ a.
              Inv a.1 (erase from ms) rs (rosters_without s from roster)
              × (a.1.member_live ≡ update s.member_live from false)
              × (a.1.sent ≡ s.sent))
            outcome
    pub no_request : Protocol.quit_request < cmh.msg_type → outcome ≡ ok (tt, s)
