-- ===== src/Session/Sender.antt =====
-- The check of the sender's id in process_control_msg, before the dispatch.
use csc469_a.Base.{
  ℕ, ◌+◌, ◌≤◌, ◌<◌, ◌∙◌, ◌≡◌, ◌≢◌, refl, ap, some, true, false, List, arith, ◌==◌, leb, update, ok,
  codes,
}
use csc469_a.Protocol
use csc469_a.Protocol.{ControlMsghdr, read_header, max_msg_len}
use csc469_a.Chain.{Ptr, null}
use csc469_a.Server.{Server, bind_run}
use csc469_a.Server.Control.{
  Env, dispatch, process_message, dump_control_msg, process_control_msg, fill,
}
use csc469_a.Session.{Members}
use csc469_a.Session.Find.{replied, send_some, find_member_with_id_lem, member_with_id}

-- The state once the member has shown that it is active.
abbrev pub awake : Server → Ptr → Server
awake s m = record s { quiet_flag = update s.quiet_flag m 0 }

-- What becomes of a control message.
pub record Checked (fd : ℕ) (env : Env) (s : Server) (ms : List Ptr) (cmh : ControlMsghdr)
    (buf : List ℕ) : Type 0 where
  pub unknown :
      Protocol.room_list_request ≤ cmh.msg_type
      → cmh.msg_type ≤ Protocol.quit_request
      → member_with_id s cmh.member_id ms ≡ null
      → process_message fd env cmh buf s
        ≡ ok (tt, replied fd (cmh.msg_type + 2) 0 (codes "Member id invalid!") s)
  pub known :
      Protocol.room_list_request ≤ cmh.msg_type
      → cmh.msg_type ≤ Protocol.quit_request
      → member_with_id s cmh.member_id ms ≢ null
      → process_message fd env cmh buf s
        ≡ dispatch fd env cmh.msg_type
            (member_with_id s cmh.member_id ms)
            buf
            (awake s (member_with_id s cmh.member_id ms))
  pub keep_alive :
      cmh.msg_type ≡ Protocol.member_keep_alive
      → member_with_id s cmh.member_id ms ≢ null
      → process_message fd env cmh buf s ≡ ok (tt, awake s (member_with_id s cmh.member_id ms))
  pub no_request :
      Protocol.quit_request < cmh.msg_type → process_message fd env cmh buf s ≡ ok (tt, s)

module _ (fd : ℕ) (env : Env) (s : Server) (ms : List Ptr) (cmh : ControlMsghdr) (buf : List ℕ)
    (v : Members s ms) where
  known_lem :
      Protocol.room_list_request ≤ cmh.msg_type
      → cmh.msg_type ≤ Protocol.quit_request
      → member_with_id s cmh.member_id ms ≢ null
      → process_message fd env cmh buf s
        ≡ dispatch fd env cmh.msg_type
            (member_with_id s cmh.member_id ms)
            buf
            (awake s (member_with_id s cmh.member_id ms))
  unfolding process_message
  known_lem lo hi there =
      let from : leb Protocol.room_list_request cmh.msg_type ≡ true = ground arith in
      let to : leb cmh.msg_type Protocol.quit_request ≡ true = ground arith in
      let found : (member_with_id s cmh.member_id ms == null) ≡ false = ground arith in
      rw (from, to, find_member_with_id_lem s ms cmh.member_id v, found)

  -- A message of a type that needs a member (room list to quit) whose sender id no member has gets
  -- only the reply "Member id invalid!" with the type plus 2. If a member has the id, the quiet flag
  -- of the first such member is cleared and the request is dispatched for that member. Of a
  -- keep-alive, clearing the flag is the whole effect. A message of a type above quit is ignored.
  pub process_message-Checked : Checked fd env s ms cmh buf
  unfolding process_message dispatch
  process_message-Checked = record {
    unknown = λ lo hi gone.
        let from : leb Protocol.room_list_request cmh.msg_type ≡ true = ground arith in
        let to : leb cmh.msg_type Protocol.quit_request ≡ true = ground arith in
        let lost : (member_with_id s cmh.member_id ms == null) ≡ true = ground arith in
        rw (from, to, find_member_with_id_lem s ms cmh.member_id v, lost)
          (send_some fd (cmh.msg_type + 2) 0 (codes "Member id invalid!") s (omega arith));
    known = known_lem;
    keep_alive = λ e there. known_lem (omega arith) (omega arith) there ∙ rw e;
    no_request = λ h.
        let to : leb cmh.msg_type Protocol.quit_request ≡ false = ground arith in
        rw to (ground arith);
  }

dump_control_msg_lem :
    (env : Env) (s : Server) (ip : ℕ)
    → env.peer ≡ some ip
    → env.named ≡ true
    → dump_control_msg env s ≡ ok (tt, s)
unfolding dump_control_msg
dump_control_msg_lem env s ip peer named = rw (peer, named) refl

-- The dump of a message from a peer with a name has no effect.
pub process_control_msg_lem :
    (fd : ℕ) (env : Env) (packet : List ℕ) (s : Server) (ip : ℕ)
    → env.peer ≡ some ip
    → env.named ≡ true
    → process_control_msg fd env (some packet) s
      ≡ process_message fd env (read_header (fill max_msg_len packet)) (fill max_msg_len packet) s
unfolding process_control_msg
process_control_msg_lem fd env packet s ip peer named =
    ap
      (λ d. bind_run d (λ r.
        process_message fd env (read_header (fill max_msg_len packet)) (fill max_msg_len packet)
          r.1))
      (dump_control_msg_lem env s ip peer named)
