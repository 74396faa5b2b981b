-- ===== src/Session/Safe/Control.antt =====
-- Control messages keep the server sound, under what the server relies on when one arrives.
use csc469_a.Base.{
  ℕ, ◌+◌, ◌<◌, ◌≡◌, ◌≢◌, inl, inr, refl, ap, ◌∙◌, true, false, ◌&&◌, some, List, has, drop, length,
  length-drop, arith, ◌==◌, leb, Bool-cases, ne_of_test, Ends, codes,
}
use csc469_a.Protocol
use csc469_a.Protocol.{
  ControlMsghdr, read_header, max_msg_len, control_msghdr_size, max_room_name_len, c_str, has_zero,
}
use csc469_a.Chain.{Ptr, null}
use csc469_a.Server.{Server}
use csc469_a.Server.Buffers.{has_zero-fill, drop-fill}
use csc469_a.Server.Control.{Env, dispatch, process_message, process_control_msg, fill}
use csc469_a.Session.{Members}
use csc469_a.Session.Draw.{first_free}
use csc469_a.Session.Find.{send_some, find_member_with_id_lem, member_with_id, has-member_with_id}
use csc469_a.Session.Sender.{awake, process_control_msg_lem}
use csc469_a.Session.Safe.{Good, Sound, replied-Sound}
use csc469_a.Session.Safe.Requests.{switch-Sound, quit-Sound, room_list-Sound, member_list-Sound}
use csc469_a.Session.Safe.Creation.{create-Sound}
use csc469_a.Session.Safe.Arrivals.{register-Sound}

-- The buffer that a message is read into.
abbrev pub buffer : List ℕ → List ℕ
buffer packet = fill max_msg_len packet

-- What the server relies on when a control message arrives.
pub record Served (s : Server) (env : Env) (packet : List ℕ) : Type 0 where
  pub peer : (ip : ℕ) × (env.peer ≡ some ip)
  pub named : env.named ≡ true
  pub fresh : env.fresh ≢ null
  pub no_member : s.member_live env.fresh ≡ false
  pub no_room : s.room_live env.fresh ≡ false
  pub drawn :
      (ms : List Ptr)
      → Members s ms
      → (id : ℕ) × (first_free s.member_id ms env.rand_max env.draws ≡ some id)
  pub short : length packet < max_msg_len
  pub name :
      (read_header (buffer packet)).msg_type ≡ Protocol.create_room_request
      → length (c_str (drop control_msghdr_size (buffer packet))) ≢ max_room_name_len

-- The text behind the header ends inside the buffer.
pub ended :
    (packet : List ℕ) → length packet < max_msg_len → has_zero (drop 8 (buffer packet)) ≡ true
ended packet h =
    ap has_zero (drop-fill 8 2040 packet)
    ∙ has_zero-fill 2040 (drop 8 packet) (omega (arith, length-drop 8 packet))

module _ (s : Server) (ms rs : List Ptr) (roster : Ptr → List Ptr) (g : Good s ms rs roster)
    (fd : ℕ) (env : Env) (packet : List ℕ) (ready : Served s env packet) where
  -- A message that needs a member comes from one.
  dispatch-Sound :
      (type : ℕ) (m : Ptr)
      → (read_header (buffer packet)).msg_type ≡ type
      → ((leb Protocol.room_list_request type && leb type Protocol.quit_request) ≡ true
          → has m ms ≡ true)
      → Ends (λ a. Sound a.1) (dispatch fd env type m (buffer packet) s)
  unfolding dispatch
  dispatch-Sound type m e from = elim (Bool-cases (type == Protocol.register_request)) [
    | inl t₁ ↦
        let (ip, at) = ready.peer in
        let (id, drawn) = ready.drawn ms g.inv.members in
        rw (t₁, at)
          (register-Sound s ms rs roster g fd env.fresh ip env.rand_max env.draws (buffer packet) id
            ready.fresh ready.no_member drawn)
    | inr n₁ ↦ elim (Bool-cases (type == Protocol.room_list_request)) [
      | inl t₂ ↦ rw (n₁, t₂) (room_list-Sound s ms rs roster g fd m (from (ground arith)))
      | inr n₂ ↦ elim (Bool-cases (type == Protocol.member_list_request)) [
        | inl t₃ ↦
            rw (n₁, n₂, t₃) (member_list-Sound s ms rs roster g fd m text (from (ground arith)))
        | inr n₃ ↦ elim (Bool-cases (type == Protocol.switch_room_request)) [
          | inl t₄ ↦
              rw (n₁, n₂, n₃, t₄) (switch-Sound s ms rs roster g fd m text (from (ground arith)))
          | inr n₄ ↦ elim (Bool-cases (type == Protocol.create_room_request)) [
            | inl t₅ ↦
                rw (n₁, n₂, n₃, n₄, t₅)
                  (create-Sound s ms rs roster g fd env.fresh m text (from (ground arith))
                    ready.fresh ready.no_room (ended packet ready.short)
                    (ready.name (e ∙ type_of t₅)))
            | inr n₅ ↦ elim (Bool-cases (type == Protocol.quit_request)) [
              | inl t₆ ↦
                  rw (n₁, n₂, n₃, n₄, n₅, t₆) (quit-Sound s ms rs roster g m (from (ground arith)))
              | inr n₆ ↦ rw (n₁, n₂, n₃, n₄, n₅, n₆) (ms, rs, roster, g)
            ]
          ]
        ]
      ]
    ]
  ]
    where
      text : List ℕ
      text = drop control_msghdr_size (buffer packet)

      type_of : {k : ℕ} → (type == k) ≡ true → type ≡ k
      type_of h = ground arith

-- Clearing a quiet flag changes nothing of this.
pub awake-Good :
    (s : Server) (ms rs : List Ptr) (roster : Ptr → List Ptr) (m : Ptr)
    → Good s ms rs roster
    → Good (awake s m) ms rs roster
awake-Good s ms rs roster m g = record {
  inv = record { members = g.inv.members; rooms = g.inv.rooms; rosters = g.inv.rosters };
  tail = g.tail;
  room_names = g.room_names;
  member_names = g.member_names;
}

awake-Served :
    (s : Server) (env : Env) (packet : List ℕ) (m : Ptr)
    → Served s env packet
    → Served (awake s m) env packet
awake-Served s env packet m ready = record {
  peer = ready.peer;
  named = ready.named;
  fresh = ready.fresh;
  no_member = ready.no_member;
  no_room = ready.no_room;
  drawn = ready.drawn;
  short = ready.short;
  name = ready.name;
}

module _ (s : Server) (ms rs : List Ptr) (roster : Ptr → List Ptr) (g : Good s ms rs roster)
    (fd : ℕ) (env : Env) (packet : List ℕ) (ready : Served s env packet) where
  abbrev cmh : ControlMsghdr
  cmh = read_header (buffer packet)

  pub control-Sound : Ends (λ a. Sound a.1) (process_control_msg fd env (some packet) s)
  unfolding process_message
  control-Sound =
      let (ip, at) = ready.peer in
      rw (process_control_msg_lem fd env packet s ip at ready.named)
        (elim (Bool-cases
          (leb Protocol.room_list_request cmh.msg_type && leb cmh.msg_type Protocol.quit_request)) [
            | inl needs ↦ elim (Bool-cases (member_with_id s cmh.member_id ms == null)) [
              | inl gone ↦
                  rw
                    (
                      needs,
                      find_member_with_id_lem s ms cmh.member_id g.inv.members,
                      gone,
                      send_some fd (cmh.msg_type + 2) 0 (codes "Member id invalid!") s
                          (omega arith),
                    )
                    (replied-Sound fd (cmh.msg_type + 2) 0 (codes "Member id invalid!") s
                      (ms, rs, roster, g))
              | inr found ↦
                  let m = member_with_id s cmh.member_id ms in
                  rw (needs, find_member_with_id_lem s ms cmh.member_id g.inv.members, found)
                    (dispatch-Sound (awake s m) ms rs roster (awake-Good s ms rs roster m g) fd env
                      packet (awake-Served s env packet m ready) cmh.msg_type m refl
                      (λ _. has-member_with_id s cmh.member_id ms (ne_of_test _ _ found)))
            ]
            | inr other ↦ rw other (
                dispatch-Sound s ms rs roster g fd env packet ready cmh.msg_type null refl
                  (λ inside. cc (inside, other)))
          ])
