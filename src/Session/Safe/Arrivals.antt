-- ===== src/Session/Safe/Arrivals.antt =====
-- Registration and chat messages keep the server sound.
use csc469_a.Base.{
  ℕ, ◌≡◌, ◌≢◌, inl, inr, ◌∙◌, false, Option, some, List, [], ◌∷◌, ◌++◌, update, take, drop, length,
  arith, eq_cases, eq_self, ne_of_test, has-append, Ends, Ends-mono, codes,
}
use csc469_a.Protocol.{register_fail, c_str, max_num_of_members, max_member_name_len, u16_at}
use csc469_a.Chain.{Ptr, null}
use csc469_a.Server.{Server, Output, UdpAddr}
use csc469_a.Server.Buffers.{length-take-le}
use csc469_a.Server.Registration.{process_register_request}
use csc469_a.Server.Chat.{process_chat_msg}
use csc469_a.Session.{Members}
use csc469_a.Session.Draw.{first_free}
use csc469_a.Session.Register.{Registered, member_named, process_register_request-Registered}
use csc469_a.Session.Enrol.{enrolled, enrolled-Inv}
use csc469_a.Session.Broadcast.{Relayed, sender, heard, Room, process_chat_msg-Relayed}
use csc469_a.Session.ListTexts.{NamesFit}
use csc469_a.Session.Safe.{Good, Sound, replied-Sound, NamesFit-kept}
use csc469_a.Session.Safe.Requests.{back}

module _ (s : Server) (ms rs : List Ptr) (roster : Ptr → List Ptr) (g : Good s ms rs roster) where
  -- A chat message writes only counters, quiet flags and what was sent.
  heard-Sound : (m : Ptr) (n : ℕ) → Sound (heard s m n)
  heard-Sound m n = (
    ms,
    rs,
    roster,
    record {
      inv = record { members = g.inv.members; rooms = g.inv.rooms; rosters = g.inv.rosters };
      tail = g.tail;
      room_names = g.room_names;
      member_names = g.member_names;
    },
  )

  sent-Sound : (m : Ptr) (n : ℕ) (out : List Output) → Sound (record (heard s m n) { sent = out })
  sent-Sound m n out = (
    ms,
    rs,
    roster,
    record {
      inv = record { members = g.inv.members; rooms = g.inv.rooms; rosters = g.inv.rosters };
      tail = g.tail;
      room_names = g.room_names;
      member_names = g.member_names;
    },
  )

  Relayed-Sound : (buf : List ℕ) (t : Server) → Relayed s ms roster buf t → Sound t
  Relayed-Sound buf t w = elim (eq_cases (sender s ms buf) null) [
    | inl gone ↦ back Sound s t (w.unknown gone) (ms, rs, roster, g)
    | inr found ↦ elim (eq_cases (s.current_room (sender s ms buf)) null) [
      | inl alone ↦ back Sound _ t (w.alone (ne_of_test _ _ found) alone) (heard-Sound _ _)
      | inr inside ↦
          let (msg, label, e) = w.delivered (ne_of_test _ _ found) (ne_of_test _ _ inside) in
          back Sound _ t e (sent-Sound _ _ _)
    ]
  ]

  pub chat-Sound :
      (sendto : UdpAddr → List ℕ → Option ℕ) (buf : List ℕ)
      → ((addr : UdpAddr) (msg : List ℕ) → sendto addr msg ≡ some (length msg))
      → ((ns : List Ptr)
          → Members s ns
          → sender s ns buf ≢ null
          → Room s (sender s ns buf) (length buf))
      → Ends (λ a. Sound a.1) (process_chat_msg sendto (some buf) s)
  chat-Sound sendto buf all room =
      Ends-mono (λ a. Relayed s ms roster buf a.1) (λ a. Sound a.1) _
        (λ a w. Relayed-Sound buf a.1 w)
        (process_chat_msg-Relayed sendto buf s ms rs roster g.inv all (room ms g.inv.members))

  module _ (fresh : Ptr) (name : List ℕ) (port ip id : ℕ) (ne : fresh ≢ null)
      (unused : s.member_live fresh ≡ false) where
    abbrev named : Ptr → List ℕ
    named = update s.member_name fresh (take max_member_name_len name)

    all_names : NamesFit named (ms ++ (fresh ∷ []))
    all_names p h = elim (eq_cases p fresh) [
      | inl e ↦ rw (e, eq_self fresh) (length-take-le max_member_name_len name)
      | inr n ↦ rw n (g.member_names p (ground (arith, has-append p ms (fresh ∷ []))))
    ]

    old_names : NamesFit named ms
    old_names p h = all_names p (ground (arith, has-append p ms (fresh ∷ []), h))

    enrolled-Sound : Sound (enrolled s fresh name port ip)
    enrolled-Sound = (
      ms,
      rs,
      roster,
      record {
        inv = enrolled-Inv s ms rs roster fresh name port ip g.inv unused;
        tail = g.tail;
        room_names = g.room_names;
        member_names = old_names;
      },
    )

    Registered-Sound :
        (fd : ℕ) (t : Server) → Registered fd s ms rs roster fresh name port ip id t → Sound t
    Registered-Sound fd t w = elim (eq_cases (length ms) max_num_of_members) [
      | inl full ↦ back Sound _ t (w.full full) (
          replied-Sound fd register_fail 0 (codes "Number of members reached maximum!") s
            (ms, rs, roster, g))
      | inr room ↦ elim (eq_cases (member_named s (take max_member_name_len name) ms) null) [
        | inl new ↦
            let e = w.added (ne_of_test _ _ room) new in
            (
              ms ++ (fresh ∷ []),
              rs,
              roster,
              record {
                inv = e.inv;
                tail = e.tail ∙ g.tail;
                room_names = NamesFit-kept _ _ rs e.room_names g.room_names;
                member_names = NamesFit-kept _ _ (ms ++ (fresh ∷ [])) e.name_at all_names;
              },
            )
        | inr used ↦ back Sound _ t (w.in_use (ne_of_test _ _ room) (ne_of_test _ _ used)) (
            replied-Sound fd register_fail 0 (codes "Name has already been used!")
              (enrolled s fresh name port ip) enrolled-Sound)
      ]
    ]

  pub register-Sound :
      (fd : ℕ) (fresh : Ptr) (ip rand_max : ℕ) (draws buf : List ℕ) (id : ℕ)
      → fresh ≢ null
      → s.member_live fresh ≡ false
      → first_free s.member_id ms rand_max draws ≡ some id
      → Ends (λ a. Sound a.1) (process_register_request fd rand_max draws fresh (some ip) buf s)
  register-Sound fd fresh ip rand_max draws buf id ne unused drawn =
      Ends-mono
        (λ a. Registered fd s ms rs roster fresh (c_str (drop 10 buf)) (u16_at buf 8) ip id a.1)
        (λ a. Sound a.1) _
        (λ a w.
          Registered-Sound fresh (c_str (drop 10 buf)) (u16_at buf 8) ip id ne unused fd a.1 w)
        (process_register_request-Registered fd s ms rs roster fresh ip rand_max draws buf id g.inv
          ne unused drawn)
