-- ===== src/Session/Broadcast.antt =====
-- process_chat_msg: what is sent to whom, when sendto sends each datagram as a whole.
use csc469_a.Base.{
  take_all, ◌^◌, ltb, ℕ, zero, suc, ◌+◌, ◌<◌, ◌≡◌, ◌≢◌, refl, sym, ap, ◌∙◌, subst, true, false,
  Option, some, List, [], ◌∷◌, inl, inr, arith, ◌==◌, update, has, length, Bool-cases, ne_of_test,
  ok, Ends,
}
use csc469_a.Protocol.{u16_at, max_member_name_len}
use csc469_a.Chain.{Ptr, null}
use csc469_a.Search.{Walk-live, Walk, Walk-of_Seg}
use csc469_a.Server.{Server, UdpAddr, Output, datagram}
use csc469_a.Server.Chat.{broadcast, relay, process_chat_msg, stamp}
use csc469_a.Session.{Inv}
use csc469_a.Session.Find.{find_member_with_id_lem, member_with_id, has-member_with_id}
use csc469_a.Session.Remove.{member_live_lem}
use csc469_a.Session.Label.{length-stamp, Labelled, stamp-Labelled}

-- A message to each of the members, in order, in front of what was sent before.
abbrev pub deliveries : (Ptr → UdpAddr) → List ℕ → List Ptr → List Output → List Output
deliveries addr msg [] sent = sent
deliveries addr msg (x ∷ xs) sent = deliveries addr msg xs (datagram (addr x) msg ∷ sent)

-- What sendto promises for datagrams: it sends all of the bytes.
abbrev pub SendsAll : (UdpAddr → List ℕ → Option ℕ) → Type 0
SendsAll sendto = (addr : UdpAddr) (msg : List ℕ) → sendto addr msg ≡ some (length msg)

-- The loop sends the message to each member of the list.
broadcast-deliveries :
    (sendto : UdpAddr → List ℕ → Option ℕ) (msg : List ℕ) (s : Server) (k : ℕ) (mt : Ptr)
    (xs : List Ptr)
    → SendsAll sendto
    → Walk s.member_live s.next_room_member null mt xs
    → length xs < k
    → broadcast sendto k msg (length msg) mt s
      ≡ ok (tt, record s { sent = deliveries s.member_udp_addr msg xs s.sent })
unfolding broadcast
broadcast-deliveries sendto msg s zero mt xs all w h = absurd (omega arith)
broadcast-deliveries sendto msg s (suc k) mt [] all w h =
    let end : (mt == null) ≡ true = ground arith in rw end
broadcast-deliveries sendto msg s (suc k) mt (x ∷ xs) all (e, ne, lv, w) h =
    let end : (mt == null) ≡ false = ground arith in
    let live : s.member_live mt ≡ true = ap s.member_live e ∙ lv in
    rw (end, live, take_all (length msg) msg (omega arith), all (s.member_udp_addr mt) msg)
      (broadcast-deliveries sendto msg
          (record s { sent = datagram (s.member_udp_addr mt) msg ∷ s.sent }) k
          (s.next_room_member mt) xs all
          (subst (λ p. Walk s.member_live s.next_room_member null (s.next_room_member p) xs) (sym e)
            w)
          (omega (arith, h))
        ∙ ap
            (λ p. ok (
              tt,
              record s {
                sent =
                    deliveries s.member_udp_addr msg xs
                      (datagram (s.member_udp_addr p) msg ∷ s.sent);
              },
            ))
            e)

-- The counters of a member that sent a message of `n` bytes.
abbrev pub heard : Server → Ptr → ℕ → Server
heard s m n = record s {
  quiet_flag = update s.quiet_flag m 0;
  num_chat_msgs = update s.num_chat_msgs m (s.num_chat_msgs m + 1);
  num_bytes_rcved = update s.num_bytes_rcved m (s.num_bytes_rcved m + n);
}

-- The member whose id stands in front of the message.
abbrev pub sender : Server → List Ptr → List ℕ → Ptr
sender s ms buf = member_with_id s (u16_at buf 0) ms

-- The sender's name fits the header's array, and its counters have room for the message of `n` bytes.
pub record Room (s : Server) (m : Ptr) (n : ℕ) : Type 0 where
  pub name : length (s.member_name m) < max_member_name_len
  pub messages : s.num_chat_msgs m + 1 < 2 ^ 31
  pub bytes : s.num_bytes_rcved m + n < 2 ^ 31

-- What a chat message leads to.
pub record Relayed (s : Server) (ms : List Ptr) (roster : Ptr → List Ptr) (buf : List ℕ)
    (t : Server) : Type 0 where
  pub unknown : sender s ms buf ≡ null → t ≡ s
  pub alone :
      sender s ms buf ≢ null
      → s.current_room (sender s ms buf) ≡ null
      → t ≡ heard s (sender s ms buf) (length buf)
  pub delivered :
      sender s ms buf ≢ null
      → s.current_room (sender s ms buf) ≢ null
      → (msg : List ℕ) × Labelled (s.member_name (sender s ms buf)) buf msg
        × (t ≡ record (heard s (sender s ms buf) (length buf)) {
          sent =
              deliveries s.member_udp_addr msg (roster (s.current_room (sender s ms buf))) s.sent;
        })

module _ (sendto : UdpAddr → List ℕ → Option ℕ) (buf : List ℕ) (s : Server) (ms rs : List Ptr)
    (roster : Ptr → List Ptr) (v : Inv s ms rs roster) (all : SendsAll sendto) where
  -- The loop, for the members of room `r`.
  to_room :
      (m r : Ptr)
      → has r rs ≡ true
      → broadcast sendto
          (s.num_of_members r + 1)
          (stamp (s.member_name m) buf)
          (length buf)
          (s.member_list_head r)
          (heard s m (length buf))
        ≡ ok (
          tt,
          record (heard s m (length buf)) {
            sent = deliveries s.member_udp_addr (stamp (s.member_name m) buf) (roster r) s.sent;
          },
        )
  to_room m r hr =
      subst
        (λ n.
          broadcast sendto (s.num_of_members r + 1) (stamp (s.member_name m) buf) n
            (s.member_list_head r) (heard s m (length buf))
          ≡ ok (
            tt,
            record (heard s m (length buf)) {
              sent = deliveries s.member_udp_addr (stamp (s.member_name m) buf) (roster r) s.sent;
            },
          ))
        (length-stamp (s.member_name m) buf)
        (broadcast-deliveries sendto (stamp (s.member_name m) buf) (heard s m (length buf))
          (s.num_of_members r + 1) (s.member_list_head r) (roster r) all
          (Walk-of_Seg s.member_live s.next_room_member s.prev_room_member null
            (s.member_list_head r) (roster r) (s.member_list_tail r) (v.rosters.chain r hr))
          (omega (arith, v.rosters.counted r hr)))

  relay-Ends :
      sender s ms buf ≢ null
      → Room s (sender s ms buf) (length buf)
      → Ends (λ a. Relayed s ms roster buf a.1) (relay sendto (sender s ms buf) buf s)
  unfolding relay
  relay-Ends ne h = elim (Bool-cases (s.current_room (sender s ms buf) == null)) [
    | inl alone ↦
        rw (live, fits, first, second, alone)
          (record {
            unknown = λ e. absurd (ne e);
            alone = λ _ _. refl;
            delivered = λ _ n. absurd (n (ground arith));
          })
    | inr inside ↦
        let (hr, at) = v.rosters.housed (sender s ms buf) there (ne_of_test _ _ inside) in
        let room =
          (Walk-live s.room_live s.next_room null s.room_list_head rs
            (s.current_room (sender s ms buf)) v.rooms.walk hr).0 in
        rw
          (
            live,
            fits,
            first,
            second,
            inside,
            room,
            to_room (sender s ms buf) (s.current_room (sender s ms buf)) hr,
          )
          (record {
            unknown = λ e. absurd (ne e);
            alone = λ _ e. absurd (ne_of_test _ _ inside e);
            delivered = λ _ _. (
              stamp (s.member_name (sender s ms buf)) buf,
              stamp-Labelled (s.member_name (sender s ms buf)) buf,
              refl,
            );
          })
  ]
    where
      there : has (sender s ms buf) ms ≡ true
      there = has-member_with_id s (u16_at buf 0) ms ne

      fits : ltb (length (s.member_name (sender s ms buf))) max_member_name_len ≡ true
      fits = ground (arith, h.name)

      first : ltb (s.num_chat_msgs (sender s ms buf) + 1) (2 ^ 31) ≡ true
      first = ground (arith, h.messages)

      second : ltb (s.num_bytes_rcved (sender s ms buf) + length buf) (2 ^ 31) ≡ true
      second = ground (arith, h.bytes)

      live : s.member_live (sender s ms buf) ≡ true
      live = (member_live_lem s ms (sender s ms buf) there v.members).0

  -- If sendto sends whole datagrams, and the sender's name has fewer than 24 bytes and its counters have room
  -- for the message, a chat message ends without a fault. With an unknown sender id it changes nothing; from
  -- a member in no room it changes only that member's counters and quiet flag; from a member of a
  -- room one datagram goes to each member of that room, in their order and the sender included: the message with
  -- the member's name and a zero written over its front. Nothing else is sent.
  pub process_chat_msg-Relayed :
      (sender s ms buf ≢ null → Room s (sender s ms buf) (length buf))
      → Ends (λ a. Relayed s ms roster buf a.1) (process_chat_msg sendto (some buf) s)
  unfolding process_chat_msg
  process_chat_msg-Relayed room = elim (Bool-cases (sender s ms buf == null)) [
    | inl gone ↦
        rw (find_member_with_id_lem s ms (u16_at buf 0) v.members, gone)
          (record {
            unknown = λ _. refl;
            alone = λ n. absurd (n (ground arith));
            delivered = λ n. absurd (n (ground arith));
          })
    | inr found ↦
        rw (find_member_with_id_lem s ms (u16_at buf 0) v.members, found)
          (relay-Ends (ne_of_test _ _ found) (room (ne_of_test _ _ found)))
  ]
