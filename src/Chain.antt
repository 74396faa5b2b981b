-- ===== src/Chain.antt =====
-- Doubly linked lists of a3/server_util.c: the session's member list (next_member, prev_member,
-- mem_list_head, mem_list_tail) and each room's list (next_room_member, prev_room_member,
-- member_list_head, member_list_tail). The code writes the same two pointer manipulations out for
-- each list; here they are `unlink` and `append_tail`. A field of all objects is an array indexed by
-- address, address 0 is NULL, and reading or writing through a pointer that is not live is a fault.
pub mod Segment
pub mod Unlink
pub mod Append
use csc469_a.Base.{ℕ, Bool, true, false, ◌&&◌, Option, none, some, ◌==◌, if◌then◌else◌, update}

abbrev pub Ptr : Type 0
Ptr = ℕ

abbrev pub null : Ptr
null = 0

pub record Links : Type 0 where
  pub next : Ptr → Ptr
  pub prev : Ptr → Ptr
  pub head : Ptr
  pub tail : Ptr

-- Unlinking the first node `m`.
unlink_first : (Ptr → Bool) → Ptr → Links → Option Links
unlink_first live m l =
    if l.next m == null
    then some (record l { head = l.next m; tail = l.next m })
    else if live (l.next m)
    then some (record l { head = l.next m; prev = update l.prev (l.next m) null })
    else none

-- Unlinking a node `m` whose predecessor is written first; `mt->next` is read after that write.
unlink_inner : (Ptr → Bool) → Ptr → Links → Option Links
unlink_inner live m l =
    if live (l.prev m)
    then (let after : Ptr → Ptr = update l.next (l.prev m) (l.next m) in
        if after m == null
        then some (record l { next = after; tail = l.prev m })
        else if live (after m)
        then some (record l { next = after; prev = update l.prev (after m) (l.prev m) })
        else none)
    else none

pub unlink : (Ptr → Bool) → Ptr → Links → Option Links
unfolding unlink_first unlink_inner
unlink live m l =
    if live m
    then (if l.prev m == null then unlink_first live m l else unlink_inner live m l)
    else none

-- Adding `m` behind the tail. The tail is then read again through the node's new `next`.
pub append_tail : (Ptr → Bool) → Ptr → Links → Option Links
append_tail live m l =
    if l.head == null
    then some (record l { head = m; tail = m })
    else if live l.tail && live m
    then (let after : Ptr → Ptr = update l.next l.tail m in
        some (record l { next = after; prev = update l.prev m l.tail; tail = after l.tail }))
    else none
