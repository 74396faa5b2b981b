-- ===== src/Session/Safe.antt =====
-- The condition under which no message makes the server fault: the invariant, a tail at the last room,
-- and names that their arrays hold.
pub mod Requests
pub mod Creation
pub mod Arrivals
pub mod Sweeps
pub mod Control
pub mod Handled
pub mod Reach
use csc469_a.Base.{
  ℕ, ◌≤◌, ◌≡◌, refl, true, false, List, has, erase, update, length, arith, ◌==◌, if◌then◌else◌,
  of_has-erase, ap, subst, sym, codes,
}
use csc469_a.Chain.{Ptr}
use csc469_a.Server.{Server}
use csc469_a.Session.{Inv, TailIsLast}
use csc469_a.Session.Find.{replied}
use csc469_a.Session.ListTexts.{NamesFit}

pub record Good (s : Server) (ms rs : List Ptr) (roster : Ptr → List Ptr) : Type 0 where
  pub inv : Inv s ms rs roster
  pub tail : TailIsLast s rs
  pub room_names : NamesFit s.room_name rs
  pub member_names : NamesFit s.member_name ms

-- For some lists of members and rooms.
abbrev pub Sound : Server → Type 0
Sound s = (ms : List Ptr) × (rs : List Ptr) × (roster : Ptr → List Ptr) × Good s ms rs roster

-- A reply changes nothing of this.
pub replied-Sound :
    (fd type id : ℕ) (text : List ℕ) (s : Server) → Sound s → Sound (replied fd type id text s)
replied-Sound fd type id text s (ms, rs, roster, g) = (
  ms,
  rs,
  roster,
  record {
    inv = record { members = g.inv.members; rooms = g.inv.rooms; rosters = g.inv.rosters };
    tail = g.tail;
    room_names = g.room_names;
    member_names = g.member_names;
  },
)

-- Names that are kept still fit.
pub NamesFit-kept :
    (name name' : Ptr → List ℕ) (ps : List Ptr)
    → name' ≡ name
    → NamesFit name ps
    → NamesFit name' ps
NamesFit-kept name name' ps e = subst (λ f. NamesFit f ps) (sym e)
