-- ===== src/Session/MemberSteps.antt =====
-- What the member loop of the sweep leaves, and the steps of one round.
use csc469_a.Base.{
  ℕ, ◌+◌, ◌≡◌, refl, ap, ◌∙◌, subst, true, false, List, [], ◌∷◌, ◌++◌, inl, inr, arith, ◌==◌,
  if◌then◌else◌, update, has, erase, eq_self, eq_cases, ne_of_has,
}
use csc469_a.Chain.{Ptr, null}
use csc469_a.Chain.Segment.{Seg-split}
use csc469_a.Server.{Server}
use csc469_a.Session.{Inv, Members}
use csc469_a.Session.Remove.{Kept}

-- Those that were active since the last sweep.
abbrev pub active : (Ptr → ℕ) → List Ptr → List Ptr
active quiet [] = []
active quiet (x ∷ xs) = if quiet x == 0 then x ∷ active quiet xs else active quiet xs

-- The pointer to the first of a list.
abbrev pub head_or : Ptr → List Ptr → Ptr
head_or d [] = d
head_or d (x ∷ xs) = x

pub active_cong :
    (f g : Ptr → ℕ) (xs : List Ptr)
    → ((a : Ptr) → has a xs ≡ true → f a ≡ g a)
    → active f xs ≡ active g xs
active_cong f g [] same = refl
active_cong f g (x ∷ xs) same =
    let here : f x ≡ g x = same x (ground arith) in
    rw (here, active_cong f g xs (λ a h. same a (ground (arith, h))))

pub snoc_append :
    (xs : List Ptr) (a : Ptr) (ys : List Ptr) → (xs ++ (a ∷ [])) ++ ys ≡ xs ++ (a ∷ ys)
snoc_append [] a ys = refl
snoc_append (x ∷ xs) a ys = ap (λ zs. x ∷ zs) (snoc_append xs a ys)

pub erase-append :
    (a : Ptr) (xs ys : List Ptr) → has a xs ≡ false → erase a (xs ++ (a ∷ ys)) ≡ xs ++ ys
erase-append a [] ys out = rw (eq_self a)
erase-append a (x ∷ xs) ys out =
    let other : (a == x) ≡ false = ground arith in rw (other, erase-append a xs ys (ground arith))

-- What the member loop leaves when the members `done` are behind it and `todo` are before it.
pub record MembersSwept (s : Server) (done todo rs : List Ptr) (t : Server) : Type 0 where
  pub roster : Ptr → List Ptr
  pub inv : Inv t (done ++ active s.quiet_flag todo) rs roster
  pub flags :
      (m : Ptr) → t.quiet_flag m ≡ (if has m (active s.quiet_flag todo) then 1 else s.quiet_flag m)
  pub names : t.room_name ≡ s.room_name
  pub member_names : t.member_name ≡ s.member_name
  pub empty : t.empty_flag ≡ s.empty_flag
  pub tail : t.room_list_tail ≡ s.room_list_tail
  pub output : t.sent ≡ s.sent

pub next_head :
    (s : Server) (done : List Ptr) (x : Ptr) (xs : List Ptr)
    → Members s (done ++ (x ∷ xs))
    → s.next_member x ≡ head_or null xs
next_head s done x [] v =
    let (b, p, front, back) =
      Seg-split s.member_live s.next_member s.prev_member null s.mem_list_head done (x ∷ [])
        s.mem_list_tail null v.chain in
    back.4.0
next_head s done x (y ∷ ys) v =
    let (b, p, front, back) =
      Seg-split s.member_live s.next_member s.prev_member null s.mem_list_head done (x ∷ y ∷ ys)
        s.mem_list_tail null v.chain in
    back.4.0

module _ (s : Server) (done : List Ptr) (x : Ptr) (xs rs : List Ptr) where
  -- One more active member.
  pub stays :
      (s.quiet_flag x == 0) ≡ true
      → has x xs ≡ false
      → (t : Server)
      → MembersSwept
          (record s { quiet_flag = update s.quiet_flag x (s.quiet_flag x + 1) })
          (done ++ (x ∷ []))
          xs
          rs
          t
      → MembersSwept s done (x ∷ xs) rs t
  stays awake out t w = record {
    roster = w.roster;
    inv = rw awake (
        subst (λ l. Inv t l rs w.roster)
          (snoc_append done x (active (update s.quiet_flag x (s.quiet_flag x + 1)) xs)
            ∙ ap (λ l. done ++ (x ∷ l)) others)
          w.inv);
    flags = λ m.
        let after =
          subst
            (λ l.
              t.quiet_flag m
              ≡ (if has m l then 1 else update s.quiet_flag x (s.quiet_flag x + 1) m))
            others (w.flags m) in
        rw awake (after ∙ marked m);
    names = w.names;
    member_names = w.member_names;
    empty = w.empty;
    tail = w.tail;
    output = w.output;
  }
    where
      others : active (update s.quiet_flag x (s.quiet_flag x + 1)) xs ≡ active s.quiet_flag xs
      others =
          active_cong (update s.quiet_flag x (s.quiet_flag x + 1)) s.quiet_flag xs (λ a h.
            let other : (a == x) ≡ false = ground (arith, ne_of_has x a xs out h) in rw other)

      marked :
          (m : Ptr)
          → (if has m (active s.quiet_flag xs)
              then 1
              else update s.quiet_flag x (s.quiet_flag x + 1) m)
            ≡ (if has m (x ∷ active s.quiet_flag xs) then 1 else s.quiet_flag m)
      marked m = elim (eq_cases m x) [ inl e ↦ rw (e, eq_self x) (ground arith) | inr n ↦ rw n ]

  -- One more quiet member.
  pub leaves :
      (s.quiet_flag x == 0) ≡ false
      → (u : Server) → Kept s u
      → (t : Server)
      → MembersSwept (record u { member_live = update u.member_live x false }) done xs rs t
      → MembersSwept s done (x ∷ xs) rs t
  leaves asleep u k t w = record {
    roster = w.roster;
    inv = rw asleep (subst (λ q. Inv t (done ++ active q xs) rs w.roster) k.quiet w.inv);
    flags = λ m. rw asleep (
        subst (λ q. t.quiet_flag m ≡ (if has m (active q xs) then 1 else q m)) k.quiet (w.flags m));
    names = w.names ∙ k.room_names;
    member_names = w.member_names ∙ k.names;
    empty = w.empty ∙ k.empty;
    tail = w.tail ∙ k.tail;
    output = w.output ∙ k.output;
  }
