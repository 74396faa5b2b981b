-- ===== src/Connections/Place.antt =====
-- What a new connection does to the table.
use csc469_a.Base.{
  ℕ, zero, suc, ◌+◌, ◌≤◌, ◌<◌, ◌≡◌, refl, ap, ◌∙◌, Option, some, true, false, ◌∷◌, inl, inr, arith,
  ◌==◌, ltb, update, eq_cases, eq_self,
}
use csc469_a.Connections.{Table, max_control_sessions, is_free, free_entry, place, place_at}

-- Every connection of the table stands below `end_idx`, and that is within the array.
pub record Covered (t : Table) : Type 0 where
  pub within : t.end_idx ≤ max_control_sessions
  pub below : (i : ℕ) → i < max_control_sessions → is_free (t.fd_table i) ≡ false → i < t.end_idx

-- The first free entry ends the search.
free_entry-first :
    (k : ℕ) (table : ℕ → Option ℕ) (i n : ℕ)
    → i ≤ n
    → n < i + k
    → is_free (table n) ≡ true
    → ((j : ℕ) → i ≤ j → j < n → is_free (table j) ≡ false)
    → free_entry k table i ≡ n
unfolding free_entry
free_entry-first zero table i n lo hi free before = absurd (omega arith)
free_entry-first (suc k) table i n lo hi free before = elim (eq_cases i n) [
  | inl e ↦
      let here : is_free (table i) ≡ true = ap (λ m. is_free (table m)) (ground arith) ∙ free in
      rw here (ground arith)
  | inr other ↦
      let taken : is_free (table i) ≡ false = before i (omega arith) (ground arith) in
      rw taken (
        free_entry-first k table (i + 1) n (ground arith) (omega arith) free
          (λ j a b. before j (omega arith) b))
]

free_entry-none :
    (k : ℕ) (table : ℕ → Option ℕ) (i : ℕ)
    → ((j : ℕ) → i ≤ j → j < i + k → is_free (table j) ≡ false)
    → free_entry k table i ≡ i + k
unfolding free_entry
free_entry-none zero table i taken = omega arith
free_entry-none (suc k) table i taken =
    let here : is_free (table i) ≡ false = taken i (omega arith) (omega arith) in
    rw here
      (free_entry-none k table (i + 1) (λ j a b. taken j (omega arith) (omega arith)) ∙ omega arith)

-- The outcome for a new connection: with the entry `i` as the first free one, and with all entries taken.
pub record Placed (fd : ℕ) (t u : Table) : Type 0 where
  pub stored :
      (i : ℕ)
      → i < max_control_sessions
      → is_free (t.fd_table i) ≡ true
      → ((j : ℕ) → j < i → is_free (t.fd_table j) ≡ false)
      → (u.fd_table ≡ update t.fd_table i (some fd))
        × (u.closed ≡ t.closed)
        × (u.watched fd ≡ true)
        × Covered u
  pub full :
      ((i : ℕ) → i < max_control_sessions → is_free (t.fd_table i) ≡ false)
      → (u.fd_table ≡ t.fd_table)
        × (u.closed ≡ fd ∷ t.closed)
        × (u.watched fd ≡ true)
        × (u.end_idx ≡ max_control_sessions + 1)

module _ (fd : ℕ) (t : Table) (c : Covered t) (i : ℕ) where
  stored-Covered : i < max_control_sessions → Covered (place_at fd i t)
  unfolding place_at
  stored-Covered h =
      let room : (i == max_control_sessions) ≡ false = ground arith in
      record {
        within = ground (arith, c.within);
        below = λ j hj taken. elim (eq_cases j i) [
          | inl e ↦ ground arith
          | inr n ↦
              let old : is_free (t.fd_table j) ≡ false = rw (room, n) at taken in
              ground (arith, c.below j hj old)
        ];
      }

-- In a table whose connections stand below the end index, a new connection is stored in the first free of the 50
-- entries and watched, and the end index covers the table again. If all 50 entries are taken, the table stays, the
-- new connection is closed and nevertheless watched by select, and the end index becomes 51.
pub place-Placed : (fd : ℕ) (t : Table) → Covered t → Placed fd t (place fd t)
unfolding place place_at
place-Placed fd t c = record {
  stored = λ i h free before.
      let at : free_entry max_control_sessions t.fd_table 0 ≡ i =
        free_entry-first max_control_sessions t.fd_table 0 i (omega arith) (omega arith) free
          (λ j a b. before j b) in
      let room : (i == max_control_sessions) ≡ false = ground arith in
      rw at (rw room refl, rw room refl, rw (eq_self fd) refl, stored-Covered fd t c i h);
  full = λ taken.
      let at : free_entry max_control_sessions t.fd_table 0 ≡ max_control_sessions =
        free_entry-none max_control_sessions t.fd_table 0 (λ j a b. taken j (omega (arith, b))) in
      let grows : ltb t.end_idx (max_control_sessions + 1) ≡ true = ground (arith, c.within) in
      rw at (refl, refl, rw (eq_self fd) refl, rw grows refl);
}
