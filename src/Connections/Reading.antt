-- ===== src/Connections/Reading.antt =====
-- What the scan for readable connections leaves.
use csc469_a.Base.{
  ℕ, zero, suc, ◌+◌, ◌-◌, ◌≤◌, ◌<◌, ◌≡◌, ◌≢◌, refl, ap, Option, none, some, Bool, true, false, inl,
  inr, arith, ◌==◌, ltb, leb, if◌then◌else◌, Bool-cases, eq_cases, eq_self, ok, fault, Ends, Run,
  exited, out_of_fuel,
}
use csc469_a.Connections.{
  Table, Scan, max_control_sessions, is_free, for_entry, serve, scan, scan_table, shrink,
}
use csc469_a.Connections.Place.{Covered}

-- During the scan: the connections that were passed stand below `tmp`.
record Underway (s : Scan) : Type 0 where
  cov : Covered s.table
  passed : (j : ℕ) → j < s.idx → is_free (s.table.fd_table j) ≡ false → j < s.tmp
  low : s.tmp ≤ s.idx
  pos : s.idx ≤ s.table.end_idx

-- After it.
record Finished (s : Scan) : Type 0 where
  cov : Covered s.table
  low : s.tmp ≤ s.table.end_idx
  last :
      s.idx + 1 ≡ s.table.end_idx
      → (j : ℕ) → j < max_control_sessions
      → is_free (s.table.fd_table j) ≡ false
      → j < s.tmp

module _ (s : Scan) (u : Underway s) (more : s.idx < s.table.end_idx) where
  -- A table with one connection less.
  served-Covered : (fd : ℕ) → Covered (serve s.idx fd s.table)
  unfolding serve
  served-Covered fd = record {
    within = u.cov.within;
    below = λ j hj taken. elim (eq_cases j s.idx) [
      | inl e ↦ omega (arith, e)
      | inr n ↦ u.cov.below j hj (rw n at taken)
    ];
  }

  skipped : is_free (s.table.fd_table s.idx) ≡ true → Underway (record s { idx = s.idx + 1 })
  skipped free = record {
    cov = u.cov;
    passed = λ j hj taken. elim (eq_cases j s.idx) [
      | inl e ↦ cc (ap (λ i. is_free (s.table.fd_table i)) e)
      | inr n ↦ u.passed j (ground arith) taken
    ];
    low = omega (arith, u.low);
    pos = omega arith;
  }

  kept : Underway (record s { idx = s.idx + 1; tmp = s.idx + 1 })
  kept = record { cov = u.cov; passed = λ j hj taken. hj; low = omega arith; pos = omega arith }

  next :
      (fd : ℕ)
      → Underway (record s {
        table = serve s.idx fd s.table;
        idx = s.idx + 1;
        ready_left = s.ready_left - 1;
      })
  unfolding serve
  next fd = record {
    cov = served-Covered fd;
    passed = λ j hj taken. elim (eq_cases j s.idx) [
      | inl e ↦ absurd (open_none (rw (e, eq_self s.idx) at taken))
      | inr n ↦ u.passed j (ground arith) (rw n at taken)
    ];
    low = omega (arith, u.low);
    pos = omega arith;
  }
    where
      open_none : true ≢ false
      open_none e = cc

  ended :
      (fd : ℕ)
      → Finished (record s { table = serve s.idx fd s.table; ready_left = s.ready_left - 1 })
  unfolding serve
  ended fd = record {
    cov = served-Covered fd;
    low = omega (arith, u.low);
    last = λ at j hj taken. elim (eq_cases j s.idx) [
      | inl e ↦ absurd (open_none (rw (e, eq_self s.idx) at taken))
      | inr n ↦
          let old : is_free (s.table.fd_table j) ≡ false = rw n at taken in
          u.passed j (ground (arith, u.cov.below j hj old)) old
    ];
  }
    where
      open_none : true ≢ false
      open_none e = cc

for_entry-Ends :
    {A : Type 0} (P : A → Type 0) (o : Option ℕ) (skip : Run A) (go : ℕ → Run A)
    → (is_free o ≡ true → Ends P skip)
    → ((fd : ℕ) → Ends P (go fd))
    → Ends P (for_entry o skip go)
for_entry-Ends P none skip go a b = a refl
for_entry-Ends P (some fd) skip go a b = b fd

scan-Finished :
    (k : ℕ) (ready : ℕ → Bool) (s : Scan)
    → Underway s
    → s.table.end_idx < s.idx + k
    → Ends Finished (scan k ready s)
unfolding scan serve
scan-Finished zero ready s u h = absurd (omega (arith, u.pos))
scan-Finished (suc k) ready s u h = elim (Bool-cases (ltb s.idx s.table.end_idx)) [
  | inl more ↦
      let inside : ltb s.idx max_control_sessions ≡ true = ground (arith, u.cov.within) in
      let m : s.idx < s.table.end_idx = ground arith in
      rw (more, inside)
        (for_entry-Ends Finished (s.table.fd_table s.idx)
          (scan k ready (record s { idx = s.idx + 1 }))
          (λ fd.
            if ready fd
            then (if leb s.ready_left 1
                then ok (record s { table = serve s.idx fd s.table; ready_left = s.ready_left - 1 })
                else scan k ready (record s {
                  table = serve s.idx fd s.table;
                  idx = s.idx + 1;
                  ready_left = s.ready_left - 1;
                }))
            else scan k ready (record s { idx = s.idx + 1; tmp = s.idx + 1 }))
          (λ free.
            scan-Finished k ready (record s { idx = s.idx + 1 }) (skipped s u m free)
              (omega (arith, h)))
          (λ fd. elim (Bool-cases (ready fd)) [
            | inl found ↦ elim (Bool-cases (leb s.ready_left 1)) [
              | inl enough ↦ rw (found, enough) (ended s u m fd)
              | inr some_left ↦
                  rw (found, some_left)
                    (scan-Finished k ready
                      (record s {
                        table = serve s.idx fd s.table;
                        idx = s.idx + 1;
                        ready_left = s.ready_left - 1;
                      })
                      (next s u m fd) (rest fd (omega (arith, h))))
            ]
            | inr quiet ↦ rw quiet (
                scan-Finished k ready (record s { idx = s.idx + 1; tmp = s.idx + 1 }) (kept s u m)
                  (omega (arith, h)))
          ]))
  | inr done ↦ rw done (record {
    cov = u.cov;
    low = omega (arith, u.low, u.pos);
    last = λ at. absurd (ground (arith, u.pos));
  })
]
  where
    rest :
        (fd : ℕ)
        → s.table.end_idx < s.idx + 1 + k
        → (serve s.idx fd s.table).end_idx < s.idx + 1 + k
    rest fd g = g

shrunk : (s : Scan) → Finished s → Ends Covered (shrink (ok s))
unfolding shrink
shrunk s f = elim (Bool-cases (s.idx + 1 == s.table.end_idx)) [
  | inl at ↦
      rw at (record { within = omega (arith, f.low, f.cov.within); below = f.last (ground arith) })
  | inr off ↦ rw off f.cov
]

shrink-Ends : (r : Run Scan) → Ends Finished r → Ends Covered (shrink r)
unfolding shrink
shrink-Ends (ok s) f = shrunk s f
shrink-Ends fault f = f
shrink-Ends exited f = f
shrink-Ends out_of_fuel f = f

-- In a table whose connections stand below the end index, the scan, with a round for each index below
-- the end and one more, ends without a read behind the array, and afterwards the end index covers the
-- connections that are left.
pub scan_table-Covered :
    (ready : ℕ → Bool) (num_ready_fds : ℕ) (t : Table)
    → Covered t
    → Ends Covered (scan_table ready num_ready_fds t)
unfolding scan_table
scan_table-Covered ready n t c =
    shrink-Ends
      (scan (t.end_idx + 1) ready (record { table = t; idx = 0; tmp = 0; ready_left = n }))
      (scan-Finished (t.end_idx + 1) ready (record { table = t; idx = 0; tmp = 0; ready_left = n })
        (record {
          cov = c;
          passed = λ j h. absurd (omega arith);
          low = omega arith;
          pos = omega arith;
        })
        (omega arith))
