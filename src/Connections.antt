-- ===== src/Connections.antt =====
-- The table of TCP connections in the main loop of a3/server_main.c: a new connection, and the scan
-- for connections that can be read.
pub mod Place
pub mod Reading
use csc469_a.Base.{
  ℕ, zero, suc, ◌+◌, ◌-◌, Option, none, some, Bool, true, false, List, ◌∷◌, ◌==◌, ltb, leb,
  if◌then◌else◌, update, Run, ok, fault, exited, out_of_fuel,
}

abbrev pub max_control_sessions : ℕ
max_control_sessions = 50

-- `none` in the table is the entry -1. `end_idx` is `max_fd_idx + 1`.
pub record Table : Type 0 where
  pub fd_table : ℕ → Option ℕ
  pub end_idx : ℕ
  -- `allset`
  pub watched : ℕ → Bool
  -- the descriptors that were closed, and those whose message was processed, newest first
  pub closed : List ℕ
  pub processed : List ℕ

unfoldable pub init_table : Table → Table
init_table t = record t { fd_table = λ i. none; end_idx = 0 }

abbrev pub is_free : Option ℕ → Bool
is_free none = true
is_free (some fd) = false

abbrev pub for_entry {ℓ} : {A : Type ℓ} → Option ℕ → A → (ℕ → A) → A
for_entry none skip go = skip
for_entry (some fd) skip go = go fd

-- "find a place in fd_table[]": the first free entry from `i` on, or the length of the array, in at
-- most `k` rounds.
unfoldable pub free_entry : ℕ → (ℕ → Option ℕ) → ℕ → ℕ
free_entry zero table i = i
free_entry (suc k) table i =
    let rest = free_entry k table (i + 1) in if is_free (table i) then i else rest

-- The new connection `fd`, when the search ended at `i`: at the length of the array it is closed.
unfoldable pub place_at : ℕ → ℕ → Table → Table
place_at fd i t = record t {
  fd_table = if i == max_control_sessions then t.fd_table else update t.fd_table i (some fd);
  closed = if i == max_control_sessions then fd ∷ t.closed else t.closed;
  end_idx = if ltb t.end_idx (i + 1) then i + 1 else t.end_idx;
  watched = update t.watched fd true;
}

unfoldable pub place : ℕ → Table → Table
place fd t = place_at fd (free_entry max_control_sessions t.fd_table 0) t

-- The state of the scan: `tmp` is `tmp_fd_idx + 1`, and `ready_left` is `num_ready_fds`.
pub record Scan : Type 0 where
  pub table : Table
  pub idx : ℕ
  pub tmp : ℕ
  pub ready_left : ℕ

-- Processing the message of entry `i` and closing its connection.
unfoldable pub serve : ℕ → ℕ → Table → Table
serve i fd t = record t {
  fd_table = update t.fd_table i none;
  watched = update t.watched fd false;
  closed = fd ∷ t.closed;
  processed = fd ∷ t.processed;
}

-- The loop of the scan, in at most `k` rounds. `ready` are the descriptors that select found.
unfoldable pub scan : ℕ → (ℕ → Bool) → Scan → Run Scan
scan zero ready s = out_of_fuel
scan (suc k) ready s =
    let skip = scan k ready (record s { idx = s.idx + 1 }) in
    let pass = scan k ready (record s { idx = s.idx + 1; tmp = s.idx + 1 }) in
    let next = λ (fd : ℕ). scan k ready (record s {
      table = serve s.idx fd s.table;
      idx = s.idx + 1;
      ready_left = s.ready_left - 1;
    }) in
    let last =
      λ (fd : ℕ). ok (record s { table = serve s.idx fd s.table; ready_left = s.ready_left - 1 }) in
    if ltb s.idx s.table.end_idx
    then (if ltb s.idx max_control_sessions
        then for_entry (s.table.fd_table s.idx) skip
            (λ fd. if ready fd then (if leb s.ready_left 1 then last fd else next fd) else pass)
        else fault)
    else ok s

-- A scan that stopped at the last index moves that index to the last connection that it passed.
unfoldable pub shrink : Run Scan → Run Table
shrink (ok s) =
    ok (if s.idx + 1 == s.table.end_idx then record s.table { end_idx = s.tmp } else s.table)
shrink fault = fault
shrink exited = exited
shrink out_of_fuel = out_of_fuel

-- The scan with what follows it.
unfoldable pub scan_table : (ℕ → Bool) → ℕ → Table → Run Table
scan_table ready num_ready_fds t = shrink (
    scan (t.end_idx + 1) ready (record { table = t; idx = 0; tmp = 0; ready_left = num_ready_fds }))
