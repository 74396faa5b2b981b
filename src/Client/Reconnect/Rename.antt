-- ===== src/Client/Reconnect/Rename.antt =====
-- The registration of a client whose name is in use at the new server.
use csc469_a.Base.{
  ℕ, zero, suc, ◌+◌, ◌^◌, ◌≤◌, ◌<◌, ◌≡◌, refl, sym, ap, ◌∙◌, none, some, List, ◌∷◌, ◌++◌, arith,
  codes, length, length-append, append-nil, append_assoc, replicate, ok, fault, ltb, true, false,
  Bool-cases, inl, inr,
}
use csc469_a.Protocol
use csc469_a.Protocol.{
  header_bytes, u16_bytes, u16_at, c_str, has_zero, control_msghdr_size, max_member_name_len,
}
use csc469_a.Client.{
  prepare_register_request, handle_register_response, rejected, copy_error, text_size,
}
use csc469_a.Client.Send.{send_register_request}
use csc469_a.Client.Reconnect.{
  Net, Core, tried, send_plain, re_register_func, make_way, append_underscore, contains,
  starts_with,
}

-- The server's answer to a name in use; `rest` is what the client's buffer holds behind a zero.
abbrev pub in_use : List ℕ → List ℕ × ℕ
in_use rest = (
  header_bytes Protocol.register_fail 0 35 ++ (codes "Name has already been used!" ++ (0 ∷ rest)),
  35,
)

abbrev pub welcome : ℕ → List ℕ × ℕ
welcome id = (header_bytes Protocol.register_succ id control_msghdr_size, control_msghdr_size)

module _ (net : Net) (server : List ℕ → List ℕ × ℕ) (id : ℕ) (rest : List ℕ) where
  abbrev asked : List ℕ → List ℕ × ℕ
  asked name = server (prepare_register_request net.udp_port name net.reserved)

  -- The name and its `j - 1` next versions are in use, and the one after them is free.
  abbrev pub Taken : ℕ → List ℕ → Type 0
  Taken zero name = asked name ≡ welcome id
  Taken (suc j) name = (asked name ≡ in_use rest) × Taken j (name ++ codes "_")

refused_lem :
    (stale : List ℕ) (port member_id : ℕ) (name reserved rest : List ℕ)
    → send_register_request stale (λ request. in_use rest) port name member_id reserved
      ≡ ok (some (codes "Name has already been used!"), member_id)
unfolding send_register_request handle_register_response rejected copy_error text_size header_bytes
    u16_bytes u16_at has_zero c_str
refused_lem stale port member_id name reserved rest = refl

welcome_lem :
    (stale : List ℕ) (port member_id : ℕ) (name reserved : List ℕ) (id : ℕ)
    → id < 2 ^ 16
    → send_register_request stale (λ request. welcome id) port name member_id reserved
      ≡ ok (none, id)
unfolding send_register_request handle_register_response header_bytes u16_bytes u16_at
welcome_lem stale port member_id name reserved id h = ap (λ i. ok (none, i)) (omega arith)

way_lem :
    (core : Core) → make_way (codes "Name has already been used!") core ≡ append_underscore core
unfolding make_way contains starts_with
way_lem core = refl

-- The client after `j` refusals.
abbrev pub renamed : Core → ℕ → ℕ → Core
renamed core j id = record core {
  member_name = core.member_name ++ replicate j 95;
  member_id = id;
  tries = core.tries + j + 1;
}

-- The client after one refusal.
abbrev longer : Core → Core
longer core = record core { member_name = core.member_name ++ codes "_"; tries = core.tries + 1 }

longer_size : (core : Core) → length (longer core).member_name ≡ length core.member_name + 1
longer_size core = length-append core.member_name (codes "_")

underscore_lem :
    (core : Core)
    → length core.member_name + 2 ≤ max_member_name_len
    → append_underscore core ≡ ok (record core { member_name = core.member_name ++ codes "_" })
unfolding append_underscore
underscore_lem core h =
    let fits : ltb max_member_name_len (length core.member_name + 2) ≡ false = ground arith in
    rw fits

overflow_lem :
    (core : Core)
    → max_member_name_len < length core.member_name + 2
    → append_underscore core ≡ fault
unfolding append_underscore
overflow_lem core h =
    let over : ltb max_member_name_len (length core.member_name + 2) ≡ true = ground arith in
    rw over

same :
    {id t t' : ℕ} {name name' : List ℕ} (core : Core)
    → name ≡ name'
    → t ≡ t'
    → ok (record core { member_name = name; member_id = id; tries = t })
      ≡ ok (record core { member_name = name'; member_id = id; tries = t' })
same core a b = rw (a, b)

module _ (net : Net) (server : List ℕ → List ℕ × ℕ) (id : ℕ) (rest : List ℕ)
    (up : (i : ℕ) (request : List ℕ) → net.attempt i request ≡ some (server request))
    (fits : id < 2 ^ 16) where
  one_try :
      (k : ℕ) (request : List ℕ) (core : Core)
      → send_plain (suc k) net request core ≡ ok (server request, tried core)
  unfolding send_plain
  one_try k request core = rw (up core.tries request, send_plain) refl

  renames :
      (j k : ℕ) (core : Core)
      → Taken net server id rest j core.member_name
      → length core.member_name + j < max_member_name_len
      → j + 2 ≤ k
      → re_register_func k net core ≡ ok (renamed core j id)
  unfolding re_register_func append_underscore
  renames j zero core taken short h = absurd (omega arith)
  renames j (suc zero) core taken short h = absurd (omega arith)
  renames zero (suc (suc k)) core taken short h =
      rw
        (
          one_try k (prepare_register_request net.udp_port core.member_name net.reserved) core,
          taken,
          welcome_lem (net.stale core.tries) net.udp_port core.member_id core.member_name
              net.reserved id fits,
        )
        (same core (sym (append-nil core.member_name)) (omega arith))
  renames (suc j) (suc (suc k)) core (used, taken) short h =
      rw
        (
          one_try k (prepare_register_request net.udp_port core.member_name net.reserved) core,
          used,
          refused_lem (net.stale core.tries) net.udp_port core.member_id core.member_name
              net.reserved rest,
          way_lem (tried core),
          underscore_lem (tried core) (omega arith),
        )
        (renames j (suc k) (longer core) taken (omega (arith, longer_size core)) (omega (arith, h))
          ∙ same core (append_assoc core.member_name (codes "_") (replicate j 95)) (omega arith))

  overflows :
      (j k : ℕ) (core : Core)
      → Taken net server id rest j core.member_name
      → length core.member_name < max_member_name_len
      → max_member_name_len ≤ length core.member_name + j
      → j + 2 ≤ k
      → re_register_func k net core ≡ fault
  unfolding re_register_func
  overflows j zero core taken short full h = absurd (omega arith)
  overflows j (suc zero) core taken short full h = absurd (omega arith)
  overflows zero (suc (suc k)) core taken short full h = absurd (omega arith)
  overflows (suc j) (suc (suc k)) core (used, taken) short full h =
      rw
        (
          one_try k (prepare_register_request net.udp_port core.member_name net.reserved) core,
          used,
          refused_lem (net.stale core.tries) net.udp_port core.member_id core.member_name
              net.reserved rest,
          way_lem (tried core),
        )
        (elim (Bool-cases (ltb max_member_name_len (length core.member_name + 2))) [
          | inl over ↦ rw (overflow_lem (tried core) (ground arith)) refl
          | inr fits ↦ rw (underscore_lem (tried core) (ground arith)) (
              overflows j (suc k) (longer core) taken (ground (arith, longer_size core))
                (omega (arith, full, longer_size core)) (omega (arith, h)))
        ])

  -- What becomes of the registration after `j` refusals.
  pub record Renamed (j k : ℕ) (core : Core) : Type 0 where
    pub fits_array :
        length core.member_name + j < max_member_name_len
        → re_register_func k net core ≡ ok (renamed core j id)
    pub overflow :
        max_member_name_len ≤ length core.member_name + j → re_register_func k net core ≡ fault

  -- A server that can be reached says that the client's name is in use, and so is the name with one underscore
  -- behind it, and so on for `j` names; the next name is free. The client's name stands in an array of
  -- 24 bytes. If the free name fits there, then with a round for each name and one more the client is registered
  -- under it, after `j + 1` attempts and without a sleep. If it does not fit, an underscore is written past
  -- the end of the array.
  pub re_register_func-Renamed :
      (j k : ℕ) (core : Core)
      → Taken net server id rest j core.member_name
      → length core.member_name < max_member_name_len
      → j + 2 ≤ k
      → Renamed j k core
  re_register_func-Renamed j k core taken short h = record {
    fits_array = λ few. renames j k core taken few h;
    overflow = λ many. overflows j k core taken short many h;
  }
