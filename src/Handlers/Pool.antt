-- ===== src/Handlers/Pool.antt =====
-- Which public UDP port a new tunnel gets.
use void_link_tunnels.Base.{
  ℕ, zero, suc, ◌+◌, ◌-◌, ◌≤◌, ◌<◌, ◌≡◌, true, false, Option, none, some, List, Bool-cases, inl,
  inr, arith, nat_beq, nat_beq_iff, leb, ◌⊎◌,
}
use mathlib.Core.Path.{subst}
use void_link_tunnels.Models.{Tunnel}
use void_link_tunnels.Handlers.{port_exists, find_port, allocate_udp_port}

-- Every port from `low` up to but not `high` belongs to a row.
record AllTaken (rows : List Tunnel) (low high : ℕ) : Type 0 where
  pub taken : (p : ℕ) → low ≤ p → p < high → port_exists p rows ≡ true

-- What the search over the ports from `low` up to but not `high` may yield.
abbrev IsFirstFree : List Tunnel → ℕ → ℕ → Option ℕ → Type 0
IsFirstFree rows low high none = AllTaken rows low high
IsFirstFree rows low high (some port) =
    (low ≤ port) × (port < high) × (port_exists port rows ≡ false) × AllTaken rows low port

AllTaken-suc :
    (rows : List Tunnel) (low high : ℕ)
    → port_exists low rows ≡ true
    → AllTaken rows (suc low) high
    → AllTaken rows low high
AllTaken-suc rows low high here h = record {
  taken = λ p hl hh. elim (Bool-cases (nat_beq low p)) [
    | inl same ↦ ground (arith, nat_beq_iff low p)
    | inr other ↦ h.taken p (ground (arith, nat_beq_iff low p)) hh
  ];
}

IsFirstFree-suc :
    (rows : List Tunnel) (low high : ℕ) (found : Option ℕ)
    → port_exists low rows ≡ true
    → IsFirstFree rows (suc low) high found
    → IsFirstFree rows low high found
IsFirstFree-suc rows low high none here h = AllTaken-suc rows low high here h
IsFirstFree-suc rows low high (some port) here (hl, hh, free, taken) =
    (omega arith, hh, free, AllTaken-suc rows low port here taken)

find_port-IsFirstFree :
    (rows : List Tunnel) (n port : ℕ)
    → IsFirstFree rows port (port + n) (find_port (λ _. true) rows port n)
unfolding find_port
find_port-IsFirstFree rows zero port = record { taken = λ p hl hh. absurd (omega arith) }
find_port-IsFirstFree rows (suc n) port = elim (Bool-cases (port_exists port rows)) [
  | inl here ↦ rw here (
      IsFirstFree-suc rows port (port + suc n) _ here
        (rw (shift port n) (find_port-IsFirstFree rows n (suc port))))
  | inr free ↦
      rw free (omega arith, omega arith, free, record { taken = λ p hl hh. absurd (omega arith) })
]
  where
    shift : (a b : ℕ) → a + suc b ≡ suc a + b
    shift a b = omega arith

up_to :
    (rows : List Tunnel) (low high : ℕ) (found : Option ℕ)
    → IsFirstFree rows low (low + (high - low)) found
    → IsFirstFree rows low high found
up_to rows low high none h = record { taken = λ p hl hh. h.taken p hl (omega arith) }
up_to rows low high (some port) (hl, hh, free, taken) = (hl, omega arith, free, taken)

allocate_udp_port-IsFirstFree :
    (min_port max_port : ℕ) (rows : List Tunnel)
    → IsFirstFree rows min_port
        (suc max_port)
        (allocate_udp_port (λ _. true) min_port max_port rows)
unfolding allocate_udp_port
allocate_udp_port-IsFirstFree min_port max_port rows =
    up_to rows min_port (suc max_port) _
      (find_port-IsFirstFree rows (suc max_port - min_port) min_port)

-- While the database answers, the port that a new tunnel gets is in the pool and no row has it, and
-- of the ports of the pool it is the first such: any other is above it or belongs to a row.
pub allocate_udp_port-eq-some :
    (min_port max_port port p : ℕ) (rows : List Tunnel)
    → allocate_udp_port (λ _. true) min_port max_port rows ≡ some port
    → min_port ≤ p
    → (min_port ≤ port)
      × (port ≤ max_port)
      × (port_exists port rows ≡ false)
      × ((port ≤ p) ⊎ (port_exists p rows ≡ true))
allocate_udp_port-eq-some min_port max_port port p rows e h =
    let (low, high, free, taken) =
      subst (IsFirstFree rows min_port (suc max_port)) e
        (allocate_udp_port-IsFirstFree min_port max_port rows) in
    (
      low,
      omega arith,
      free,
      elim (Bool-cases (leb port p)) [
        | inl above ↦ inl (ground arith)
        | inr below ↦ inr (taken.taken p h (ground arith))
      ],
    )

-- While the database answers, the allocation fails only if every port of the pool belongs to a row.
pub allocate_udp_port-eq-none :
    (min_port max_port p : ℕ) (rows : List Tunnel)
    → allocate_udp_port (λ _. true) min_port max_port rows ≡ none
    → min_port ≤ p
    → p ≤ max_port
    → port_exists p rows ≡ true
allocate_udp_port-eq-none min_port max_port p rows e low high =
    (subst (IsFirstFree rows min_port (suc max_port)) e
        (allocate_udp_port-IsFirstFree min_port max_port rows)).taken
      p low (omega arith)
