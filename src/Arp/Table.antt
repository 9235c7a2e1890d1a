-- ===== src/Arp/Table.antt =====
-- The ARP table of src/network/arp.c: a ring of 512 entries, searched from the first one on.
use sector_os_re.Arp.{
  suc, some, List, update, settle, store_entry, Entry, lookup_from, arp_lookup, arp_lookup_add,
  ArpTable,
}
use sector_os_re.Base.{
  ◌∙◌, inr, inl, ◌==◌, refl, Bool-cases, zero, some, ◌≡◌, arith, List, ◌+◌, update, ◌≤◌, ◌≢◌, ◌<◌,
  ℕ,
}

pub record IsValid (t : ArpTable) : Type 0 where
  pub current_in : t.current < 512
  pub size_in : t.size ≤ 512

-- Adding an entry keeps the indices within the table.
pub arp_lookup_add-IsValid :
    (t : ArpTable) (mac : List ℕ) (ip : ℕ) → IsValid t → IsValid (arp_lookup_add t mac ip)
unfolding arp_lookup_add store_entry settle
arp_lookup_add-IsValid t mac ip v = ground arith

-- None of the entries from `i` on, and below `end`, has the address.
abbrev pub Absent : (ℕ → Entry) → ℕ → ℕ → ℕ → Type 0
Absent entries ip i end = (j : ℕ) → i ≤ j → j < end → (entries j).ip_addr ≢ ip

lookup_from_first :
    (entries : ℕ → Entry) (ip left i k : ℕ)
    → i ≤ k
    → k < i + left
    → (entries k).ip_addr ≡ ip
    → Absent entries ip i k
    → lookup_from entries ip left i ≡ some (entries k).mac_addr
unfolding lookup_from
lookup_from_first entries ip zero i k lo hi here before = absurd (omega arith)
lookup_from_first entries ip (suc left) i k lo hi here before = elim (Bool-cases (i == k)) [
  | inl at ↦ let e : i ≡ k = ground arith in rw e (ground arith)
  | inr ahead ↦
      let rest =
        lookup_from_first entries ip left (i + 1) k (ground arith) (omega arith) here
          (λ j l h. before j (omega arith) h) in
      let other = before i (omega arith) (ground arith) in ground arith
]

-- What arp_lookup_add has entered, arp_lookup finds, as long as no earlier entry of the table has
-- the same protocol address.
pub arp_lookup-arp_lookup_add :
    (t : ArpTable) (mac : List ℕ) (ip : ℕ)
    → IsValid t
    → Absent t.entries ip 0 t.current
    → arp_lookup (arp_lookup_add t mac ip) ip ≡ some mac
unfolding arp_lookup arp_lookup_add store_entry settle
arp_lookup-arp_lookup_add t mac ip v before =
    let new : Entry = record { ip_addr = ip; mac_addr = mac } in
    let now = update t.entries t.current new in
    let here : (now t.current).ip_addr ≡ ip = ground arith in
    lookup_from_first now ip 512 0 t.current (omega arith) (omega (arith, v.current_in)) here
      (λ j lo hi. ground (arith, before j (omega arith) hi))
    ∙ ground arith

-- An earlier entry with the same protocol address hides the new one: arp_lookup goes on answering
-- the hardware address of the earlier entry.
pub arp_lookup_stale :
    (t : ArpTable) (mac : List ℕ) (ip k : ℕ)
    → IsValid t
    → k < t.current
    → (t.entries k).ip_addr ≡ ip
    → Absent t.entries ip 0 k
    → arp_lookup (arp_lookup_add t mac ip) ip ≡ some (t.entries k).mac_addr
unfolding arp_lookup arp_lookup_add store_entry settle
arp_lookup_stale t mac ip k v lt here before =
    let new : Entry = record { ip_addr = ip; mac_addr = mac } in
    let now = update t.entries t.current new in
    let there : (now k).ip_addr ≡ ip = ground arith in
    lookup_from_first now ip 512 0 k (omega arith) (omega (arith, v.current_in)) there
      (λ j lo hi. ground (arith, before j (omega arith) hi))
    ∙ ground arith

lookup_from-update :
    (entries : ℕ → Entry) (e : Entry) (ip at left i : ℕ)
    → e.ip_addr ≢ ip
    → (entries at).ip_addr ≢ ip
    → lookup_from (update entries at e) ip left i ≡ lookup_from entries ip left i
unfolding lookup_from
lookup_from-update entries e ip at zero i ne old = refl
lookup_from-update entries e ip at (suc left) i ne old =
    ground (arith, lookup_from-update entries e ip at left (i + 1) ne old)

-- An entry for another protocol address changes no answer, unless it takes the place of the entry
-- that is asked for.
pub arp_lookup-arp_lookup_add_ne :
    (t : ArpTable) (mac : List ℕ) (ip asked : ℕ)
    → ip ≢ asked
    → (t.entries t.current).ip_addr ≢ asked
    → arp_lookup (arp_lookup_add t mac ip) asked ≡ arp_lookup t asked
unfolding arp_lookup arp_lookup_add store_entry settle
arp_lookup-arp_lookup_add_ne t mac ip asked ne old =
    lookup_from-update t.entries (record { ip_addr = ip; mac_addr = mac }) asked t.current 512 0 ne
      old
