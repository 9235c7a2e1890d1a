-- ===== src/Mbr/Probe.antt =====
-- Which partitions probe_partitions of src/fs/mbr.c finds.
use sector_os_re.Mbr.{TableEntry, partition_of, Partition, probe_partitions, probe_entries}
use sector_os_re.Vfs.{Node}
use sector_os_re.Base.{
  zero, refl, [], suc, ◌∷◌, arith, get_elem?, ◌==◌, ◌+◌, ◌≡◌, if◌then◌else◌, none, some, ◌<◌,
  Option, ℕ, List,
}

module _ {W : Type 0} where
  -- The first partition with the number `n`.
  pub find_num : List (Partition W) → ℕ → Option (Partition W)
  find_num [] n = none
  find_num (p ∷ ps) n = if p.num == n then some p else find_num ps n

  -- the partition that an entry of the table describes
  abbrev pub described : Node W → ℕ → Option TableEntry → Option (Partition W)
  described device num none = none
  described device num (some e) =
      if e.partition_id == 0 then none else some (partition_of device num e)

  probe_entries_below :
      (device : Node W) (num n : ℕ) (es : List TableEntry)
      → n < num
      → find_num (probe_entries (some device) num es) n ≡ none
  unfolding probe_entries find_num partition_of
  probe_entries_below device num n [] h = refl
  probe_entries_below device num n (e ∷ es) h =
      ground (arith, probe_entries_below device (num + 1) n es)

  find_num-probe_entries :
      (device : Node W) (num i : ℕ) (es : List TableEntry)
      → find_num (probe_entries (some device) num es) (num + i)
        ≡ described device (num + i) (get_elem? es i)
  unfolding probe_entries find_num partition_of
  find_num-probe_entries device num i [] = refl
  find_num-probe_entries device num zero (e ∷ es) =
      ground (arith, probe_entries_below device (num + 1) num es)
  find_num-probe_entries device num (suc i) (e ∷ es) =
      let shift : num + 1 + i ≡ num + suc i = omega arith in
      ground (arith, rw shift at (find_num-probe_entries device (num + 1) i es))

  -- On a disk with the magic number probe_partitions finds, under each number from 0 to 3, the
  -- partition that the entry of that number in the table describes, and none for an entry with the
  -- id 0; under the number 4 what the bytes behind the table would describe; and nothing under another
  -- number.
  pub probe_partitions_found :
      (device : Node W) (i : ℕ) (e0 e1 e2 e3 behind : TableEntry)
      → find_num (probe_partitions (some device) 0xaa55 e0 e1 e2 e3 behind) i
        ≡ described device i (get_elem? (e0 ∷ e1 ∷ e2 ∷ e3 ∷ behind ∷ []) i)
  unfolding probe_partitions
  probe_partitions_found device i e0 e1 e2 e3 behind =
      let start : 0 + i ≡ i = omega arith in
      rw start at (find_num-probe_entries device 0 i (e0 ∷ e1 ∷ e2 ∷ e3 ∷ behind ∷ []))
