-- ===== src/Gdt.antt =====
-- src/descriptors/gdt.c: the segment descriptors.
pub mod Laws
mod Tests
use Prim.Native.Nat.{bit_and, bit_or, ℕ}
use sector_os_re.Base.{bit_and, bit_or, if◌then◌else◌, ◌/◌, ◌^◌, ◌==◌, ◌%◌, Bool, update, ℕ}
use sector_os_re.Math.{get_bits}

-- `gdt_entry_t`
pub record Entry : Type 0 where
  pub limit_low : ℕ
  pub base_low : ℕ
  pub base_middle : ℕ
  pub access : ℕ
  pub granularity : ℕ
  pub base_high : ℕ

-- `gdt_entries`
abbrev pub Gdt : Type 0
Gdt = ℕ → Entry

pub gdt_set_gate : Gdt → ℕ → ℕ → ℕ → ℕ → ℕ → Gdt
gdt_set_gate entries num base limit access gran = update entries num (record {
  base_low = base % 2 ^ 16;
  base_middle = base / 2 ^ 16 % 256;
  base_high = base / 2 ^ 24 % 256;
  limit_low = limit % 2 ^ 16;
  granularity = bit_or (limit / 2 ^ 16 % 16) (bit_and gran 0xf0);
  access = access;
})

-- The gates that init_gdt sets itself; `init_tss` sets the fifth.
pub init_gdt : Gdt → Gdt
init_gdt entries =
    let g0 = gdt_set_gate entries 0 0 0 0 0 in
    let g1 = gdt_set_gate g0 1 0 0xffff_ffff 0x9a 0xcf in
    let g2 = gdt_set_gate g1 2 0 0xffff_ffff 0x92 0xcf in
    let g3 = gdt_set_gate g2 3 0 0xffff_ffff 0xfa 0xcf in gdt_set_gate g3 4 0 0xffff_ffff 0xf2 0xcf

-- What gdt_handler says of the error code of a general protection fault: whether the fault is
-- internal, the table that it names, and the number of the entry.
pub data Named : Type 0 where
  gdt idt ldt unnamed : Named

pub gdt_handler : ℕ → Bool × Named × ℕ
gdt_handler ecode =
    let external = get_bits ecode 0 1 in
    let table = get_bits ecode 1 1 in
    let index = get_bits ecode 2 13 in
    (
      external == 0,
      if table == 0 then gdt else if table == 1 then idt else if table == 2 then ldt else unnamed,
      index,
    )
