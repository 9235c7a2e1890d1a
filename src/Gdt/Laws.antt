-- ===== src/Gdt/Laws.antt =====
-- What the processor reads of a descriptor that gdt_set_gate of src/descriptors/gdt.c has written,
-- and what gdt_handler says of an error code.
use sector_os_re.Base.{
  refl, all_below_sound, true, ◌&&◌, arith, ◌≢◌, if◌then◌else◌, ◌==◌, ◌/◌, ◌%◌, bit_and, ◌*◌, ◌^◌,
  ◌≡◌, ◌+◌, ◌<◌, bit_or, ℕ, all_below,
}
use sector_os_re.Gdt.{ldt, gdt, Gdt, gdt_handler, Entry, gdt_set_gate}
use sector_os_re.Math.Laws.{get_bits_in_place}

-- The fields of a descriptor, as the processor puts them together.
pub base_of : Entry → ℕ
base_of e = e.base_low + e.base_middle * 2 ^ 16 + e.base_high * 2 ^ 24

pub limit_of : Entry → ℕ
limit_of e = e.limit_low + e.granularity % 16 * 2 ^ 16

flags_table :
    all_below 16 (λ lo.
      all_below 256 (λ g.
        (bit_or lo (bit_and g 0xf0) % 16 == lo) && (bit_or lo (bit_and g 0xf0) / 16 == g / 16)))
    ≡ true
unfolding all_below
flags_table = refl

flags_row :
    (lo g : ℕ)
    → lo < 16
    → g < 256
    → (bit_or lo (bit_and g 0xf0) % 16 ≡ lo) × (bit_or lo (bit_and g 0xf0) / 16 ≡ g / 16)
flags_row lo g hl hg = ground (
  arith,
  all_below_sound 256
      (λ g'.
        (bit_or lo (bit_and g' 0xf0) % 16 == lo) && (bit_or lo (bit_and g' 0xf0) / 16 == g' / 16))
      g
      (all_below_sound 16
        (λ l. all_below 256 (λ g'.
          (bit_or l (bit_and g' 0xf0) % 16 == l) && (bit_or l (bit_and g' 0xf0) / 16 == g' / 16)))
        lo flags_table hl)
      hg,
)

-- gdt_set_gate writes a descriptor that reads back as the base, the lower 20 bits of the limit, the
-- access byte and the upper four bits of the flags; it leaves every other descriptor alone.
pub gdt_set_gate_lem :
    (entries : Gdt) (num base limit access gran : ℕ)
    → base < 2 ^ 32
    → gran < 256
    → let entries' = gdt_set_gate entries num base limit access gran in
      (base_of (entries' num) ≡ base)
      × (limit_of (entries' num) ≡ limit % 2 ^ 20)
      × ((entries' num).access ≡ access)
      × ((entries' num).granularity / 16 ≡ gran / 16)
      × ((i : ℕ) → i ≢ num → entries' i ≡ entries i)
unfolding gdt_set_gate base_of limit_of
gdt_set_gate_lem entries num base limit access gran hb hg =
    let flags = flags_row (limit / 2 ^ 16 % 16) gran (omega arith) hg in
    (ground arith, ground arith, ground arith, ground arith, λ i ne. ground arith)

-- gdt_handler never names the IDT, and gives every index as four times the entry's number: the
-- fields that get_bits answers are compared and printed in place.
pub gdt_handler_fields :
    (ecode : ℕ)
    → let (internal, table, index) = gdt_handler ecode in
      (internal ≡ (ecode % 2 == 0))
      × (table ≡ (if ecode / 2 % 2 == 0 then gdt else ldt))
      × (index ≡ 4 * (ecode / 4 % 2 ^ 13))
unfolding gdt_handler
gdt_handler_fields ecode =
    ground (
      arith,
      get_bits_in_place ecode 0 1,
      get_bits_in_place ecode 1 1,
      get_bits_in_place ecode 2 13,
    )
