-- ===== src/Gdt/Tests.antt =====
-- The theorems about src/descriptors/gdt.c on the kernel's own descriptors.
use sector_os_re.Gdt.{gdt_set_gate, init_gdt, Gdt}
use sector_os_re.Base.{refl, ◌≡◌}

abbrev empty_gdt : Gdt
empty_gdt _ = record {
  limit_low = 0;
  base_low = 0;
  base_middle = 0;
  access = 0;
  granularity = 0;
  base_high = 0;
}

user_data_access : (init_gdt empty_gdt 4).access ≡ 0xf2
unfolding init_gdt gdt_set_gate
user_data_access = refl
