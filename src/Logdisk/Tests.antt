-- ===== src/Logdisk/Tests.antt =====
-- The theorems about src/drivers/storage/logdisk.c on a log of eight bytes.
use sector_os_re.Logdisk.{init_logdisk, logdisk_getc, Logdisk}
use sector_os_re.Base.{arith, refl, ◌%◌, ◌≡◌}
use sector_os_re.Logdisk.Ring.{IsValid}

abbrev log : Logdisk
log = record { size = 8; pos = 6; buffer = 0x1000 }

log-IsValid : IsValid log
log-IsValid = record { pos_in = omega arith; in_space = omega arith }

grown : (init_logdisk log 0x4000 100).size ≡ 100
unfolding init_logdisk
grown = refl

read_back : logdisk_getc log (λ a. a % 256) 2 ≡ 2
unfolding logdisk_getc
read_back = refl
