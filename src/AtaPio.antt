-- ===== src/AtaPio.antt =====
-- src/drivers/storage/ata_pio.c: disks behind the ports of an ATA channel. What the disk answers is an
-- argument: each read of the status register by its number, and each word of the data register by its
-- number. What is sent is a list of writes to ports.
pub mod Sectors
pub mod Loops
pub mod Words
pub mod Driver
mod Tests
use sector_os_re.Bytes.Fields.{half_at, word_at}
use sector_os_re.Base.{
  leb, not, ◌&&◌, zero, ◌++◌, ◌*◌, ltb, bit_and, some, ◌∷◌, update, ◌^◌, none, bit_or, ◌==◌, ◌/◌,
  suc, ◌>>=◌, [], if◌then◌else◌, Memory, Option, ◌-◌, ◌+◌, ◌%◌, Bool, List, ℕ,
}

-- `ata_pio_t`. `model` is the text; the fields that no function reads are left out.
pub record AtaPio : Type 0 where
  pub master : Bool
  pub base_port : ℕ
  pub data_port : ℕ
  pub error_port : ℕ
  pub sector_count_port : ℕ
  pub lba_low_port : ℕ
  pub lba_mid_port : ℕ
  pub lba_hi_port : ℕ
  pub device_port : ℕ
  pub command_port : ℕ
  pub control_port : ℕ
  pub bytes_per_sector : ℕ

-- A write of a value to a port.
abbrev pub Out : Type 0
Out = ℕ × ℕ

-- ata_piodev_init up to its call of ata_pio_identify.
pub ata_piodev_init : Bool → Bool → AtaPio
ata_piodev_init primary master =
    let base = if primary then 0x1f0 else 0x170 in
    record {
      master = master;
      base_port = base;
      data_port = base;
      error_port = base + 1;
      sector_count_port = base + 2;
      lba_low_port = base + 3;
      lba_mid_port = base + 4;
      lba_hi_port = base + 5;
      device_port = base + 6;
      command_port = base + 7;
      control_port = base + 0x206;
      bytes_per_sector = 512;
    }

-- `while` the status has bit 0x80 and not bit 0x01: the status that ends the loop, on fuel. `k` is the
-- number of the next read.
pub poll : ℕ → (ℕ → ℕ) → ℕ → Option ℕ
poll zero statuses k = none
poll (suc rounds) statuses k =
    let rest = poll rounds statuses (k + 1) in
    let status = statuses k in
    if (bit_and status 0x80 == 0x80) && not (bit_and status 0x01 == 0x01) then rest else some status

-- `|` binds before `? :`, so the bits of `lba` are part of the second choice only.
pub device_select : AtaPio → ℕ → ℕ
device_select ap lba = if ap.master then 0xe0 else bit_or 0xf0 (bit_and lba 0x0f00_0000 / 2 ^ 24)

-- What is sent before the status is read.
pub task_file : AtaPio → ℕ → ℕ → List Out
task_file ap lba command =
    (ap.device_port, device_select ap lba % 2 ^ 8)
    ∷ (ap.error_port, 0)
    ∷ (ap.sector_count_port, 1)
    ∷ (ap.lba_low_port, bit_and lba 0x0000_00ff)
    ∷ (ap.lba_mid_port, bit_and lba 0x0000_ff00 / 2 ^ 8)
    ∷ (ap.lba_hi_port, bit_and lba 0x00ff_0000 / 2 ^ 16)
    ∷ (ap.command_port, command)
    ∷ []

-- `for (i = from; i < to; i += 2)` goes round so often.
pub pairs : ℕ → ℕ → ℕ
pairs from to = (to - from + 1) / 2

-- The loop of ata_pio_Read28 that fills the buffer from index `i` on, with the rounds that are left.
pub take_words : ℕ → (ℕ → ℕ) → ℕ → ℕ → Memory → Memory
take_words zero words count i buffer = buffer
take_words (suc rounds) words count i buffer =
    let wdata = words (i / 2) in
    let low = update buffer i (bit_and wdata 0x00ff) in
    let both =
      if ltb (i + 1) count then update low (i + 1) (bit_and (wdata / 2 ^ 8) 0x00ff) else low in
    take_words rounds words count (i + 2) both

-- The words that ata_pio_Write28 sends of the buffer.
pub give_words : ℕ → Memory → ℕ → ℕ → List ℕ
give_words zero buffer count i = []
give_words (suc rounds) buffer count i =
    let wdata =
      if ltb (i + 1) count then bit_or (buffer i) (buffer (i + 1) * 2 ^ 8) else buffer i in
    wdata ∷ give_words rounds buffer count (i + 2)

-- How ata_pio_Read28 ends: what it sent, the number of words it took and the buffer.
pub record Reading : Type 0 where
  pub sent : List Out
  pub taken : ℕ
  pub buffer : Memory

-- How ata_pio_Write28 ends: what it sent, and the words behind it.
pub record Writing : Type 0 where
  pub sent : List Out
  pub words : List ℕ

pub padding : AtaPio → ℕ → ℕ
padding ap count = pairs (count + count % 2) ap.bytes_per_sector

-- `none` is a disk that stays busy. A status with the error bit leaves the buffer as it is.
pub ata_pio_Read28 : ℕ → (ℕ → ℕ) → (ℕ → ℕ) → AtaPio → ℕ → ℕ → Memory → Option Reading
ata_pio_Read28 rounds statuses words ap lba count buffer = do
  status ← poll rounds statuses 0
  let sent = task_file ap lba 0x20
  some (
      if bit_and status 0x01 == 0
      then record {
        sent = sent;
        taken = pairs 0 count + padding ap count;
        buffer = take_words (pairs 0 count) words count 0 buffer;
      }
      else record { sent = sent; taken = 0; buffer = buffer })

pub zeros : ℕ → List ℕ
zeros zero = []
zeros (suc n) = 0 ∷ zeros n

pub ata_pio_Write28 : ℕ → (ℕ → ℕ) → AtaPio → ℕ → ℕ → Memory → Option Writing
ata_pio_Write28 rounds statuses ap lba count buffer = do
  status ← poll rounds statuses 0
  let sent = task_file ap lba 0x30
  some (
      if bit_and status 0x01 == 0
      then record {
        sent = sent;
        words = give_words (pairs 0 count) buffer count 0 ++ zeros (padding ap count);
      }
      else record { sent = sent; words = [] })

-- What is sent, and the status at the end.
unfoldable pub ata_pio_Flush28 : ℕ → (ℕ → ℕ) → AtaPio → Option (List Out × ℕ)
ata_pio_Flush28 rounds statuses ap = do
  status ← poll rounds statuses 0
  some ((ap.device_port, if ap.master then 0xe0 else 0xf0) ∷ (ap.command_port, 0xe7) ∷ [], status)

-- `fresh` is the memory that kmalloc answers.
unfoldable pub ata_pio_read_sector : ℕ → (ℕ → ℕ) → (ℕ → ℕ) → AtaPio → ℕ → Memory → Option Reading
ata_pio_read_sector rounds statuses words ap lba fresh =
    ata_pio_Read28 rounds statuses words ap lba ap.bytes_per_sector fresh

-- `flushing` is the status that the disk answers after the words.
unfoldable pub ata_pio_write_sector :
    ℕ → (ℕ → ℕ) → (ℕ → ℕ) → AtaPio → ℕ → Memory → Option (Writing × List Out × ℕ)
ata_pio_write_sector rounds statuses flushing ap lba buffer = do
  writing ← ata_pio_Write28 rounds statuses ap lba ap.bytes_per_sector buffer
  flushed ← ata_pio_Flush28 rounds flushing ap
  some (writing, flushed.0, flushed.1)

-- The name of the disk is "apio" with this digit, and its size is what the disk says of itself.
unfoldable pub ata_pio_GetVFSNode : AtaPio → ℕ
ata_pio_GetVFSNode ap =
    if ap.base_port == 0x1f0
    then (if ap.master then b'0' else b'1')
    else (if ap.master then b'2' else b'3')

-- What ata_pio_identify stores of the answer. `model` is a text of 40 characters and a 0.
pub record Identity : Type 0 where
  pub channel : ℕ
  pub disk_type : ℕ
  pub signature : ℕ
  pub capabilities : ℕ
  pub command_sets : ℕ
  pub size : ℕ
  pub model : Memory

pub data Identifying : Type 0 where
  no_bus not_found busy failed : Identifying
  identified : Identity → Identifying

-- `id_buf`: the words of the answer as bytes.
pub id_bytes : (ℕ → ℕ) → Memory
id_bytes words a = if a % 2 == 0 then words (a / 2) % 2 ^ 8 else words (a / 2) / 2 ^ 8 % 2 ^ 8

-- The bytes of each word change places.
unfoldable pub model_of : Memory → Memory
model_of id_buf i =
    if leb 40 i then 0 else if i % 2 == 0 then id_buf (54 + i + 1) else id_buf (54 + (i - 1))

pub identity_of : (ℕ → ℕ) → Identity
identity_of words =
    let id_buf = id_bytes words in
    let command_sets = half_at id_buf 164 in
    record {
      channel = 1;
      disk_type = 0;
      signature = half_at id_buf 0;
      capabilities = half_at id_buf 98;
      command_sets = command_sets;
      size = if bit_and command_sets (2 ^ 26) == 0 then word_at id_buf 120 else word_at id_buf 200;
      model = model_of id_buf;
    }

pub identify_polled : (ℕ → ℕ) → Option ℕ → Identifying
identify_polled words none = busy
identify_polled words (some status) =
    if bit_and status 0x01 == 0 then identified (identity_of words) else failed

-- `statuses` are the reads of the status register, the first one before the command is sent.
pub ata_pio_identify : ℕ → (ℕ → ℕ) → (ℕ → ℕ) → Identifying
ata_pio_identify rounds statuses words =
    if statuses 0 == 0xff
    then no_bus
    else if statuses 1 == 0
    then not_found
    else identify_polled words (poll rounds statuses 1)
