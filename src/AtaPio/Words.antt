-- ===== src/AtaPio/Words.antt =====
-- The words and the sector numbers that src/drivers/storage/ata_pio.c exchanges with a disk.
use sector_os_re.Base.{
  false, true, if◌then◌else◌, Bool, bit_and-shift, length-append, ltb→lt, inr, bit_and-mask, ap,
  bit_and, inl, some, Bool-cases, update, ◌&&◌, leb, bit_or-shift, refl, zero, ◌∙◌, ◌⊎◌,
  bit_or_step, ◌+◌, ◌*◌, ◌/◌, ◌++◌, [], arith, bit_or, ltb, ◌≡◌, ◌==◌, ◌^◌, length, ◌≤◌, ◌<◌, ◌%◌,
  List, ℕ, Memory,
}
use sector_os_re.AtaPio.{
  Bool, ata_piodev_init, Out, device_select, task_file, Reading, Writing, AtaPio, pairs, padding,
  ata_pio_Read28, bit_and, some, ata_pio_Write28, update, poll, bit_or, suc, ltb, ◌∷◌, zeros,
  take_words, give_words,
}

bit_or_comm : (n a b : ℕ) → a ≤ n → b ≤ n → bit_or a b ≡ bit_or b a
bit_or_comm zero a b le le' =
    let e : a ≡ 0 = omega arith in let e' : b ≡ 0 = omega arith in rw (e, e') refl
bit_or_comm (suc n) a b le le' =
    let halves = bit_or_comm n (a / 2) (b / 2) (omega arith) (omega arith) in
    omega (arith, bit_or_step a b, bit_or_step b a, halves)

-- Two bytes as one word, and the bytes of a word.
word_of_bytes : (low high : ℕ) → low < 2 ^ 8 → bit_or low (high * 2 ^ 8) ≡ high * 2 ^ 8 + low
word_of_bytes low high lt =
    bit_or_comm (low + high * 2 ^ 8) low (high * 2 ^ 8) (omega arith) (omega arith)
    ∙ bit_or-shift 8 high low lt

-- The word with the number `k` of those that were sent.
unfoldable pub word_in : List ℕ → ℕ → ℕ
word_in [] k = 0
word_in (w ∷ words) zero = w
word_in (w ∷ words) (suc k) = word_in words k

-- The word for two bytes of a buffer of `count` bytes, from index `i` on.
abbrev pair_at : Memory → ℕ → ℕ → ℕ
pair_at buffer count i = if ltb (i + 1) count then buffer (i + 1) * 2 ^ 8 + buffer i else buffer i

give_words-at :
    (buffer : Memory) (count rounds i k : ℕ) (rest : List ℕ)
    → ((j : ℕ) → buffer j < 2 ^ 8)
    → k < rounds
    → word_in (give_words rounds buffer count i ++ rest) k ≡ pair_at buffer count (i + 2 * k)
unfolding give_words word_in
give_words-at buffer count zero i k rest bytes lt = absurd (omega arith)
give_words-at buffer count (suc rounds) i zero rest bytes lt =
    let whole = word_of_bytes (buffer i) (buffer (i + 1)) (bytes i) in
    let here : i + 2 * 0 ≡ i = omega arith in rw (here, whole) refl
give_words-at buffer count (suc rounds) i (suc k) rest bytes lt =
    let next : i + 2 * suc k ≡ i + 2 + 2 * k = omega arith in
    rw next (give_words-at buffer count rounds (i + 2) k rest bytes (omega arith))

length-give_words :
    (buffer : Memory) (count rounds i : ℕ) → length (give_words rounds buffer count i) ≡ rounds
unfolding give_words
length-give_words buffer count zero i = refl
length-give_words buffer count (suc rounds) i =
    omega (arith, length-give_words buffer count rounds (i + 2))

length-zeros : (n : ℕ) → length (zeros n) ≡ n
unfolding zeros
length-zeros zero = refl
length-zeros (suc n) = omega (arith, length-zeros n)

-- The byte with the index `j` in a row of words.
abbrev pub byte_of : (ℕ → ℕ) → ℕ → ℕ
byte_of words j = if j % 2 == 0 then words (j / 2) % 2 ^ 8 else words (j / 2) / 2 ^ 8 % 2 ^ 8

pub take_words-at :
    (words : ℕ → ℕ) (count rounds i j : ℕ) (buffer : Memory)
    → i % 2 ≡ 0
    → (i + 2 * rounds ≡ count) ⊎ (i + 2 * rounds ≡ count + 1)
    → take_words rounds words count i buffer j
      ≡ (if leb i j && ltb j count then byte_of words j else buffer j)
unfolding take_words
take_words-at words count zero i j buffer even end = ground arith
take_words-at words count (suc rounds) i j buffer even end =
    let low = update buffer i (bit_and (words (i / 2)) 0x00ff) in
    let both : Memory =
      if ltb (i + 1) count
      then update low (i + 1) (bit_and (words (i / 2) / 2 ^ 8) 0x00ff)
      else low in
    let later = take_words-at words count rounds (i + 2) j both (omega arith) (omega arith) in
    let mask = bit_and-mask 8 (words (i / 2)) in
    let mask' = bit_and-mask 8 (words (i / 2) / 2 ^ 8) in
    elim (Bool-cases (j == i)) [
      | inl first ↦
          let e : j ≡ i = ground arith in
          let w : words (j / 2) ≡ words (i / 2) = ap (λ x. words (x / 2)) e in
          later ∙ ground (arith, e, w, mask, mask')
      | inr other ↦ elim (Bool-cases (j == i + 1)) [
        | inl second ↦
            let e : j ≡ i + 1 = ground arith in
            let half : j / 2 ≡ i / 2 = omega arith in
            let w : words (j / 2) ≡ words (i / 2) = ap words half in
            later ∙ ground (arith, e, w, mask, mask')
        | inr beyond ↦ later ∙ ground arith
      ]
    ]

-- The bytes of a pair are those of the buffer.
byte_of-pair :
    (buffer : Memory) (count j : ℕ) (words : ℕ → ℕ)
    → ((j : ℕ) → buffer j < 2 ^ 8)
    → j < count
    → words (j / 2) ≡ pair_at buffer count (0 + 2 * (j / 2))
    → byte_of words j ≡ buffer j
byte_of-pair buffer count j words bytes lt pair =
    let low = bytes (0 + 2 * (j / 2)) in
    let high = bytes (0 + 2 * (j / 2) + 1) in
    elim (Bool-cases (j % 2 == 0)) [
      | inl even ↦
          let e : 0 + 2 * (j / 2) ≡ j = ground arith in
          let at = ap buffer e in ground (arith, pair, low, high, at)
      | inr odd ↦
          let e : 0 + 2 * (j / 2) + 1 ≡ j = ground arith in
          let at = ap buffer e in ground (arith, pair, low, high, at)
    ]

-- The disk is ready when its status is polled, without an error.
abbrev pub IsReady : ℕ → (ℕ → ℕ) → Type 0
IsReady rounds statuses =
    (status : ℕ) × (poll rounds statuses 0 ≡ some status) × (bit_and status 0x01 ≡ 0)

-- What is written of up to 512 bytes is 256 words. From these words Read28 takes all 256, and gives
-- the bytes that were written; what its buffer holds behind them is kept.
pub read-write28 :
    (rounds rounds' : ℕ) (statuses statuses' : ℕ → ℕ) (disk : AtaPio) (lba count : ℕ)
    (buffer fresh : Memory)
    → IsReady rounds statuses
    → IsReady rounds' statuses'
    → disk.bytes_per_sector ≡ 512
    → count ≤ 512
    → ((j : ℕ) → buffer j < 2 ^ 8)
    → (w : Writing) × (r : Reading) × (ata_pio_Write28 rounds statuses disk lba count buffer
        ≡ some w)
      × (ata_pio_Read28 rounds' statuses' (word_in w.words) disk lba count fresh ≡ some r)
      × (length w.words ≡ 256)
      × (r.taken ≡ 256)
      × ((j : ℕ) → r.buffer j ≡ (if ltb j count then buffer j else fresh j))
unfolding ata_pio_Write28 ata_pio_Read28 padding pairs
read-write28 rounds rounds' statuses statuses' disk lba count buffer fresh (status, ready, fine)
      (status', ready', fine') whole le bytes =
    let all : pairs 0 count + padding disk count ≡ 256 = omega (arith, whole) in
    let total : length (give_words (pairs 0 count) buffer count 0)
          + length (zeros (padding disk count))
        ≡ 256 =
      omega (
        arith,
        all,
        length-give_words buffer count (pairs 0 count) 0,
        length-zeros (padding disk count),
      ) in
    let words = give_words (pairs 0 count) buffer count 0 ++ zeros (padding disk count) in
    let test : (bit_and status 0x01 == 0) ≡ true = ground (arith, fine) in
    let test' : (bit_and status' 0x01 == 0) ≡ true = ground (arith, fine') in
    let same : (j : ℕ)
        → take_words (pairs 0 count) (word_in words) count 0 fresh j
          ≡ (if ltb j count then buffer j else fresh j) =
      λ j.
        take_words-at (word_in words) count (pairs 0 count) 0 j fresh (omega arith) (omega arith)
        ∙ (elim (Bool-cases (ltb j count)) [
          | inl inside ↦
              let lt = ltb→lt j count inside in
              let pair =
                give_words-at buffer count (pairs 0 count) 0 (j / 2) (zeros (padding disk count))
                  bytes (omega (arith, lt)) in
              let from : leb 0 j ≡ true = ground arith in
              rw (from, inside) (byte_of-pair buffer count j (word_in words) bytes lt pair)
          | inr outside ↦ let from : leb 0 j ≡ true = ground arith in rw (from, outside) refl
        ]) in
    (
      record { sent = task_file disk lba 0x30; words = words },
      record {
        sent = task_file disk lba 0x20;
        taken = pairs 0 count + padding disk count;
        buffer = take_words (pairs 0 count) (word_in words) count 0 fresh;
      },
      rw (ready, test) refl,
      rw (ready', test') refl,
      length-append (give_words (pairs 0 count) buffer count 0) (zeros (padding disk count))
          ∙ total,
      all,
      same,
    )

-- The value that was last sent to a port.
unfoldable pub value_at : ℕ → List Out → ℕ
value_at port [] = 0
value_at port ((p, v) ∷ sent) = let later = value_at port sent in if p == port then v else later

-- The sector that a disk takes from its registers, in the mode with 28 bits.
unfoldable pub sector_selected : AtaPio → List Out → ℕ
sector_selected disk sent =
    value_at disk.lba_low_port sent
    + value_at disk.lba_mid_port sent * 2 ^ 8
    + value_at disk.lba_hi_port sent * 2 ^ 16
    + value_at disk.device_port sent % 16 * 2 ^ 24

high_bits :
    (lba : ℕ) → lba < 2 ^ 28 → bit_or 0xf0 (bit_and lba 0x0f00_0000 / 2 ^ 24) ≡ 0xf0 + lba / 2 ^ 24
high_bits lba lt =
    let shift = bit_and-shift 24 lba 0x0f in
    let mask = bit_and-mask 4 (lba / 2 ^ 24) in
    let e : bit_and lba 0x0f00_0000 / 2 ^ 24 ≡ lba / 2 ^ 24 = omega (arith, shift, mask, lt) in
    rw e (bit_or-shift 4 15 (lba / 2 ^ 24) (omega arith))

low_bytes :
    (lba : ℕ)
    → bit_and lba 0x0000_00ff
        + bit_and lba 0x0000_ff00 / 2 ^ 8 * 2 ^ 8
        + bit_and lba 0x00ff_0000 / 2 ^ 16 * 2 ^ 16
      ≡ lba % 2 ^ 24
low_bytes lba =
    let low = bit_and-mask 8 lba in
    let mid = bit_and-shift 8 lba 0xff in
    let mid' = bit_and-mask 8 (lba / 2 ^ 8) in
    let high = bit_and-shift 16 lba 0xff in
    let high' = bit_and-mask 8 (lba / 2 ^ 16) in omega (arith, low, mid, mid', high, high')

-- A command for a sector below 2^28 selects that sector on a slave disk. On a master disk it selects
-- the number modulo 2^24: below 2^24, the sector that was asked for.
pub sector_selected-task_file :
    (primary master : Bool) (lba command : ℕ)
    → lba < 2 ^ 28
    → let disk = ata_piodev_init primary master in
      sector_selected disk (task_file disk lba command) ≡ (if master then lba % 2 ^ 24 else lba)
unfolding sector_selected value_at task_file device_select ata_piodev_init
sector_selected-task_file true true lba command lt = omega (arith, low_bytes lba)
sector_selected-task_file false true lba command lt = omega (arith, low_bytes lba)
sector_selected-task_file true false lba command lt =
    omega (arith, low_bytes lba, high_bits lba lt, lt)
sector_selected-task_file false false lba command lt =
    omega (arith, low_bytes lba, high_bits lba lt, lt)
