-- ===== src/Netutils/Checksum.antt =====
-- The internet checksum in src/network/netutils.c and src/network/ipv4.c.
use sector_os_re.Base.{
  ◌∙◌, ◌/◌, add32, ltb, if◌then◌else◌, arith, ◌^◌, ◌%◌, ◌≡◌, ◌*◌, [], ◌∷◌, ◌<◌, ◌≤◌, length, ◌+◌, ℕ,
  List,
}
use sector_os_re.Netutils.{complement16, ntohs, ip_checksum, checksum, sum_words}
use sector_os_re.Netutils.Laws.{flip_short_lem}

-- The sum of the words in the order of the network, with no bound.
pub total : List ℕ → ℕ
total [] = 0
total (w ∷ buffer) = ntohs w + total buffer

-- Every entry of the buffer is a `uint16_t`.
abbrev pub AllShort : List ℕ → Type 0
AllShort [] = Unit
AllShort (w ∷ buffer) = (w < 2 ^ 16) × AllShort buffer

ntohs-lt : (w : ℕ) → w < 2 ^ 16 → ntohs w < 2 ^ 16
unfolding ntohs
ntohs-lt w h = omega (arith, (flip_short_lem w h).0)

sum_words-total :
    (buffer : List ℕ) (sum : ℕ)
    → AllShort buffer
    → sum + length buffer * 65535 < 2 ^ 32
    → sum_words sum buffer ≡ sum + total buffer
unfolding sum_words total
sum_words-total [] sum h small = omega arith
sum_words-total (w ∷ buffer) sum (hw, h) small =
    let lt = ntohs-lt w hw in
    let no_wrap : add32 sum (ntohs w) ≡ sum + ntohs w = omega arith in
    rw no_wrap (sum_words-total buffer (sum + ntohs w) h (omega arith) ∙ omega arith)

total-lt : (buffer : List ℕ) → AllShort buffer → total buffer ≤ length buffer * 65535
unfolding total
total-lt [] h = omega arith
total-lt (w ∷ buffer) (hw, h) = omega (arith, total-lt buffer h, ntohs-lt w hw)

-- Folding the upper half of a sum into the lower one, once and once more.
fold_twice :
    (s : ℕ)
    → s < 2 ^ 32
    → let once = add32 (s / 2 ^ 16) (s % 2 ^ 16) in
      (s + complement16 (add32 once (once / 2 ^ 16))) % 0xffff ≡ 0
unfolding complement16
fold_twice s h = omega arith

fold_once :
    (s : ℕ)
    → s < 2 ^ 32
    → (s + complement16 (add32 (s % 2 ^ 16) (s / 2 ^ 16))) % 0xffff
      ≡ (if ltb (s % 2 ^ 16 + s / 2 ^ 16) (2 ^ 16) then 0 else 1)
unfolding complement16
fold_once s h = ground arith

-- The checksum of at most 65536 words and the words themselves add up to a multiple of 2 ^ 16 - 1:
-- the test by which a receiver accepts the packet.
pub checksum-total :
    (buffer : List ℕ)
    → AllShort buffer
    → length buffer ≤ 65536
    → (total buffer + checksum buffer) % 0xffff ≡ 0
unfolding checksum
checksum-total buffer h len =
    let bound = total-lt buffer h in
    let sum : sum_words 0 buffer ≡ total buffer =
      sum_words-total buffer 0 h (omega arith) ∙ omega arith in
    rw sum (fold_twice (total buffer) (omega arith))

-- For an IP header of ten words ip_checksum passes that test exactly if the two halves of the sum
-- add up without a carry: it does not add the carry of the second addition. With one, the sum is off by 1.
pub ip_checksum-total :
    (packet : List ℕ)
    → AllShort packet
    → length packet ≡ 10
    → (total packet + ip_checksum packet) % 0xffff
      ≡ (if ltb (total packet % 2 ^ 16 + total packet / 2 ^ 16) (2 ^ 16) then 0 else 1)
unfolding ip_checksum
ip_checksum-total packet h len =
    let bound = total-lt packet h in
    let sum : sum_words 0 packet ≡ total packet =
      sum_words-total packet 0 h (omega arith) ∙ omega arith in
    rw sum (fold_once (total packet) (omega arith))
