-- ===== src/Bytes/Fields.antt =====
-- Little-endian fields of packed structures, read from and written to the bytes that hold them, and
-- memcpy between two buffers that do not overlap.
use sector_os_re.Base.{
  zero, ◌∷◌, suc, [], List, ltb, ap, ◌*◌, ◌/◌, ◌⊎◌, arith, ◌-◌, ◌&&◌, ◌≤◌, ◌^◌, ◌==◌, ◌%◌, leb,
  update, ◌+◌, if◌then◌else◌, ◌≡◌, ℕ, Memory,
}

-- `n` bytes of `src` from `s` on, copied to `d` and behind.
unfoldable pub blit : Memory → ℕ → Memory → ℕ → ℕ → Memory
blit dst d src s n a = if leb d a && ltb a (d + n) then src (s + (a - d)) else dst a

-- `count` bytes of a buffer from `at` on
unfoldable pub bytes_from : ℕ → Memory → ℕ → List ℕ
bytes_from zero buf at = []
bytes_from (suc count) buf at = buf at ∷ bytes_from count buf (at + 1)

-- a `uint16_t` and a `uint32_t` at a byte offset
unfoldable pub half_at : Memory → ℕ → ℕ
half_at m a = m a + 2 ^ 8 * m (a + 1)

unfoldable pub word_at : Memory → ℕ → ℕ
word_at m a = m a + 2 ^ 8 * m (a + 1) + 2 ^ 16 * m (a + 2) + 2 ^ 24 * m (a + 3)

unfoldable pub put_half : Memory → ℕ → ℕ → Memory
put_half m a v = update (update m a (v % 256)) (a + 1) (v / 2 ^ 8 % 256)

unfoldable pub put_word : Memory → ℕ → ℕ → Memory
put_word m a v b =
    if b == a
    then v % 256
    else if b == a + 1
    then v / 2 ^ 8 % 256
    else if b == a + 2
    then v / 2 ^ 16 % 256
    else if b == a + 3
    then v / 2 ^ 24 % 256
    else m b

pub word_at-put_word : (m : Memory) (a v : ℕ) → word_at (put_word m a v) a ≡ v % 2 ^ 32
unfolding word_at put_word
word_at-put_word m a v = ground arith

pub word_at-put_word_ne :
    (m : Memory) (a v b : ℕ) → (a + 4 ≤ b) ⊎ (b + 4 ≤ a) → word_at (put_word m a v) b ≡ word_at m b
unfolding word_at put_word
word_at-put_word_ne m a v b apart = ground arith

pub half_at-put_half : (m : Memory) (a v : ℕ) → half_at (put_half m a v) a ≡ v % 2 ^ 16
unfolding half_at put_half
half_at-put_half m a v = ground arith

pub word_at-blit :
    (dst : Memory) (d : ℕ) (src : Memory) (s n a : ℕ)
    → a + 4 ≤ n
    → word_at (blit dst d src s n) (d + a) ≡ word_at src (s + a)
unfolding word_at blit
word_at-blit dst d src s n a le =
    let e0 : s + (d + a - d) ≡ s + a = omega arith in
    let e1 : s + (d + a + 1 - d) ≡ s + a + 1 = omega arith in
    let e2 : s + (d + a + 2 - d) ≡ s + a + 2 = omega arith in
    let e3 : s + (d + a + 3 - d) ≡ s + a + 3 = omega arith in
    ground (arith, ap src e0, ap src e1, ap src e2, ap src e3)

-- Copied to the start of a buffer, the words keep their places.
pub word_at-blit_start :
    (dst src : Memory) (n a : ℕ) → a + 4 ≤ n → word_at (blit dst 0 src 0 n) a ≡ word_at src a
unfolding word_at blit
word_at-blit_start dst src n a le = ground arith
