-- ===== src/Logdisk/Ring.antt =====
-- The ring of src/drivers/storage/logdisk.c: what logdisk_putc and logdisk_puts leave in the buffer.
use native.Mathlib.Nat.{mod_self, add-mod_right, mod-eq_of_lt, mod-eq-sub-mod, mod-lt, mod-add-mod}
use sector_os_re.Logdisk.{logdisk_puts, logdisk_putc, Logdisk}
use sector_os_re.Base.{
  sym, zero, [], ◌∷◌, length, ◌-◌, ◌≤◌, some, inr, get_elem?, ap, List, ◌∙◌, ltb, inl, Bool-cases,
  ◌≢◌, suc, refl, leb, if◌then◌else◌, arith, add32, update, ◌%◌, ◌≡◌, ◌^◌, ◌+◌, ℕ, ◌<◌, Memory,
}

-- The position lies in the buffer, and the buffer in the address space.
pub record IsValid (d : Logdisk) : Type 0 where
  pub pos_in : d.pos < d.size
  pub in_space : d.buffer + d.size < 2 ^ 32

-- One step round a ring of `n` places.
next_place : (pos n : ℕ) → pos < n → (if leb n (pos + 1) then 0 else pos + 1) ≡ (pos + 1) % n
next_place pos n h = elim (Bool-cases (leb n (pos + 1))) [
  | inl last ↦ let e : pos + 1 ≡ n = ground arith in rw (last, e, mod_self)
  | inr inner ↦ let lt : pos + 1 < n = ground arith in rw (inner, mod-eq_of_lt lt)
]

-- Fewer than `n` steps round the ring do not come back to the start.
add-mod-ne : (pos t n : ℕ) → pos < n → 0 < t → t < n → (pos + t) % n ≢ pos
add-mod-ne pos t n hp ht hn = elim (Bool-cases (ltb (pos + t) n)) [
  | inl low ↦ let lt : pos + t < n = ground arith in omega (arith, mod-eq_of_lt lt)
  | inr high ↦
      let le : n ≤ pos + t = ground arith in
      let lt : pos + t - n < n = omega arith in
      omega (arith, mod-eq-sub-mod {n = pos + t} {m = n} le, mod-eq_of_lt lt)
]

-- logdisk_putc writes one byte of the buffer, and goes one place on round the ring.
pub logdisk_putc_lem :
    (d : Logdisk) (m : Memory) (c : ℕ)
    → IsValid d
    → logdisk_putc d m c ≡ (record d { pos = (d.pos + 1) % d.size }, update m (d.buffer + d.pos) c)
unfolding logdisk_putc
logdisk_putc_lem d m c v =
    let next : add32 d.pos 1 ≡ d.pos + 1 = omega (arith, v.pos_in, v.in_space) in
    let at : add32 d.buffer d.pos ≡ d.buffer + d.pos = omega (arith, v.pos_in, v.in_space) in
    rw (next, at, next_place d.pos d.size v.pos_in)

-- The next state of a valid log, and its place `t` steps ahead.
abbrev stepped : Logdisk → Logdisk
stepped d = record d { pos = (d.pos + 1) % d.size }

stepped-IsValid : (d : Logdisk) → IsValid d → IsValid (stepped d)
stepped-IsValid d v = record {
  pos_in = mod-lt (d.pos + 1) (omega (arith, v.pos_in));
  in_space = v.in_space;
}

ahead : (d : Logdisk) (t : ℕ) → ((d.pos + 1) % d.size + t) % d.size ≡ (d.pos + suc t) % d.size
ahead d t = mod-add-mod (d.pos + 1) d.size t ∙ ap (λ k. k % d.size) (omega arith)

logdisk_puts-cons :
    (d : Logdisk) (m : Memory) (c : ℕ) (str : List ℕ)
    → IsValid d
    → logdisk_puts d m (c ∷ str) ≡ logdisk_puts (stepped d) (update m (d.buffer + d.pos) c) str
unfolding logdisk_puts
logdisk_puts-cons d m c str v =
    ap (λ (s : Logdisk × Memory). logdisk_puts s.0 s.1 str) (logdisk_putc_lem d m c v)

-- logdisk_puts leaves every byte alone that lies as many steps ahead as the text is long, or more.
logdisk_puts_keeps :
    (str : List ℕ) (d : Logdisk) (m : Memory) (t : ℕ)
    → IsValid d
    → length str ≤ t
    → t < d.size
    → (logdisk_puts d m str).1 (d.buffer + (d.pos + t) % d.size)
      ≡ m (d.buffer + (d.pos + t) % d.size)
unfolding logdisk_puts
logdisk_puts_keeps [] d m t v le lt = refl
logdisk_puts_keeps (c ∷ str) d m zero v le lt = absurd (omega arith)
logdisk_puts_keeps (c ∷ str) d m (suc t) v le lt =
    let m1 = update m (d.buffer + d.pos) c in
    let rest =
      logdisk_puts_keeps str (stepped d) m1 t (stepped-IsValid d v) (omega arith) (omega arith) in
    let other = add-mod-ne d.pos (suc t) d.size v.pos_in (omega arith) lt in
    rw (logdisk_puts-cons d m c str v) (rw (ahead d t) at rest ∙ ground arith)

-- The place where the log stands is `size - 1` steps ahead of the next one.
round : (d : Logdisk) → IsValid d → ((d.pos + 1) % d.size + (d.size - 1)) % d.size ≡ d.pos
round d v =
    mod-add-mod (d.pos + 1) d.size (d.size - 1)
    ∙ (ap (λ k. k % d.size) (omega (arith, v.pos_in))
        ∙ (add-mod_right d.pos d.size ∙ mod-eq_of_lt v.pos_in))

logdisk_puts_last :
    (str : List ℕ) (d : Logdisk) (m : Memory) (i c : ℕ)
    → IsValid d
    → get_elem? str i ≡ some c
    → length str ≤ i + d.size
    → (logdisk_puts d m str).1 (d.buffer + (d.pos + i) % d.size) ≡ c
unfolding logdisk_puts
logdisk_puts_last [] d m i c v e le = cc
logdisk_puts_last (a ∷ str) d m zero c v e le =
    let m1 = update m (d.buffer + d.pos) a in
    let kept =
      logdisk_puts_keeps str (stepped d) m1 (d.size - 1) (stepped-IsValid d v) (omega arith)
        (omega (arith, v.pos_in)) in
    let here : (d.pos + 0) % d.size ≡ d.pos =
      ap (λ k. k % d.size) (omega arith) ∙ mod-eq_of_lt v.pos_in in
    rw (logdisk_puts-cons d m a str v, here) (rw (round d v) at kept ∙ ground arith)
logdisk_puts_last (a ∷ str) d m (suc i) c v e le =
    let m1 = update m (d.buffer + d.pos) a in
    let rest = logdisk_puts_last str (stepped d) m1 i c (stepped-IsValid d v) e (omega arith) in
    rw (logdisk_puts-cons d m a str v) (rw (ahead d i) at rest)

logdisk_puts-pos :
    (str : List ℕ) (d : Logdisk) (m : Memory)
    → IsValid d
    → (logdisk_puts d m str).0 ≡ record d { pos = (d.pos + length str) % d.size }
unfolding logdisk_puts
logdisk_puts-pos [] d m v =
    ap (λ k. record d { pos = k })
      (sym (mod-eq_of_lt v.pos_in) ∙ ap (λ k. k % d.size) (omega arith))
logdisk_puts-pos (c ∷ str) d m v = rw (logdisk_puts-cons d m c str v) (
    logdisk_puts-pos str (stepped d) (update m (d.buffer + d.pos) c) (stepped-IsValid d v)
    ∙ ap (λ k. record d { pos = k }) (ahead d (length str)))

-- logdisk_puts leaves the last `size` characters of the text in the ring, each at its own place:
-- the character `i` is `i` steps on from where the log stood. The log stands behind the last one.
pub logdisk_puts_ring :
    (d : Logdisk) (m : Memory) (str : List ℕ) (i c : ℕ)
    → IsValid d
    → get_elem? str i ≡ some c
    → length str ≤ i + d.size
    → let (d', m') = logdisk_puts d m str in
      (m' (d.buffer + (d.pos + i) % d.size) ≡ c)
      × (d' ≡ record d { pos = (d.pos + length str) % d.size })
logdisk_puts_ring d m str i c v e le =
    (logdisk_puts_last str d m i c v e le, logdisk_puts-pos str d m v)
