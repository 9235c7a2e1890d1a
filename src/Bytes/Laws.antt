-- ===== src/Bytes/Laws.antt =====
-- What memcmp, memcpy and memset of src/common/string.c do to each byte.
use sector_os_re.Base.{
  ◌∙◌, ◌≢◌, ℕ, zero, suc, ◌+◌, ◌≤◌, ◌<◌, ◌≡◌, refl, ◌⊎◌, ◌↔◌, ◌&&◌, Memory, update, ltb, leb, arith,
  if◌then◌else◌,
}
use sector_os_re.Bytes.{memcmp, memcpy, memset}

pub memset_lem :
    (m : Memory) (dst val n a : ℕ)
    → memset m dst val n a ≡ (if leb dst a && ltb a (dst + n) then val else m a)
unfolding memset
memset_lem m dst val zero a = ground arith
memset_lem m dst val (suc n) a = ground (arith, memset_lem (update m dst val) (dst + 1) val n a)

pub memcpy_outside :
    (m : Memory) (dst src n a : ℕ) → (a < dst) ⊎ (dst + n ≤ a) → memcpy m dst src n a ≡ m a
unfolding memcpy
memcpy_outside m dst src zero a h = refl
memcpy_outside m dst src (suc n) a h =
    let later : (a < dst + 1) ⊎ (dst + 1 + n ≤ a) = omega arith in
    memcpy_outside (update m dst (m src)) (dst + 1) (src + 1) n a later ∙ ground arith

-- A copy to a lower address, or to a range behind the source, moves the bytes as they were.
pub memcpy_inside :
    (m : Memory) (dst src n i : ℕ)
    → (dst ≤ src) ⊎ (src + n ≤ dst)
    → i < n
    → memcpy m dst src n (dst + i) ≡ m (src + i)
unfolding memcpy
memcpy_inside m dst src zero i h lt = absurd (omega arith)
memcpy_inside m dst src (suc n) zero h lt =
    ground (arith, memcpy_outside (update m dst (m src)) (dst + 1) (src + 1) n (dst + 0))
memcpy_inside m dst src (suc n) (suc i) h lt =
    let later : (dst + 1 ≤ src + 1) ⊎ (src + 1 + n ≤ dst + 1) = omega arith in
    let apart : src + suc i ≢ dst = omega arith in
    ground (arith, memcpy_inside (update m dst (m src)) (dst + 1) (src + 1) n i later)

memcmp_sound : (m : Memory) (p q n i : ℕ) → memcmp m p q n ≡ 1 → i < n → m (p + i) ≡ m (q + i)
unfolding memcmp
memcmp_sound m p q zero i e h = absurd (omega arith)
memcmp_sound m p q (suc n) zero e h = ground arith
memcmp_sound m p q (suc n) (suc i) e h = ground (arith, memcmp_sound m (p + 1) (q + 1) n i)

memcmp_complete :
    (m : Memory) (p q n : ℕ) → ((i : ℕ) → i < n → m (p + i) ≡ m (q + i)) → memcmp m p q n ≡ 1
unfolding memcmp
memcmp_complete m p q zero h = refl
memcmp_complete m p q (suc n) h =
    let tail : (i : ℕ) → i < n → m (p + 1 + i) ≡ m (q + 1 + i) =
      λ i lt. ground (arith, h (suc i)) in
    ground (arith, h 0, memcmp_complete m (p + 1) (q + 1) n tail)

-- memcmp answers 1 exactly when the two ranges hold the same bytes.
pub memcmp_lem :
    (m : Memory) (p q n : ℕ) → (memcmp m p q n ≡ 1) ↔ ((i : ℕ) → i < n → m (p + i) ≡ m (q + i))
memcmp_lem m p q n = (λ e i h. memcmp_sound m p q n i e h, memcmp_complete m p q n)
