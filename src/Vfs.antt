-- ===== src/Vfs.antt =====
-- src/fs/vfs.c: the calls that go through a node's callbacks. A callback is given the state of the
-- machine, an offset, a size and the address of a buffer.
pub mod Children
pub mod Distinct
pub mod Lookup
pub mod Mounts
mod Tests
use sector_os_re.Base.{ℕ, Option, none, some, u32_max}

abbrev pub Callback : Type 0 → Type 0
Callback W = W → ℕ → ℕ → ℕ → ℕ × W

-- Of `vfs_node`: a callback that is NULL is `none`.
pub record Node (W : Type 0) : Type 0 where
  pub size : ℕ
  pub read : Option (Callback W)
  pub write : Option (Callback W)
  pub get_filesize : Option (W → ℕ)

module _ {W : Type 0} where
  -- `node` is `none` for NULL.
  unfoldable pub vfs_read : Option (Node W) → Callback W
  vfs_read none w offset size buffer = (u32_max, w)
  vfs_read (some node) w offset size buffer = elim node.read [
    | none ↦ (u32_max, w)
    | some read ↦ read w offset size buffer
  ]

  unfoldable pub vfs_write : Option (Node W) → Callback W
  vfs_write none w offset size buffer = (u32_max, w)
  vfs_write (some node) w offset size buffer = elim node.write [
    | none ↦ (u32_max, w)
    | some write ↦ write w offset size buffer
  ]

  unfoldable pub vfs_get_file_size : Option (Node W) → W → ℕ
  vfs_get_file_size none w = 0
  vfs_get_file_size (some node) w = elim node.get_filesize [ none ↦ 0 | some get ↦ get w ]
