-- ===== src/Sorfs/Tests.antt =====
-- src/fs/sorfs.c on a device with the file "a" and the directory "b".
use sector_os_re.Base.{false, refl, update, true, some, ◌≡◌, [], ◌+◌, ◌∷◌, List, ℕ, Memory}
use sector_os_re.Sorfs.{
  same_text, node_of_block, used_blocks, sorfs_block_to_vfs_node, node_name, block_place, text_in,
  if_named, find_in, sorfs_read_block_content, word_at, sorfs_read_block, names_in,
  sorfs_get_file_size, SorfsNode, sorfs_finddir, sorfs_read, sorfs_listdir, Sorfs, is_sorfs,
  init_sorfs,
}
use sector_os_re.Sorfs.Files.{sorfs_finddir-Search, Search}
use sector_os_re.Bytes.Fields.{bytes_from, word_at}
use sector_os_re.CString.Split.{same_text}

abbrev place : ℕ → List ℕ → Memory → Memory
place at [] m = m
place at (b ∷ bytes) m = place (at + 1) bytes (update m at b)

abbrev two_files : Memory
two_files = place 0 (0xaa ∷ 0x9b ∷ 0xe0 ∷ []) (
    place 40 (2 ∷ 0 ∷ 0 ∷ 0 ∷ 0 ∷ []) (
      place 48 (0xff ∷ 0x9c ∷ 0xe0 ∷ 0 ∷ b'a' ∷ []) (
        place 84 (0 ∷ 2 ∷ 0 ∷ 0 ∷ 0 ∷ 200 ∷ []) (
          place 93 (0xff ∷ 0x9c ∷ 0xe0 ∷ 0 ∷ b'b' ∷ [])
            (place 129 (1 ∷ []) (place 200 (b'h' ∷ b'i' ∷ []) (λ _. 0)))))))

abbrev mounted : Sorfs
mounted = record { device = two_files; sb_total_blocks = 2; total_blocks = 2; free_blocks = 0 }

mounts : init_sorfs two_files ≡ some mounted
unfolding init_sorfs word_at
mounts = refl

recognised : is_sorfs two_files ≡ 1
unfolding is_sorfs word_at
recognised = refl

abbrev b_node : SorfsNode
b_node = record { name = b'b' ∷ []; size = 0; inode_num = 1; has_finddir = true; has_read = false }

finds_b : sorfs_finddir mounted true (b'b' ∷ []) ≡ some b_node
unfolding sorfs_finddir find_in if_named sorfs_block_to_vfs_node node_of_block sorfs_read_block
    text_in block_place used_blocks word_at same_text
finds_b = refl

sorfs_finddir-Search_example :
    Search mounted (b'b' ∷ []) 0 (used_blocks mounted) (sorfs_finddir mounted true (b'b' ∷ []))
sorfs_finddir-Search_example = sorfs_finddir-Search mounted (b'b' ∷ [])

reads_a : sorfs_read mounted 0 0 2 ≡ (b'h' ∷ b'i' ∷ [], 2)
unfolding sorfs_read sorfs_read_block_content sorfs_read_block text_in block_place word_at
    bytes_from
reads_a = refl

size_of_a : sorfs_get_file_size mounted 0 ≡ 2
unfolding sorfs_get_file_size sorfs_read_block block_place word_at
size_of_a = refl

both_listed : sorfs_listdir mounted true ≡ some (some (b'a' ∷ []) ∷ some (b'b' ∷ []) ∷ [])
unfolding sorfs_listdir names_in node_name sorfs_block_to_vfs_node node_of_block sorfs_read_block
    text_in block_place used_blocks word_at
both_listed = refl
