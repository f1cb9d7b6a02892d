-- ===== src/Examples/Files.antt =====
-- The theorems on the disk and the FAT12 driver at a table with one file of three clusters.
use advanced_os.Base.{ℕ, zero, suc, ◌+◌, ◌*◌, ◌≡◌, inr, some, List, [], ◌∷◌, arith, All}
use advanced_os.Memory.{Mem}
use advanced_os.Ide.{Disk}
use advanced_os.Fat.{fat12_load_fat, fat12_write_back_fat, fat12_read_clusters}
use advanced_os.Fat.Codec.{fat12_load_fat-write_back}
use advanced_os.Fat.Chain.{IsCluster, Chain, last, link, Loaded, fat12_read_clusters-Loaded}

-- The clusters 2, 5 and 3, and all others free.
abbrev file_fat : ℕ → ℕ
file_fat (suc (suc zero)) = 5
file_fat (suc (suc (suc zero))) = 0xFFF
file_fat (suc (suc (suc (suc (suc zero))))) = 3
file_fat _ = 0

abbrev file_clusters : List ℕ
file_clusters = 2 ∷ 5 ∷ 3 ∷ []

file-Chain : Chain file_fat 2 file_clusters
file-Chain =
    link (omega arith, omega arith) (link (omega arith, omega arith) (last (inr (omega arith))))

file_clusters-IsCluster : All IsCluster file_clusters
file_clusters-IsCluster =
    ((omega arith, omega arith), ((omega arith, omega arith), ((omega arith, omega arith), tt)))

abbrev numbered_disk : Disk
numbered_disk s o = (s + o) * 7

fat12_read_clusters-Loaded_example :
    (m' : Mem) × (n : ℕ) × (fat12_read_clusters numbered_disk file_fat 3 0x40000 2 (λ a. 0)
      ≡ some (n, m'))
    × (n + 1 ≡ 3)
    × Loaded numbered_disk 0x40000 0 file_clusters (λ a. 0) m'
fat12_read_clusters-Loaded_example =
    fat12_read_clusters-Loaded numbered_disk file_fat 3 0x40000 (λ a. 0) file-Chain
      file_clusters-IsCluster (omega arith) (omega arith) (omega arith)

fat12_load_fat-write_back_example :
    fat12_load_fat (fat12_write_back_fat (λ i. 0xABC) (λ i. 0)) (λ i. 0) 17 ≡ 0xABC
fat12_load_fat-write_back_example =
    fat12_load_fat-write_back (λ i. 0xABC) (λ i. 0) (λ i. 0) 17 (λ i h. omega arith) (omega arith)
