-- ===== src/Fat/Chain.antt =====
-- The chain of a file's clusters, and the loops that follow it.
use advanced_os.Base.{
  ℕ, zero, suc, ◌+◌, ◌*◌, ◌^◌, ◌≤◌, ◌<◌, ◌≡◌, refl, ap, ◌∙◌, ◌≢◌, ◌⊎◌, inl, inr, true, false, some,
  List, [], ◌∷◌, arith, length, get_or, All, ==_ne,
}
use advanced_os.Fat.{
  fat12_get_num_cluster, fat12_next_sector, sector_of, read_chain, fat12_read_clusters, count_chain,
}
use advanced_os.Ide.Transfer.{read_sectors_at, read_sectors-Outside}
use advanced_os.Memory.{Mem, u32}
use advanced_os.Ide.{Disk, read_sectors, tmp_user_addr}

-- An entry that ends a chain: a free one, or a number that is reserved, is the bad mark or is an
-- end mark. Any other entry is the number of the next cluster.
abbrev pub IsEnd : ℕ → Type 0
IsEnd e = (e ≡ 0) ⊎ (0xFF0 ≤ e)

abbrev pub IsNext : ℕ → Type 0
IsNext e = (0 < e) × (e < 0xFF0)

-- From cluster `c` the table leads through the clusters `cs`, `c` first.
pub data Chain (fat : ℕ → ℕ) : ℕ → List ℕ → Type 0 where
  last : {c : ℕ} → IsEnd (fat c) → Chain fat c (c ∷ [])
  link : {c : ℕ} {cs : List ℕ} → IsNext (fat c) → Chain fat (fat c) cs → Chain fat c (c ∷ cs)

pub fat12_next_sector-last :
    (fat : ℕ → ℕ) (c : ℕ)
    → IsEnd (fat c)
    → fat12_next_sector fat c ≡ record { next = fat c; more = false }
unfolding fat12_next_sector
fat12_next_sector-last fat c (inl e) = rw e refl
fat12_next_sector-last fat c (inr h) = ground arith

pub fat12_next_sector-link :
    (fat : ℕ → ℕ) (c : ℕ)
    → IsNext (fat c)
    → fat12_next_sector fat c ≡ record { next = fat c; more = true }
unfolding fat12_next_sector
fat12_next_sector-link fat c h = ground arith

abbrev pub IsCluster : ℕ → Type 0
IsCluster c = (2 ≤ c) × (c < 2 ^ 12)

-- What a loop that read the clusters `cs` to `buf`, from block `i` on, has done.
pub record Loaded (disk : Disk) (buf i : ℕ) (cs : List ℕ) (m m' : Mem) : Type 0 where
  pub bytes :
      (q r : ℕ)
      → q < length cs
      → r < 512
      → m' (buf + (i + q) * 512 + r) ≡ disk (get_or cs q 0 + 31) r
  pub earlier : (a : ℕ) → tmp_user_addr + 512 ≤ a → a < buf + i * 512 → m' a ≡ m a

module _ (disk : Disk) (buf : ℕ) (low : tmp_user_addr + 512 ≤ buf) where
  pub one-Loaded :
      (i c : ℕ) (m : Mem)
      → buf + (i + 1) * 512 ≤ 2 ^ 32
      → IsCluster c
      → Loaded disk buf i (c ∷ []) m (read_sectors disk (u32 (buf + i * 512)) (sector_of c) 1 m)
  one-Loaded i c m room ok = record {
    bytes = λ q r h h'. first q r h h';
    earlier = λ a h h'.
        read_sectors-Outside disk (u32 (buf + i * 512)) (sector_of c) a m (omega arith)
          (omega arith) (omega arith);
  }
    where
      first :
          (q r : ℕ)
          → q < 1
          → r < 512
          → read_sectors disk (u32 (buf + i * 512)) (sector_of c) 1 m (buf + (i + q) * 512 + r)
            ≡ disk (get_or (c ∷ []) q 0 + 31) r
      first zero r h h' =
          read_sectors_at disk (u32 (buf + i * 512)) (sector_of c) r _ (c + 31) m (omega arith)
            (omega arith) (omega arith) h' (omega arith) (omega arith)
      first (suc q) r h h' = absurd (omega arith)

  pub cons-Loaded :
      (i c : ℕ) (cs : List ℕ) (m m1 m2 : Mem)
      → Loaded disk buf i (c ∷ []) m m1
      → Loaded disk buf (i + 1) cs m1 m2
      → Loaded disk buf i (c ∷ cs) m m2
  cons-Loaded i c cs m m1 m2 one rest = record {
    bytes = λ q r h h'. each q r h h';
    earlier = λ a h h'. rest.earlier a h (omega arith) ∙ one.earlier a h h';
  }
    where
      each :
          (q r : ℕ)
          → q < suc (length cs)
          → r < 512
          → m2 (buf + (i + q) * 512 + r) ≡ disk (get_or (c ∷ cs) q 0 + 31) r
      each zero r h h' =
          rest.earlier (buf + (i + 0) * 512 + r) (omega arith) (omega arith)
          ∙ one.bytes 0 r (omega arith) h'
      each (suc q) r h h' =
          let e : buf + (i + suc q) * 512 + r ≡ buf + (i + 1 + q) * 512 + r = omega arith in
          ap m2 e ∙ rest.bytes q r (omega arith) h'

  read_chain-Loaded :
      (fat : ℕ → ℕ) (fuel i : ℕ) {c : ℕ} {cs : List ℕ} (m : Mem)
      → Chain fat c cs
      → All IsCluster cs
      → length cs ≤ fuel
      → buf + (i + length cs) * 512 ≤ 2 ^ 32
      → (m' : Mem) × (n : ℕ) × (read_chain disk fat buf fuel i c m ≡ some (n, m'))
        × (n + 1 ≡ i + length cs)
        × Loaded disk buf i cs m m'
  unfolding read_chain
  read_chain-Loaded fat zero i m (last e) ok f room = absurd (omega arith)
  read_chain-Loaded fat zero i m (link e w) ok f room = absurd (omega arith)
  read_chain-Loaded fat (suc fuel) i {c} m (last e) ok f room = (
    read_sectors disk (u32 (buf + i * 512)) (sector_of c) 1 m,
    i,
    rw (fat12_next_sector-last fat c e),
    omega arith,
    one-Loaded i c m (omega arith) ok.0,
  )
  read_chain-Loaded fat (suc fuel) i {c} m (link {cs} e w) ok f room =
      let m1 = read_sectors disk (u32 (buf + i * 512)) (sector_of c) 1 m in
      let (m', n, ret, len, l) =
        read_chain-Loaded fat fuel (i + 1) m1 w ok.1 (omega arith) (omega arith) in
      (
        m',
        n,
        rw (fat12_next_sector-link fat c e) ret,
        omega arith,
        cons-Loaded i c cs m m1 m' (one-Loaded i c m (omega arith) ok.0) l,
      )

-- On a chain of clusters, with a buffer that has room for them and stands behind the transfer
-- buffer, `fat12_read_clusters` ends (fuel for each cluster is enough), the buffer then holds the
-- clusters' sectors in the order of the chain, and the result is the number of clusters less one.
pub fat12_read_clusters-Loaded :
    (disk : Disk) (fat : ℕ → ℕ) (fuel buf : ℕ) {c : ℕ} {cs : List ℕ} (m : Mem)
    → Chain fat c cs
    → All IsCluster cs
    → length cs ≤ fuel
    → tmp_user_addr + 512 ≤ buf
    → buf + length cs * 512 ≤ 2 ^ 32
    → (m' : Mem) × (n : ℕ) × (fat12_read_clusters disk fat fuel buf c m ≡ some (n, m'))
      × (n + 1 ≡ length cs)
      × Loaded disk buf 0 cs m m'
unfolding fat12_read_clusters
fat12_read_clusters-Loaded disk fat fuel buf m w ok f low room =
    let (m', n, ret, len, l) = read_chain-Loaded disk buf low fat fuel 0 m w ok f (omega arith) in
    (m', n, ret, omega arith, l)

-- The loop of `fat12_get_num_cluster` counts the clusters of the chain.
count_chain-length :
    (fat : ℕ → ℕ) (fuel n : ℕ) {c : ℕ} {cs : List ℕ}
    → Chain fat c cs
    → length cs ≤ fuel
    → count_chain fat fuel (n + 1) c ≡ some (n + length cs)
unfolding count_chain
count_chain-length fat zero n (last e) f = absurd (omega arith)
count_chain-length fat zero n (link e w) f = absurd (omega arith)
count_chain-length fat (suc fuel) n {c} (last e) f = rw (fat12_next_sector-last fat c e)
count_chain-length fat (suc fuel) n {c} (link e w) f =
    rw (fat12_next_sector-link fat c e)
      (count_chain-length fat fuel (n + 1) w (omega arith) ∙ ap some (omega arith))

-- For a start cluster that is not 0, with fuel for each cluster, `fat12_get_num_cluster` gives the
-- length of the cluster's chain.
fat12_get_num_cluster-length :
    (root_entries : ℕ) (fat : ℕ → ℕ) (fuel start : ℕ) {cs : List ℕ}
    → start ≢ 0
    → Chain fat start cs
    → length cs ≤ fuel
    → fat12_get_num_cluster root_entries fat fuel start ≡ some (length cs)
unfolding fat12_get_num_cluster
fat12_get_num_cluster-length root_entries fat fuel start nz w f =
    rw (==_ne start 0 nz) (count_chain-length fat fuel 0 w f ∙ ap some (omega arith))
