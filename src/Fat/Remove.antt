-- ===== src/Fat/Remove.antt =====
-- A file that `fat12_rm` removes is not found any more.
use advanced_os.Base.{
  ℕ, zero, suc, ◌+◌, ◌-◌, ◌^◌, ◌≤◌, ◌<◌, ◌≡◌, refl, ap, ◌∙◌, ◌≢◌, inl, inr, true, false, none, some,
  List, ◌∷◌, arith, ℕ_discrete, ◌==◌, Bool-cases, length, update, update_self, update_ne,
  first_index-found, IsFirst, ==_ne, first_index-absent,
}
use advanced_os.Memory.{Mem, u32, memset}
use advanced_os.Memory.Blocks.{memset_lem}
use advanced_os.Cstr.{strlen, strcmp, tolower}
use advanced_os.Fat.{del_chain, fat12_del_fat_entry, fat12_write_back_fat}
use advanced_os.Fat.Chain.{Chain, last, link, fat12_next_sector-last, fat12_next_sector-link}
use advanced_os.Fat.Entry.{
  string_in, copy_field, add_dot, name_buffer, fat12_construct_file_name, entry_at, matches,
  scan_entries, start_cluster, fat_num_root_entry,
}
use advanced_os.Fat.Find.{fat12_construct_file_name-cong}
use advanced_os.Fat.Volume.{
  Layout, Volume, fat12_find_entry, fat12_rm, get_curr_dir, fat_root_region_start,
}

-- The mark of a removed entry.
abbrev deleted : ℕ
deleted = 0xE5

copy_field-below :
    (field : ℕ → ℕ) (k n i : ℕ) (name : ℕ → ℕ) (q : ℕ)
    → q < i + k
    → copy_field field k n i name q ≡ name q
unfolding copy_field
copy_field-below field k zero i name q l = refl
copy_field-below field k (suc n) i name q l = elim (Bool-cases (field i == b' ')) [
  | inl e ↦ rw e (update_ne name 0 (omega arith))
  | inr e ↦ rw e (
      copy_field-below field k n (i + 1) (update name (i + k) (field i)) q (omega arith)
      ∙ update_ne name (field i) (omega arith))
]

string_in-head :
    (buf : ℕ → ℕ) (n : ℕ) → buf 0 ≡ deleted → string_in buf (suc n) 0 ≡ deleted ∷ string_in buf n 1
unfolding string_in
string_in-head buf n e = rw e refl

copy_field-head :
    (field : ℕ → ℕ) (n : ℕ) (name : ℕ → ℕ)
    → field 0 ≡ deleted
    → copy_field field 0 (suc n) 0 name 0 ≡ deleted
unfolding copy_field
copy_field-head field n name e = rw e (
    copy_field-below field 0 n (0 + 1) (update name (0 + 0) deleted) 0 (omega arith)
    ∙ update_self name deleted 0)

-- A text that begins with the mark is not empty.
marked-strlen : (buf : ℕ → ℕ) → buf 0 ≡ deleted → 0 < strlen (string_in buf 13 0)
unfolding strlen
marked-strlen buf e = rw (string_in-head buf 12 e) (omega arith)

add_dot-head :
    (name : ℕ → ℕ) → name 0 ≡ deleted → ((add_dot name).dotted 0 ≡ deleted) × (0 < (add_dot name).k)
unfolding add_dot
add_dot-head name e =
    let len = strlen (string_in name 13 0) in
    let pos : 0 < len = marked-strlen name e in
    let dotted = update (update name len b'.') (len + 1) 0 in
    let head : dotted 0 ≡ deleted =
      update_ne (update name len b'.') 0 (omega arith) ∙ (update_ne name b'.' (omega arith) ∙ e) in
    (head, marked-strlen dotted head)

name_buffer-deleted : (m : Mem) (f : ℕ) → m f ≡ deleted → name_buffer m f 0 ≡ deleted
unfolding name_buffer
name_buffer-deleted m f e =
    let name = copy_field (λ i. m (f + i)) 0 8 0 (λ _. 0) in
    let at : m (f + 0) ≡ deleted = ap m (omega arith) ∙ e in
    let head = copy_field-head (λ i. m (f + i)) 7 (λ _. 0) at in
    let dot = add_dot-head name head in
    let full =
      copy_field-below (λ i. m (f + 8 + i)) (add_dot name).k 3 0 (add_dot name).dotted 0
        (omega (arith, dot.1)) in
    elim (Bool-cases (m (f + 8) == b' ')) [ inl q ↦ rw q head | inr q ↦ rw q (full ∙ dot.0) ]

-- The name of a removed entry begins with the mark, so that no name without it matches.
deleted-differs :
    (m : Mem) (f c : ℕ) (rest : List ℕ)
    → m f ≡ deleted
    → c < 256
    → c ≢ deleted
    → (strcmp (c ∷ rest) (fat12_construct_file_name m f) == 0) ≡ false
unfolding fat12_construct_file_name tolower strcmp
deleted-differs m f c rest e b ne =
    rw (string_in-head (name_buffer m f) 12 (name_buffer-deleted m f e), ==_ne c deleted ne)
      (==_ne (u32 (c + 2 ^ 32 - deleted)) 0 (omega arith))

-- The loop of `fat12_del_fat_entry` clears bytes at values of the table only.
del_chain-Keeps :
    (fat : ℕ → ℕ) (fuel : ℕ) {c : ℕ} {cs : List ℕ} (m : Mem)
    → ((e : ℕ) → fat e < 2 ^ 12)
    → Chain fat c cs
    → length cs ≤ fuel
    → (w : Mem) × (del_chain fat fuel c m ≡ some w) × ((a : ℕ) → 2 ^ 12 + 4 ≤ a → w a ≡ m a)
unfolding del_chain
del_chain-Keeps fat zero m t (last e) l = absurd (omega arith)
del_chain-Keeps fat zero m t (link e ch) l = absurd (omega arith)
del_chain-Keeps fat (suc fuel) {c} m t (last e) l =
    let small = t c in
    (
      memset m (fat c) 0 4,
      rw (fat12_next_sector-last fat c e) refl,
      λ a b. (memset_lem 4 m (fat c) 0 a (omega arith)).1 (inr (omega arith)),
    )
del_chain-Keeps fat (suc fuel) {c} m t (link e ch) l =
    let small = t c in
    let (w, ret, keeps) = del_chain-Keeps fat fuel (memset m (fat c) 0 4) t ch (omega arith) in
    (
      w,
      rw (fat12_next_sector-link fat c e) ret,
      λ a b. keeps a b ∙ (memset_lem 4 m (fat c) 0 a (omega arith)).1 (inr (omega arith)),
    )

-- While the root directory is current, a file of it that alone has its name, which does not begin
-- with the mark of removed entries, is removed by `fat12_rm`, when its clusters form a chain, for
-- which the fuel is enough, the table has values of 12 bits and the root directory stands behind
-- the first 4100 bytes: the name is not found any more. The table stays as it was, so that no
-- cluster becomes free.
pub fat12_rm-removed :
    (l : Layout) (fuel c i : ℕ) (rest cs : List ℕ) (v : Volume)
    → (c < 256) × (c ≢ 0xE5)
    → get_curr_dir v ≡ fat_root_region_start
    → 2 ^ 12 + 4 ≤ l.root_dir
    → ((e : ℕ) → v.fat e < 2 ^ 12)
    → i < fat_num_root_entry
    → matches v.mem l.root_dir (c ∷ rest) i ≡ true
    → ((j : ℕ) → j ≢ i → j < fat_num_root_entry → matches v.mem l.root_dir (c ∷ rest) j ≡ false)
    → Chain v.fat (start_cluster v.mem (entry_at l.root_dir i)) cs
    → length cs ≤ fuel
    → (w : Volume) × (fat12_rm l fuel (c ∷ rest) v ≡ some (true, w))
      × (fat12_find_entry l fuel (c ∷ rest) w ≡ some (none, w))
      × (w.fat ≡ v.fat)
unfolding fat12_rm fat12_find_entry fat12_del_fat_entry scan_entries
fat12_rm-removed l fuel c i rest cs v ch dir high t b hit others chain enough =
    let f = entry_at l.root_dir i in
    let name = c ∷ rest in
    let marked = update v.mem f deleted in
    let first : IsFirst (matches v.mem l.root_dir name) fat_num_root_entry 0 i = record {
      above = omega arith;
      below = omega arith;
      passes = hit;
      earlier = λ j _ lt. others j (omega arith) (omega arith);
    } in
    let found = first_index-found (matches v.mem l.root_dir name) fat_num_root_entry 0 i first in
    let (w, ret, keeps) = del_chain-Keeps v.fat fuel marked t chain enough in
    let start : start_cluster marked f ≡ start_cluster v.mem f = rw (
      update_ne v.mem deleted {i = f} {j = f + 26} (omega arith),
      update_ne v.mem deleted {i = f} {j = f + 26 + 1} (omega arith),
    ) in
    let mark : w f ≡ deleted = keeps f (omega arith) ∙ update_self v.mem deleted f in
    let same = λ (j : ℕ) (ne : j ≢ i).
      fat12_construct_file_name-cong v.mem w (entry_at l.root_dir j) (λ q lt.
        keeps (entry_at l.root_dir j + q) (omega arith)
        ∙ update_ne v.mem deleted {i = f} {j = entry_at l.root_dir j + q} (omega arith)) in
    let absent = first_index-absent (matches w l.root_dir name) fat_num_root_entry 0 (λ j _ lt.
      elim (ℕ_discrete j i) [
        | yes e ↦ rw e (deleted-differs w f c rest mark ch.0 ch.1)
        | no ne ↦ rw (same j ne) (others j ne (omega arith))
      ]) in
    (
      record v { mem = w; phys = fat12_write_back_fat v.fat v.phys },
      rw (dir, found, start, ret) refl,
      rw (dir, absent) refl,
      refl,
    )
