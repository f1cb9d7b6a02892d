-- ===== src/Fat/Find.antt =====
-- A file that `fat12_create_file` enters is found by `fat12_find_entry`.
use advanced_os.Base.{
  ℕ, zero, suc, ◌+◌, ◌^◌, ◌≤◌, ◌<◌, ◌≡◌, refl, ◌∙◌, ◌≢◌, inl, inr, true, false, none, some, List,
  [], ◌∷◌, ◌++◌, arith, ltb, ◌==◌, Bool-cases, length, All, codes, update, first_index,
  first_index-found, IsFirst, ==_refl, le→ltb,
}
use advanced_os.Fat.Names.{IsPart, Fits, fat12_construct_file_name-parts, name_length}
use advanced_os.Fat.Cells.{All-map}
use advanced_os.Memory.{Mem}
use advanced_os.Cstr.{strcmp, strsep, strcpy}
use advanced_os.Cstr.Tokens.{strsep-at}
use advanced_os.Fat.{Allocation, alloc_loop, fat12_alloc, sectors_for}
use advanced_os.Fat.Entry.{
  copy_field, add_dot, name_buffer, fat12_construct_file_name, entry_at, matches, scan_entries,
  start_cluster, file_length, fat_num_root_entry,
}
use advanced_os.Fat.Volume.{
  Layout, Volume, fill_entry, add_entry, enter_file, is_free, fat12_create_file, fat12_find_entry,
  get_curr_dir, fat_root_region_start,
}
use advanced_os.Fat.Create.{named-Holds, fill_entry-Keeps, fill_entry-fields}

copy_field-cong :
    (g h : ℕ → ℕ) (k n i : ℕ) (name : ℕ → ℕ)
    → ((j : ℕ) → j < i + n → g j ≡ h j)
    → copy_field g k n i name ≡ copy_field h k n i name
unfolding copy_field
copy_field-cong g h k zero i name e = refl
copy_field-cong g h k (suc n) i name e = rw (
  e i (omega arith),
  copy_field-cong g h k n (i + 1) (update name (i + k) (h i)) (λ j b. e j (omega arith)),
)

-- A name depends on the first eleven bytes of its entry alone.
pub fat12_construct_file_name-cong :
    (m w : Mem) (f : ℕ)
    → ((j : ℕ) → j < 11 → w (f + j) ≡ m (f + j))
    → fat12_construct_file_name w f ≡ fat12_construct_file_name m f
unfolding fat12_construct_file_name name_buffer
fat12_construct_file_name-cong m w f e =
    let names =
      copy_field-cong (λ j. w (f + j)) (λ j. m (f + j)) 0 8 0 (λ _. 0) (λ j b. e j (omega arith)) in
    let name = copy_field (λ j. m (f + j)) 0 8 0 (λ _. 0) in
    let behind : (j : ℕ) → j < 3 → w (f + 8 + j) ≡ m (f + 8 + j) =
      λ j b. let q : f + 8 + j ≡ f + (8 + j) = omega arith in rw q (e (8 + j) (omega arith)) in
    let extensions =
      copy_field-cong (λ j. w (f + 8 + j)) (λ j. m (f + 8 + j)) (add_dot name).k 3 0
        (add_dot name).dotted (λ j b. behind j (omega arith)) in
    rw (names, e 8 (omega arith), extensions)

strcmp_self : (s : List ℕ) → strcmp s s ≡ 0
unfolding strcmp
strcmp_self [] = refl
strcmp_self (c ∷ s) = rw (==_refl c) (strcmp_self s)

pub strcpy_self : (s : List ℕ) → strcpy s ≡ s
unfolding strcpy
strcpy_self [] = refl
strcpy_self (c ∷ s) = rw (strcpy_self s)

strsep-dot :
    (stem ext : List ℕ)
    → All IsPart stem
    → strsep (strcpy (stem ++ b'.' ∷ ext)) (codes ".") ≡ (stem, some (strcpy ext))
strsep-dot stem ext a =
    rw (strcpy_self (stem ++ b'.' ∷ ext), strcpy_self ext)
      (strsep-at b'.' stem ext
        (All-map IsPart (λ c. (0 < c) × (c ≢ b'.')) stem (λ c p. (p.0.0, p.1.1.0)) a))

alloc_loop-start :
    (num n i limit : ℕ) (a : Allocation)
    → a.start < limit
    → i + n ≤ limit
    → (alloc_loop num n i a).start < limit
unfolding alloc_loop
alloc_loop-start num zero i limit a s b = s
alloc_loop-start num (suc n) i limit a s b = elim (Bool-cases (a.table i == 0)) [
  | inr e ↦ rw e (alloc_loop-start num n (i + 1) limit a s (omega arith))
  | inl e ↦ elim (Bool-cases (a.cnt + 1 == num)) [
    | inl last ↦ rw (e, last) (ground arith)
    | inr more ↦ rw (e, more) (alloc_loop-start num n (i + 1) limit _ (ground arith) (omega arith))
  ]
]

pub fat12_alloc-start : (fat : ℕ → ℕ) (size : ℕ) → (fat12_alloc fat size).start < 3072
unfolding fat12_alloc
fat12_alloc-start fat size =
    alloc_loop-start (sectors_for size) 3070 2 3072
      (record { table = fat; cnt = 0; prev = none; start = 0 }) (omega arith) (omega arith)

pub scan_entries-found :
    (m : Mem) (base n : ℕ) (folder : List ℕ) (i : ℕ)
    → first_index (matches m base folder) n 0 ≡ some i
    → scan_entries m base n folder ≡ some (entry_at base i)
unfolding scan_entries
scan_entries-found m base n folder i e = rw e refl

-- The entry is found where it was written, if none before it matches.
pub entry-scan :
    (m : Mem) (base i cstart size : ℕ) (stem ext : List ℕ)
    → Fits 8 stem
    → Fits 3 ext
    → i < fat_num_root_entry
    → ((j : ℕ) → j < i → matches m base (stem ++ b'.' ∷ ext) j ≡ false)
    → scan_entries
        (fill_entry m (entry_at base i) cstart size stem ext)
        base
        fat_num_root_entry
        (stem ++ b'.' ∷ ext)
      ≡ some (entry_at base i)
entry-scan m base i cstart size stem ext s x b earlier =
    let f = entry_at base i in
    let w = fill_entry m f cstart size stem ext in
    let name = stem ++ b'.' ∷ ext in
    let (hs, (hx, keeps)) = named-Holds m f stem ext s x in
    let outer = fill_entry-Keeps m f cstart size stem ext in
    let built =
      fat12_construct_file_name-parts w f stem ext s x
        (λ j l. outer (f + j) (inl (omega arith)) ∙ hs j l)
        (λ j l. outer (f + 8 + j) (inl (omega arith)) ∙ hx j l) in
    let passes : matches w base name i ≡ true = rw (built, strcmp_self name) refl in
    let same = λ (j : ℕ) (l : j < i). fat12_construct_file_name-cong m w (entry_at base j) (λ q c.
      outer (entry_at base j + q) (inl (omega arith))
      ∙ keeps (entry_at base j + q) (inl (omega arith))) in
    let first : IsFirst (matches w base name) fat_num_root_entry 0 i = record {
      above = omega arith;
      below = omega arith;
      passes = passes;
      earlier = λ j _ l. rw (same j l) (earlier j l);
    } in
    scan_entries-found w base fat_num_root_entry name i
      (first_index-found (matches w base name) fat_num_root_entry 0 i first)

add_entry-fill_entry :
    (l : Layout) (m : Mem) (cstart size : ℕ) (stem ext : List ℕ) (i : ℕ)
    → Fits 8 stem
    → Fits 3 ext
    → IsFirst (is_free m l.root_dir) fat_num_root_entry 0 i
    → add_entry l m cstart size (stem ++ b'.' ∷ ext)
      ≡ some (fill_entry m (entry_at l.root_dir i) cstart size stem ext)
unfolding add_entry enter_file
add_entry-fill_entry l m cstart size stem ext i s x first =
    let name = stem ++ b'.' ∷ ext in
    let found = first_index-found (is_free m l.root_dir) fat_num_root_entry 0 i first in
    let short : ltb 19 (length name) ≡ false =
      le→ltb 19 (length name) (omega (arith, name_length stem ext, s.0.1, x.0.1)) in
    rw (found, short, strsep-dot stem ext s.1, strcpy_self ext) refl

-- The volume behind the creation of a file in the entry `i`.
abbrev pub created : Layout → (size : ℕ) (stem ext : List ℕ) → Volume → (i : ℕ) → Volume
created l size stem ext v i =
    let a = fat12_alloc v.fat size in
    record v { mem = fill_entry v.mem (entry_at l.root_dir i) a.start size stem ext; fat = a.table }

pub fat12_create_file-created :
    (l : Layout) (addr size : ℕ) (stem ext : List ℕ) (v : Volume) (i : ℕ)
    → Fits 8 stem
    → Fits 3 ext
    → IsFirst (is_free v.mem l.root_dir) fat_num_root_entry 0 i
    → fat12_create_file l addr size (stem ++ b'.' ∷ ext) v ≡ some (created l size stem ext v i)
unfolding fat12_create_file
fat12_create_file-created l addr size stem ext v i s x first =
    rw (add_entry-fill_entry l v.mem (fat12_alloc v.fat size).start size stem ext i s x first) refl

-- A file of a 32-bit size that is created under a stem of one to eight and an extension of one to
-- three characters, none of them a NUL, a space, a dot or an upper-case letter, when the root
-- directory is current and has a free entry, and no entry before the first free one has the name,
-- takes that entry: it is then found under the name, with the first cluster of the allocation and
-- the size.
pub fat12_create_file-fat12_find_entry :
    (l : Layout) (fuel addr size : ℕ) (stem ext : List ℕ) (v : Volume) (i : ℕ)
    → Fits 8 stem
    → Fits 3 ext
    → size < 2 ^ 32
    → get_curr_dir v ≡ fat_root_region_start
    → IsFirst (is_free v.mem l.root_dir) fat_num_root_entry 0 i
    → ((j : ℕ) → j < i → matches v.mem l.root_dir (stem ++ b'.' ∷ ext) j ≡ false)
    → let name = stem ++ b'.' ∷ ext in
      let f = entry_at l.root_dir i in
      (w : Volume) × (fat12_create_file l addr size name v ≡ some w)
      × (fat12_find_entry l fuel name w ≡ some (some f, w))
      × (start_cluster w.mem f ≡ (fat12_alloc v.fat size).start)
      × (file_length w.mem f ≡ size)
unfolding fat12_find_entry
fat12_create_file-fat12_find_entry l fuel addr size stem ext v i s x z dir first earlier =
    let a = fat12_alloc v.fat size in
    let scan =
      entry-scan v.mem l.root_dir i a.start size stem ext s x (omega (arith, first.below))
        earlier in
    let start = fat12_alloc-start v.fat size in
    let fields =
      fill_entry-fields v.mem (entry_at l.root_dir i) a.start size stem ext (omega arith) z in
    (
      created l size stem ext v i,
      fat12_create_file-created l addr size stem ext v i s x first,
      rw (dir, scan) refl,
      fields.0,
      fields.1,
    )
