-- ===== src/Fat/Paths.antt =====
-- The current path of `fat12_set_dir`: going into a folder and back.
use advanced_os.Base.{
  ℕ, zero, suc, ◌+◌, ◌-◌, ◌*◌, ◌<◌, ◌≡◌, refl, ap, ◌∙◌, ◌≢◌, ◌&&◌, some, List, [], ◌∷◌, ◌++◌,
  reverse, append_assoc, arith, dec_lt, leb, if◌then◌else◌, length, get_or, All, codes, update,
  ==_ne, lt→ltb, le→ltb, length-append,
}
use advanced_os.Fat.Entry.{string_in}
use advanced_os.Fat.Cells.{
  string_in-Holds, All-map, get_or-left, get_or-right, get_or-over, All-append,
}
use advanced_os.Fat.Find.{strcpy_self}
use advanced_os.Cstr.Tokens.{strsep-at}
use advanced_os.Cstr.Compare.{strcat-append}
use advanced_os.Cstr.{strcpy, strcat, strcmp, reverse_str, reverse_loop}
use mathlib.Core.List.{reverse-cons, reverse-append, reverse-reverse}
use advanced_os.Fat.Volume.{
  set_curr_path, set_curr_dir, Volume, fat12_set_dir, parent_path, get_curr_dir,
  fat_root_region_start, reverse_text, path_room,
}

-- A character of a folder's name: no NUL and no `/`.
abbrev pub IsStep : ℕ → Type 0
IsStep c = (0 < c) × (c ≢ b'/')

-- `n` rounds swap the cells of `[i, j]` end for end.
pub reverse_loop-cells :
    (n i j : ℕ) (s : ℕ → ℕ)
    → j < i + 2 * n
    → (q : ℕ) → reverse_loop n i j s q ≡ (if leb i q && leb q j then s (i + j - q) else s q)
unfolding reverse_loop
reverse_loop-cells zero i j s b q = ground arith
reverse_loop-cells (suc n) i j s b q = elim (dec_lt i j) [
  | yes l ↦
      rw
        (
          lt→ltb i j l,
          reverse_loop-cells n (i + 1) (j - 1) (update (update s i (s j)) j (s i)) (omega arith) q,
        )
        (ground arith)
  | no o ↦ rw (le→ltb i j (omega arith)) (ground arith)
]

length-reverse_lem : (s : List ℕ) → length (reverse s) ≡ length s
length-reverse_lem [] = refl
length-reverse_lem (c ∷ s) =
    rw (reverse-cons c s) (omega (arith, length-append (reverse s) (c ∷ []), length-reverse_lem s))

get_or-reverse :
    (s : List ℕ) (j : ℕ) → j < length s → get_or (reverse s) j 0 ≡ get_or s (length s - 1 - j) 0
get_or-reverse [] j l = absurd (omega arith)
get_or-reverse (c ∷ s) j l =
    let len = length-reverse_lem s in
    rw (reverse-cons c s) (elim (dec_lt j (length s)) [
      | yes b ↦
          let e : length (c ∷ s) - 1 - j ≡ suc (length s - 1 - j) = omega arith in
          rw e (get_or-left (reverse s) (c ∷ []) j (omega arith) ∙ get_or-reverse s j b)
      | no o ↦
          let e : length (c ∷ s) - 1 - j ≡ 0 = omega arith in
          let g : j ≡ length (reverse s) + 0 = omega arith in
          rw (e, g) (get_or-right (reverse s) (c ∷ []) 0)
    ])

reverse-All : (P : ℕ → Type 0) (s : List ℕ) → All P s → All P (reverse s)
reverse-All P [] a = tt
reverse-All P (c ∷ s) a =
    rw (reverse-cons c s) (All-append P (reverse s) (c ∷ []) (reverse-All P s a.1) (a.0, tt))

reversed_cell :
    (s : List ℕ) (j : ℕ)
    → 0 < length s
    → j < suc (length s)
    → (if leb 0 (0 + j) && leb (0 + j) (length s - 1)
        then get_or s (0 + (length s - 1) - (0 + j)) 0
        else get_or s (0 + j) 0)
      ≡ get_or (reverse s) j 0
reversed_cell s j p l = elim (dec_lt j (length s)) [
  | yes b ↦
      let e : 0 + (length s - 1) - (0 + j) ≡ length s - 1 - j = omega arith in
      rw (e, get_or-reverse s j b) (ground arith)
  | no o ↦
      let e : 0 + j ≡ j = omega arith in
      rw
        (
          e,
          get_or-over s j (omega arith),
          get_or-over (reverse s) j (omega (arith, length-reverse_lem s)),
        )
        (ground arith)
]

-- `reverse` in the buffer of a text reverses the text.
reverse_text-reverse : (s : List ℕ) → All (λ c. 0 < c) s → reverse_text s ≡ reverse s
unfolding reverse_str string_in reverse_loop
reverse_text-reverse [] a = refl
reverse_text-reverse (c ∷ s) a =
    let t = c ∷ s in
    let len = length-reverse_lem t in
    string_in-Holds (reverse_loop (length t) 0 (length t - 1) (λ i. get_or t i 0)) (length t + 1) 0
      (reverse t) (reverse-All (λ c. 0 < c) t a) (omega arith)
      (λ j l.
        reverse_loop-cells (length t) 0 (length t - 1) (λ i. get_or t i 0) (omega arith) (0 + j)
        ∙ reversed_cell t j (omega arith) (omega arith))

-- Up from a folder that was entered: the path before.
parent_path-strcat :
    (path folder : List ℕ)
    → All (λ c. 0 < c) path
    → All IsStep folder
    → parent_path (strcat (strcat path (codes "/")) folder) ≡ some path
unfolding parent_path
parent_path-strcat path folder p a =
    let positive = All-map IsStep (λ c. 0 < c) folder (λ c h. h.0) a in
    let whole = path ++ b'/' ∷ folder in
    let text : strcat (strcat path (codes "/")) folder ≡ whole =
      rw ((strcat-append path (codes "/")).0, (strcat-append (path ++ codes "/") folder).0)
        (append_assoc path (codes "/") folder) in
    let chars = All-append (λ c. 0 < c) path (b'/' ∷ folder) p (omega arith, positive) in
    let turned : reverse whole ≡ reverse folder ++ b'/' ∷ reverse path =
      rw (reverse-append path (b'/' ∷ folder), reverse-cons b'/' folder)
        (append_assoc (reverse folder) (b'/' ∷ []) (reverse path)) in
    let token = strsep-at b'/' (reverse folder) (reverse path) (reverse-All IsStep folder a) in
    let back = reverse_text-reverse (reverse path) (reverse-All (λ c. 0 < c) path p) in
    rw
      (
        text,
        reverse_text-reverse whole chars,
        turned,
        token,
        back,
        reverse-reverse path,
        strcpy_self path,
      )
      refl

length-deeper :
    (path folder : List ℕ)
    → length path + 1 + length folder < path_room
    → length (strcat (strcat path (codes "/")) folder) < path_room
length-deeper path folder fits =
    rw ((strcat-append path (codes "/")).0, (strcat-append (path ++ codes "/") folder).0)
      (omega (arith, length-append (path ++ codes "/") folder, length-append path (codes "/")))

set_curr_path_lem :
    (path : List ℕ) (v : Volume)
    → length path < path_room
    → set_curr_path path v
      ≡ some (record v { console = record v.console { curr_path = strcpy path } })
set_curr_path_lem path v fits = rw (lt→ltb (length path) path_room fits) refl

enter_folder :
    (dir : ℕ) (folder : List ℕ) (v : Volume)
    → (strcmp folder (codes ".") ≢ 0) × (strcmp folder (codes "..") ≢ 0)
    → get_curr_dir v ≢ fat_root_region_start
    → dir ≢ 0
    → fat12_set_dir dir folder v
      ≡ set_curr_path (strcat (strcat v.console.curr_path (codes "/")) folder) (set_curr_dir dir v)
unfolding fat12_set_dir
enter_folder dir folder v n c d =
    rw
      (
        ==_ne (get_curr_dir v) fat_root_region_start c,
        ==_ne (strcmp folder (codes ".")) 0 n.0,
        ==_ne (strcmp folder (codes "..")) 0 n.1,
        ==_ne dir 0 d,
      )
      refl

leave_folder :
    (up : ℕ) (path : List ℕ) (w : Volume)
    → parent_path w.console.curr_path ≡ some path
    → get_curr_dir w ≢ fat_root_region_start
    → (up ≢ 0) × (up ≢ fat_root_region_start)
    → fat12_set_dir up (codes "..") w ≡ set_curr_path path (set_curr_dir up w)
unfolding fat12_set_dir strcmp
leave_folder up path w e c u =
    rw
      (
        ==_ne (get_curr_dir w) fat_root_region_start c,
        e,
        ==_ne up 0 u.0,
        ==_ne up fat_root_region_start u.1,
      )
      refl

-- Outside of the root directory, going into a folder, whose name has no `/` and is neither `.` nor
-- `..`, and then to `..` gives the path before, and the directory that the entry `..` names, if
-- neither of the two clusters is 0 or the root directory's number, and the longer path fits into
-- the 50 bytes of `curr_path`.
pub fat12_set_dir-back :
    (dir up : ℕ) (folder : List ℕ) (v : Volume)
    → All (λ c. 0 < c) v.console.curr_path
    → All IsStep folder
    → length v.console.curr_path + 1 + length folder < path_room
    → (strcmp folder (codes ".") ≢ 0) × (strcmp folder (codes "..") ≢ 0)
    → get_curr_dir v ≢ fat_root_region_start
    → (dir ≢ 0) × (dir ≢ fat_root_region_start)
    → (up ≢ 0) × (up ≢ fat_root_region_start)
    → (w : Volume) × (fat12_set_dir dir folder v ≡ some w)
      × (fat12_set_dir up (codes "..") w
          ≡ some (record v { console = record v.console { curr_dir = up } }))
fat12_set_dir-back dir up folder v p a fits n c d u =
    let path = v.console.curr_path in
    let deeper = strcat (strcat path (codes "/")) folder in
    let w = record v { console = record v.console { curr_path = strcpy deeper; curr_dir = dir } } in
    let parent : parent_path (strcpy deeper) ≡ some path =
      ap parent_path (strcpy_self deeper) ∙ parent_path-strcat path folder p a in
    (
      w,
      enter_folder dir folder v n c d.0
          ∙ set_curr_path_lem deeper (set_curr_dir dir v) (length-deeper path folder fits),
      leave_folder up path w parent d.1 u
          ∙ set_curr_path_lem path (set_curr_dir up w) (omega arith)
          ∙ ap
              (λ (q : List ℕ).
                some (record v { console = record v.console { curr_path = q; curr_dir = up } }))
              (strcpy_self path),
    )
