-- ===== src/Console/Switching.antt =====
-- `change_terminal` of include/terminal.h, while no process runs.
use advanced_os.Base.{
  ◌≢◌, update_ne, update_self, subst, sym, ◌∙◌, ◌*◌, ◌%◌, ◌^◌, ◌/◌, ◌<◌, List, [], ◌∷◌, ap, lt→ltb,
  ==_refl, arith, false, ℕ, ◌≡◌, refl, none,
}
use advanced_os.Console.{
  get_cursor, int_div, set_cursor, strcpy, Console, Terminal, change_terminal, load_terminal,
  save_terminal, choose_terminal, video_size,
}
use advanced_os.Cstr.{strcpy}
use advanced_os.Console.Screen.{clear_screen-IsDrawing}

-- What the screen and the directory are after a terminal is loaded.
abbrev pub Showing : Terminal → Console → Type 0
Showing t c =
    ((i : ℕ) → i < video_size → c.video i ≡ t.buf i)
    × (c.cursor_reg ≡ t.cursor / 2 % 2 ^ 16)
    × (c.curr_path ≡ t.path)
    × (c.curr_dir ≡ t.dir)

strcpy_id : (s : List ℕ) → strcpy s ≡ s
unfolding strcpy
strcpy_id [] = refl
strcpy_id (c ∷ s) = ap (c ∷◌) (strcpy_id s)

int_div_small : (v : ℕ) → v < 2 ^ 31 → int_div v 2 % 2 ^ 16 ≡ v / 2 % 2 ^ 16
int_div_small v h = ground arith

-- With no process running, `change_terminal` shows what the list holds for the new terminal when
-- the current one has been saved, and leaves the rest of the list alone.
change_terminal-Showing :
    (n : ℕ) (c : Console)
    → let saved = save_terminal (record c { enabled = false }) in
      let c' = change_terminal none n c in
      (saved.terminal_list n).cursor < 2 ^ 31
      → (c'.terminal_list ≡ saved.terminal_list)
        × (c'.curr_terminal ≡ n)
        × (c'.tmp_terminal ≡ n)
        × Showing (saved.terminal_list n) c'
unfolding change_terminal choose_terminal load_terminal set_cursor
change_terminal-Showing n c small =
    let saved = save_terminal (record c { enabled = false }) in
    let chosen = record saved { curr_terminal = n; tmp_terminal = n } in
    let (v, r, e) = clear_screen-IsDrawing chosen (==_refl (saved.terminal_list n).num) in
    rw (e, ==_refl (saved.terminal_list n).num)
      (
        refl,
        refl,
        refl,
        (
          λ i h. rw (lt→ltb i video_size h) refl,
          int_div_small (saved.terminal_list n).cursor small,
          strcpy_id (saved.terminal_list n).path,
          refl,
        ),
      )

save_terminal-other :
    (n : ℕ) (c : Console)
    → c.curr_terminal ≢ n
    → (save_terminal c).terminal_list n ≡ c.terminal_list n
unfolding save_terminal
save_terminal-other n c ne = update_ne c.terminal_list _ ne

-- What is saved of a shown terminal.
save_terminal-own :
    (c : Console)
    → c.tmp_terminal ≡ c.curr_terminal
    → let t = (save_terminal c).terminal_list c.curr_terminal in
      ((i : ℕ) → i < video_size → t.buf i ≡ c.video i)
      × (t.cursor ≡ c.cursor_reg * 2)
      × (t.path ≡ c.curr_path)
      × (t.dir ≡ c.curr_dir)
unfolding save_terminal get_cursor
save_terminal-own c same =
    rw (update_self c.terminal_list _ c.curr_terminal, same, ==_refl)
      (λ i h. rw (lt→ltb i video_size h) refl, refl, strcpy_id c.curr_path, refl)

-- While no process runs, a switch to another terminal and back restores the screen's bytes, the
-- cursor, the path and the directory.
pub change_terminal-back :
    (n : ℕ) (c : Console)
    → c.tmp_terminal ≡ c.curr_terminal
    → c.curr_terminal ≢ n
    → c.cursor_reg < 2 ^ 16
    → (c.terminal_list n).cursor < 2 ^ 31
    → let c' = change_terminal none c.curr_terminal (change_terminal none n c) in
      ((i : ℕ) → i < video_size → c'.video i ≡ c.video i)
      × (c'.cursor_reg ≡ c.cursor_reg)
      × (c'.curr_path ≡ c.curr_path)
      × (c'.curr_dir ≡ c.curr_dir)
change_terminal-back n c same ne reg small =
    let off : Console = record c { enabled = false } in
    let c1 = change_terminal none n c in
    let off1 : Console = record c1 { enabled = false } in
    let a = c.curr_terminal in
    let (vid, cur, path, dir) = save_terminal-own off same in
    let other = save_terminal-other n off ne in
    let (list1, curr1, tmp1, s1) =
      change_terminal-Showing n c (subst (λ (t : Terminal). t.cursor < 2 ^ 31) (sym other) small) in
    let kept : (save_terminal off1).terminal_list a ≡ (save_terminal off).terminal_list a =
      save_terminal-other a off1 (λ e. ne (sym (sym curr1 ∙ e)))
      ∙ ap (λ (f : ℕ → Terminal). f a) list1 in
    let bound : ((save_terminal off).terminal_list a).cursor < 2 ^ 31 = omega arith in
    let (list2, curr2, tmp2, s2) =
      change_terminal-Showing a c1 (subst (λ (t : Terminal). t.cursor < 2 ^ 31) (sym kept) bound) in
    let (v2, r2, p2, d2) = s2 in
    (
      λ i h. v2 i h ∙ ap (λ (t : Terminal). t.buf i) kept ∙ vid i h,
      r2 ∙ ap (λ (t : Terminal). t.cursor / 2 % 2 ^ 16) kept ∙ omega arith,
      p2 ∙ ap (λ (t : Terminal). t.path) kept ∙ path,
      d2 ∙ ap (λ (t : Terminal). t.dir) kept ∙ dir,
    )
