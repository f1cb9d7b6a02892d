-- ===== src/Terminal.antt =====
-- The terminals' prompt and start, include/terminal.h.
use advanced_os.Base.{
  ℕ, zero, suc, ◌+◌, true, false, ◌||◌, Option, some, List, [], ◌∷◌, ◌++◌, ◌==◌, if◌then◌else◌,
  codes,
}
use Prim.Native.String.{String}
use advanced_os.Base.Options.{◌>>=◌}
use advanced_os.Cstr.{strlen, strcmp}
use advanced_os.Console.{
  Console, Terminal, put_terminal, is_shown, set_color, set_cursor, get_cursor, clear_screen,
  copy_video, print, get_current_terminal,
}
use advanced_os.Format.{printf, int, text}

abbrev pub max_terminal : ℕ
max_terminal = 4

-- Lines of a text, each with its line feed.
abbrev pub lines : List String → List ℕ
lines [] = []
lines (s ∷ ss) = codes s ++ b'\n' ∷ lines ss

abbrev pub hello_info : List ℕ
hello_info = lines (
    "     =====    ||     ||    =======" ∷ "   //         ||     ||        //"
    ∷ "   ||         ||=====||      // " ∷ "   \\\\         ||     ||    //"
    ∷ "     =====    ||     ||    =======" ∷ "Welcome to CHZOS!" ∷ [])

abbrev pub help_info : List ℕ
help_info = lines (
    "CHZ OS Shell version 1.0"
    ∷ "These shell commands are defined internally. Type 'help' to see this list." ∷ ""
    ∷ " help             -- Show this list"
    ∷ " ls               -- Show existing files in current directory"
    ∷ " cd [dir]         -- Change directory" ∷ " cp [src] [dst]   -- Copy files"
    ∷ " rm [file]        -- Delete files" ∷ " tick             -- Show current execution time"
    ∷ " exec [prg] [...] -- Execute the user program (support multiple programs)"
    ∷ " clr              -- Clear the screen" ∷ " exit             -- Exit OS" ∷ [])

-- `get_terminal_buf_addr`, for the address of a terminal's `buf`.
abbrev pub get_terminal_buf_addr : (buf_address : ℕ → ℕ) → Console → ℕ
get_terminal_buf_addr buf_address c = if is_shown c then 0xB8000 else buf_address c.tmp_terminal

-- `command_not_found`.
unfoldable pub command_not_found : (str : List ℕ) → Console → Option Console
command_not_found str c =
    if (strcmp str (codes "\n") == 0) || (strlen str == 0)
    then some c
    else printf (codes "%s: command not found\n") (text str ∷ []) c

-- `put_prompt`.
unfoldable pub put_prompt : Console → Option Console
put_prompt c = do
  c1 ← printf (codes "root@CHZOS_%d:") (int (get_current_terminal c) ∷ []) (set_color 2 0 c)
  c2 ← printf (codes "%s") (text c.curr_path ∷ []) (set_color 9 0 c1)
  printf (codes "$ ") [] (set_color 15 0 c2)

-- `new_terminal`.
unfoldable pub new_terminal : Console → Option Console
new_terminal c = put_prompt (set_color 15 0 (print hello_info (set_color 3 0 c)))

-- `curr_terminal = tmp_terminal = &terminal_list[i]`.
abbrev pub select_terminal : ℕ → Console → Console
select_terminal i c = record c { curr_terminal = i; tmp_terminal = i }

-- `n` rounds of the first loop of `terminal_init`, from `i` on.
unfoldable pub blank_terminals : (n i : ℕ) → Console → Console
blank_terminals zero i c = c
blank_terminals (suc n) i c =
    let t = c.terminal_list i in
    let blank : Terminal = record {
      num = i;
      cursor = 0;
      buf = copy_video (λ _. 0) t.buf;
      path = codes "/";
      dir = c.curr_dir;
    } in
    blank_terminals n (i + 1) (put_terminal i blank (select_terminal i c))

-- The body of the second loop.
unfoldable pub greet : (i : ℕ) → Console → Option Console
greet i c = do
  shown ← new_terminal (select_terminal i c)
  let t = shown.terminal_list i
  let saved = record t { buf = copy_video shown.video t.buf; cursor = get_cursor shown }
  some (clear_screen (put_terminal i saved shown))

unfoldable pub greet_all : (n i : ℕ) → Console → Option Console
greet_all zero i c = some c
greet_all (suc n) i c = do c' ← greet i c; greet_all n (i + 1) c'

-- `terminal_init`.
unfoldable pub terminal_init : Console → Option Console
terminal_init c = do
  greeted ← greet_all max_terminal 0 (blank_terminals max_terminal 0 (record c { enabled = false }))
  let first = select_terminal 0 greeted
  let t = first.terminal_list 0
  let shown = set_cursor t.cursor (record first { video = copy_video t.buf first.video })
  some (record shown { enabled = true })
