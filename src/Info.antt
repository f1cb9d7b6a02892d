-- ===== src/Info.antt =====
-- `print_proc_info` of include/task.h, a message about the registers of a process.
use advanced_os.Base.{Option, [], ◌∷◌, codes}
use advanced_os.Base.Options.{◌>>=◌}
use advanced_os.Console.{Console}
use advanced_os.Format.{printf, int}
use advanced_os.Task.State.{Process}

unfoldable pub print_proc_info : Process → Console → Option Console
print_proc_info p c = do
  let r = p.reg_img
  c1 ←
      printf (codes "CS:%xh DS:%xh ES:%xh FS:%xh GS:%xh SS:%xh\n")
        (int r.cs ∷ int r.ds ∷ int r.es ∷ int r.fs ∷ int r.gs ∷ int r.ss ∷ []) c
  printf (codes "EIP:%xh EFLAGS:%xh USER_ESP:%xh EBP:%xh EAX:%xh\n")
      (int r.eip ∷ int r.eflags ∷ int r.user_esp ∷ int r.ebp ∷ int r.eax ∷ []) c1
