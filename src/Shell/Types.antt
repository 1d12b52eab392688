-- ===== src/Shell/Types.antt =====
-- kernel/shell.cpp: the modes and the variables of the shell, and the calls that it makes.
use quillos.Prelude.{ℕ, Bool, List}
use quillos.Jobs.Types.{JobType}
use quillos.Users.{Users}
use quillos.Clipboard.{Clipboard}
use quillos.Filesystem.Types.{Filesystem}

-- `ShellMode`
pub data Mode : Type 0 where
  mode_signup_user mode_signup_pass mode_signup_confirm : Mode
  mode_onboard_usecase mode_onboard_packages : Mode
  mode_login_user mode_login_pass mode_edit mode_shell : Mode

abbrev pub shell_buffer_size : ℕ
shell_buffer_size = 256

abbrev pub edit_size : ℕ
edit_size = 1024

-- The variables of shell.cpp, and those of the parts whose answers it looks at. `shell_buffer` has
-- the bytes below `shell_ptr`, `edit_buf` those below `edit_len`; `fs` is `g_fs`.
pub record Shell (D : Type 0) : Type 0 where
  pub mode : Mode
  pub shell_buffer : List ℕ
  pub cwd : List ℕ
  pub edit_filename : List ℕ
  pub edit_buf : List ℕ
  pub pending_username : List ℕ
  pub pending_password : List ℕ
  pub password_mode : Bool
  pub fs : Filesystem
  pub users : Users D
  pub clipboard : Clipboard

-- A call of another component whose result the shell at most prints: `call_print` prints a text that
-- was looked up, `call_putc` echoes a key. The prompts and the other fixed texts are left out.
pub data Call : Type 0 where
  call_print : (text : List ℕ) → Call
  call_putc : (c : ℕ) → Call
  call_backspace call_clear : Call
  call_set_bg_color : (color : ℕ) → Call
  call_heap_test : Call
  call_read_sector : (lba : ℕ) → Call
  call_spawn : (kind : List ℕ) → Call
  call_spawn_on : (kind : List ℕ) → (node_ip : ℕ) → Call
  call_kill : (pid : ℕ) → Call
  call_send_discover : Call
  call_submit_job : (target_ip : ℕ) → (job_type : ℕ) → (bytes : List ℕ) → Call
  call_submit : (kind : JobType) → (bytes : List ℕ) → Call
  call_reboot call_halt : Call
