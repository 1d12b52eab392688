-- ===== src/Shell/Tests.antt =====
-- The theorems about the shell at concrete states, and runs of its commands.
use quillos.Prelude.{
  zero, get_or, u32_mod, ◌≤◌, map, ℕ, suc, ◌≡◌, ◌<◌, refl, true, false, none, some, List, [], ◌∷◌,
  ◌++◌, arith, length, replicate, str_eq,
}
use quillos.Users.{
  User, no_user, usecase_dev, Users, hash_loop, hash_password, count, find_named, find, verify,
  set_current,
}
use quillos.Filesystem.{
  init, write_file, write_found, touch, make_at, has_parent, find_entry, find_free_slot, read_file,
  ls, ls_loop, emit_all,
}
use quillos.Filesystem.Types.{Filesystem, no_entry, file_directory, file_regular}
use quillos.Shell.Types.{call_clear}
use quillos.Filesystem.Paths.{root, split_path, normalize_path, last_slash, trim}
use quillos.Utils.{itoa, digits, copy_back}
use quillos.Shell.Types.{
  Shell, Call, mode_shell, mode_edit, mode_login_pass, mode_login_user, call_putc,
}
use quillos.Shell.Lines.{skip_spaces, take_word, run_values}
use quillos.Shell.Names.{command_in, command_named}
use quillos.Shell.Commands.{zeroed, shell_init, read_text, cd_command}
use quillos.Shell.Login.{login_user_line, login_pass_line}
use quillos.Shell.Editor.{nano_command}
use quillos.Shell.{perform, process_command, handle_line, line_update, shell_update}
use quillos.Shell.Keys.{Keyed, booted}
use quillos.Shell.Staying.{is_ending, Keyed-stays}
use quillos.Shell.Typing.{press_keys, press_keys-Keyed, press_keys-line, password_hidden}
use quillos.Shell.Safety.{IsValid}
use quillos.Shell.Admission.{Admitted, shell_update-Admitted}
use quillos.Shell.Editing.{edited_file}
use quillos.Shell.Numbers.{run_values_hangs}
use quillos.Shell.Running.{sum_arg, process_command-run_sum, run_line}
use quillos.Shell.Lines.{array_bytes}
use quillos.Jobs.Types.{job_sum}
use quillos.Jobs.Execute.{execute}
use quillos.Shell.Types.{call_submit}

abbrev saved : List User → ℕ → ℕ
saved us n = suc n

-- `b`, with the password `xyz`.
abbrev user_b : User
user_b = record {
  name = b'b' ∷ [];
  pass_hash = hash_password (b'x' ∷ b'y' ∷ b'z' ∷ []);
  usecase = usecase_dev;
  onboarded = true;
  active = true;
}

abbrev users_b : Users ℕ
users_b = record { users = user_b ∷ replicate 7 no_user; current_user = none; disk = 0 }

abbrev at_login : Shell ℕ
at_login = shell_init (zeroed users_b)

abbrev at_password : Shell ℕ
at_password = record (zeroed users_b) {
  mode = mode_login_pass;
  pending_username = b'b' ∷ [];
  password_mode = true;
  fs = init;
}

abbrev at_prompt : Shell ℕ
at_prompt = record (zeroed (record users_b { current_user = some 0 })) {
  mode = mode_shell;
  pending_username = b'b' ∷ [];
  fs = init;
}

name_run :
    press_keys saved [] at_login (b'b' ∷ b'\n' ∷ []) ≡ some (at_password, call_putc b'b' ∷ [])
unfolding press_keys shell_update line_update handle_line login_user_line shell_init count
name_run = refl

login_run :
    press_keys saved [] at_password (b'x' ∷ b'y' ∷ b'z' ∷ b'\n' ∷ [])
    ≡ some (at_prompt, replicate 3 (call_putc b'*'))
unfolding press_keys shell_update line_update handle_line login_pass_line verify find find_named
    str_eq hash_password hash_loop set_current
login_run = refl

abbrev nano_f : List ℕ
nano_f = b'n' ∷ b'a' ∷ b'n' ∷ b'o' ∷ b' ' ∷ b'f' ∷ []

abbrev path_f : List ℕ
path_f = b'/' ∷ b'f' ∷ []

abbrev at_editor : Shell ℕ
at_editor = record at_prompt { mode = mode_edit; edit_filename = path_f }

nano_run : handle_line saved [] at_prompt mode_shell nano_f ≡ some (at_editor, [])
unfolding handle_line process_command perform command_named command_in str_eq skip_spaces take_word
    nano_command read_text read_file split_path normalize_path last_slash trim find_entry init
nano_run = refl

abbrev reached_password : Keyed saved at_password
reached_password =
    press_keys-Keyed saved [] at_login at_password (b'b' ∷ b'\n' ∷ []) (call_putc b'b' ∷ [])
      (booted users_b) name_run

abbrev reached_prompt : Keyed saved at_prompt
reached_prompt =
    press_keys-Keyed saved [] at_password at_prompt (b'x' ∷ b'y' ∷ b'z' ∷ b'\n' ∷ [])
      (replicate 3 (call_putc b'*')) reached_password login_run

abbrev nano_keys : List Call
nano_keys = map call_putc nano_f

Keyed-stays_example :
    IsValid at_prompt
    × ((received : List ℕ) (c : ℕ)
        → is_ending at_prompt c ≡ false
        → (r : Shell ℕ × List Call) × (shell_update saved received at_prompt c ≡ some r)
          × Keyed saved r.0
          × IsValid r.0)
Keyed-stays_example = Keyed-stays saved reached_prompt

press_keys-line_example :
    press_keys saved [] at_prompt (nano_f ++ (b'\n' ∷ [])) ≡ some (at_editor, nano_keys ++ [])
press_keys-line_example =
    press_keys-line saved [] at_prompt at_editor nano_f [] refl refl
      (refl, (refl, (refl, (refl, (refl, (refl, tt)))))) (omega arith) nano_run

password_hidden_example :
    press_keys saved [] at_password (b'x' ∷ b'y' ∷ [])
    ≡ some (record at_password { shell_buffer = b'x' ∷ b'y' ∷ [] }, replicate 2 (call_putc b'*'))
password_hidden_example =
    password_hidden saved [] at_password (b'x' ∷ b'y' ∷ []) reached_password refl (refl, (refl, tt))
      (omega arith)

abbrev typed_xyz : Shell ℕ
typed_xyz = record at_password { shell_buffer = b'x' ∷ b'y' ∷ b'z' ∷ [] }

enter_run : shell_update saved [] typed_xyz b'\n' ≡ some (at_prompt, [])
unfolding shell_update line_update handle_line login_pass_line verify find find_named str_eq
    hash_password hash_loop set_current
enter_run = refl

shell_update-Admitted_example : Admitted saved typed_xyz (b'x' ∷ b'y' ∷ b'z' ∷ []) at_prompt
shell_update-Admitted_example =
    shell_update-Admitted saved [] typed_xyz at_prompt b'\n' [] refl enter_run

reached_editor : Keyed saved at_editor
reached_editor =
    press_keys-Keyed saved [] at_prompt at_editor (nano_f ++ (b'\n' ∷ [])) (nano_keys ++ [])
      reached_prompt press_keys-line_example

abbrev hi : List ℕ
hi = b'h' ∷ b'\n' ∷ b'i' ∷ []

abbrev with_f : Filesystem
with_f = record {
  entries =
      record no_entry { name = root; kind = file_directory }
      ∷ record no_entry {
        name = b'f' ∷ [];
        parent = root;
        kind = file_regular;
        content = b'h' ∷ b'\n' ∷ b'i' ∷ replicate 1021 0;
        size = 3;
      }
      ∷ replicate 62 no_entry;
}

write_run : write_file init (some path_f) (some hi) ≡ some (with_f, true)
unfolding init write_file write_found touch make_at has_parent find_entry find_free_slot split_path
    normalize_path last_slash trim str_eq
write_run = refl

edited_file_example :
    (press_keys saved [] at_editor (hi ++ (0x18 ∷ []))
      ≡ some (record at_editor { edit_buf = hi; mode = mode_shell; fs = with_f }, map call_putc hi))
    × (read_file with_f (some path_f) (some 1024) ≡ some (some hi))
edited_file_example =
    edited_file saved [] at_editor hi with_f reached_editor refl (refl, (refl, (refl, tt)))
      (omega arith) write_run

small_numbers : (i : ℕ) → get_or {A = ℕ} (10 ∷ 20 ∷ []) i 0 < u32_mod
small_numbers zero = omega arith
small_numbers (suc zero) = omega arith
small_numbers (suc (suc i)) = omega arith

short_line : length (sum_arg (10 ∷ 20 ∷ [])) ≤ 191
unfolding itoa digits copy_back
short_line = omega arith

process_command-run_sum_example :
    (process_command [] at_prompt (run_line (10 ∷ 20 ∷ []))
      ≡ some (at_prompt, call_submit job_sum (10 ∷ 0 ∷ 0 ∷ 0 ∷ 20 ∷ 0 ∷ 0 ∷ 0 ∷ []) ∷ []))
    × (execute 0 job_sum (10 ∷ 0 ∷ 0 ∷ 0 ∷ 20 ∷ 0 ∷ 0 ∷ 0 ∷ []) ≡ some 30)
unfolding array_bytes
process_command-run_sum_example =
    process_command-run_sum [] at_prompt 10 (20 ∷ []) (omega arith) short_line small_numbers

run_values_hangs_example : run_values 100 32 (b'x' ∷ []) ≡ none
run_values_hangs_example = run_values_hangs 100 31 b'x' [] refl refl

-- `cls` leads back to the login and loses every file.
cls_run :
    process_command [] (record at_prompt { fs = with_f }) (b'c' ∷ b'l' ∷ b's' ∷ [])
    ≡ some
        (record at_login { users = at_prompt.users; pending_username = b'b' ∷ [] }, call_clear ∷ [])
unfolding process_command perform command_named command_in str_eq skip_spaces take_word shell_init
    count
cls_run = refl

-- `cd` takes a path that does not exist.
cd_run :
    process_command [] at_prompt (b'c' ∷ b'd' ∷ b' ' ∷ b'q' ∷ [])
    ≡ some (record at_prompt { cwd = b'/' ∷ b'q' ∷ [] }, [])
unfolding process_command perform command_named command_in str_eq skip_spaces take_word cd_command
    ls ls_loop emit_all normalize_path trim init
cd_run = refl

-- A name of 32 bytes is written past the end of `pending_username`.
long_name_run : handle_line saved [] at_login mode_login_user (replicate 32 b'a') ≡ none
unfolding handle_line login_user_line
long_name_run = refl
