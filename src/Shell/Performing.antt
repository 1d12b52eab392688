-- ===== src/Shell/Performing.antt =====
-- kernel/shell.cpp: every command keeps the shell valid.

use quillos.Prelude.{ℕ, ◌≡◌, refl, ◌∙◌, false, Option, none, some, List}
use quillos.Filesystem.Paths.{fs_strcpy}
use quillos.Filesystem.Spec.{mkdir_op, touch_op, rm_op}
use quillos.Shell.Types.{mode_shell, Shell, call_kill, call_read_sector}
use quillos.Shell.Lines.{build_path}
use quillos.Shell.Names.{
  Command, cmd_report, cmd_cls, cmd_color, cmd_pwd, cmd_cd, cmd_ls, cmd_mkdir, cmd_touch, cmd_cat,
  cmd_write, cmd_rm, cmd_heaptest, cmd_spawn, cmd_kill, cmd_readsec, cmd_discover, cmd_rjob,
  cmd_run, cmd_nano, cmd_whoami, cmd_logout, cmd_copy, cmd_copyf, cmd_paste, cmd_pastef, cmd_cut,
  cmd_pasteh, cmd_reboot, cmd_halt,
}
use quillos.Shell.Commands.{read_text}
use quillos.Shell.Editor.{nano_command}
use quillos.Shell.{logout, perform, perform_named, process_command}
use quillos.Shell.Safety.{HasUser, IsValid, Sound, some-Sound, if-Sound, >>=-Sound, fs_strcpy-fits}
use quillos.Shell.Keeping.{
  loaded-fits, shell_init-IsValid, cd_command-Sound, ls_command-Sound, change-Sound,
  cat_command-Sound, write_command-Sound, spawn_command-Sound, with_number-Sound,
  rjob_command-Sound, run_command-Sound, color_command-Sound, copy_command-Sound,
  copyf_command-Sound, paste_command-Sound, pastef_command-Sound, cut_command-Sound,
  pasteh_command-Sound, loaded-Every,
}

module _ {D : Type 0} where
  -- The editor is opened from the shell only, by the user who is signed in there.
  nano_command-Sound :
      (s : Shell D) (arg : List ℕ)
      → IsValid s
      → s.mode ≡ mode_shell
      → Sound IsValid (nano_command s arg)
  unfolding nano_command
  nano_command-Sound s arg v here =
      let user_here : HasUser s.users = v.has_user (rw here refl) in
      let shown_here : s.password_mode ≡ false = v.hides ∙ rw here refl in
      if-Sound _ _ _ (some-Sound v) (
        >>=-Sound (build_path s.cwd arg) _ (λ path e.
          >>=-Sound (fs_strcpy 64 path) _ (λ filename e'.
            >>=-Sound (read_text s path) _ (λ content e''. some-Sound (record {
              line_fits = v.line_fits;
              cwd_fits = v.cwd_fits;
              filename_fits = fs_strcpy-fits 64 path filename e';
              edit_fits = loaded-fits content;
              edit_clean = loaded-Every s path content e'';
              username_fits = v.username_fits;
              password_fits = v.password_fits;
              hides = shown_here;
              has_user = λ _. user_here;
              files = v.files;
              clip = v.clip;
            })))))

  logout-IsValid : (s : Shell D) → IsValid s → IsValid (logout s)
  unfolding logout
  logout-IsValid s v = record {
    line_fits = v.line_fits;
    cwd_fits = v.cwd_fits;
    filename_fits = v.filename_fits;
    edit_fits = v.edit_fits;
    edit_clean = v.edit_clean;
    username_fits = v.username_fits;
    password_fits = v.password_fits;
    hides = refl;
    has_user = λ inside. cc;
    files = v.files;
    clip = v.clip;
  }

  perform-Sound :
      (received : List ℕ) (s : Shell D) (cmd : Command) (arg : List ℕ)
      → IsValid s
      → s.mode ≡ mode_shell
      → Sound IsValid (perform received s cmd arg)
  unfolding perform
  perform-Sound received s cmd_report arg v here = some-Sound v
  perform-Sound received s cmd_cls arg v here = some-Sound (shell_init-IsValid s v)
  perform-Sound received s cmd_color arg v here = color_command-Sound s arg v
  perform-Sound received s cmd_pwd arg v here = some-Sound v
  perform-Sound received s cmd_cd arg v here = cd_command-Sound s arg v
  perform-Sound received s cmd_ls arg v here = ls_command-Sound s arg v
  perform-Sound received s cmd_mkdir arg v here = change-Sound mkdir_op s arg v
  perform-Sound received s cmd_touch arg v here = change-Sound touch_op s arg v
  perform-Sound received s cmd_cat arg v here = cat_command-Sound s arg v
  perform-Sound received s cmd_write arg v here = write_command-Sound s arg v
  perform-Sound received s cmd_rm arg v here = change-Sound rm_op s arg v
  perform-Sound received s cmd_heaptest arg v here = some-Sound v
  perform-Sound received s cmd_spawn arg v here = spawn_command-Sound s arg v
  perform-Sound received s cmd_kill arg v here = with_number-Sound call_kill s arg v
  perform-Sound received s cmd_readsec arg v here = with_number-Sound call_read_sector s arg v
  perform-Sound received s cmd_discover arg v here = some-Sound v
  perform-Sound received s cmd_rjob arg v here = rjob_command-Sound s arg v
  perform-Sound received s cmd_run arg v here = run_command-Sound s arg v
  perform-Sound received s cmd_nano arg v here = nano_command-Sound s arg v here
  perform-Sound received s cmd_whoami arg v here = some-Sound v
  perform-Sound received s cmd_logout arg v here = some-Sound (logout-IsValid s v)
  perform-Sound received s cmd_copy arg v here = copy_command-Sound s arg v
  perform-Sound received s cmd_copyf arg v here = copyf_command-Sound s arg v
  perform-Sound received s cmd_paste arg v here = paste_command-Sound s v
  perform-Sound received s cmd_pastef arg v here = pastef_command-Sound s arg v
  perform-Sound received s cmd_cut arg v here = cut_command-Sound s arg v
  perform-Sound received s cmd_pasteh arg v here = pasteh_command-Sound s received v
  perform-Sound received s cmd_reboot arg v here = some-Sound v
  perform-Sound received s cmd_halt arg v here = some-Sound v

  perform_named-Sound :
      (received : List ℕ) (s : Shell D) (arg : List ℕ) (o : Option Command)
      → IsValid s
      → s.mode ≡ mode_shell
      → Sound IsValid (perform_named received s arg o)
  perform_named-Sound received s arg none v here = some-Sound v
  perform_named-Sound received s arg (some cmd) v here = perform-Sound received s cmd arg v here

  pub process_command-Sound :
      (received : List ℕ) (s : Shell D) (input : List ℕ)
      → IsValid s
      → s.mode ≡ mode_shell
      → Sound IsValid (process_command received s input)
  unfolding process_command
  process_command-Sound received s input v here =
      if-Sound _ _ _ (some-Sound v) (perform_named-Sound received s _ _ v here)
