-- ===== src/Vm/Host/Frame.antt =====
-- A view of the host that every call leaves alone but `remove_all` and `run_qemu_img`: what is in
-- the machines' directories, or inside their images.
use cocoon_macos.Base.{ℕ, Bool, List, ℤ}
use cocoon_macos.Text.{Bytes}
use cocoon_macos.Io.Keeps.{Keeps}
use cocoon_macos.Vm.Record.{VmRecord}
use cocoon_macos.Vm.Host.{Host, Provider}

pub record Frame (host : Host) (V : Type 0) (view : host.World → V) : Type 0 where
  pub keeps_read_json : (p : Bytes) → Keeps view (host.read_json p)
  pub keeps_write_json : (p : Bytes) (r : VmRecord) → Keeps view (host.write_json p r)
  pub keeps_stat : (p : Bytes) → Keeps view (host.stat p)
  pub keeps_remove : (p : Bytes) → Keeps view (host.remove p)
  pub keeps_ensure_dirs : (p : Bytes) → Keeps view (host.ensure_dirs p)
  pub keeps_touch : (p : Bytes) → Keeps view (host.touch p)
  pub keeps_write_file : (p b : Bytes) → Keeps view (host.write_file p b)
  pub keeps_lock : (p : Bytes) → Keeps view (host.lock p)
  pub keeps_unlock : (p : Bytes) → Keeps view (host.unlock p)
  pub keeps_image_snapshots : (p : Bytes) → Keeps view (host.image_snapshots p)
  pub keeps_find_vmm : (b p : Bytes) → Keeps view (host.find_vmm b p)
  pub keeps_terminate_process :
      (pid : ℤ) (b p : Bytes) (grace : ℕ) → Keeps view (host.terminate_process pid b p grace)
  pub keeps_read_pid_file : (p : Bytes) → Keeps view (host.read_pid_file p)
  pub keeps_write_pid_file : (p : Bytes) (pid : ℤ) → Keeps view (host.write_pid_file p pid)
  pub keeps_wait_for : (limit : ℕ) (f : host.World → Bool) → Keeps view (host.wait_for limit f)
  pub keeps_run_command : (c : Bytes) (args : List Bytes) → Keeps view (host.run_command c args)
  pub keeps_dial_monitor : (p : Bytes) → Keeps view (host.dial_monitor p)
  pub keeps_send_line : (p line : Bytes) → Keeps view (host.send_line p line)
  pub keeps_close_monitor : (p : Bytes) → Keeps view (host.close_monitor p)
  pub keeps_open_provider : (p : Provider) → Keeps view (host.open_provider p)
  pub keeps_prepare : (p : Provider) (id : Bytes) → Keeps view (host.prepare p id)
  pub keeps_add : (p : Provider) (id : Bytes) → Keeps view (host.add p id)
  pub keeps_delete : (p : Provider) (id : Bytes) → Keeps view (host.delete p id)
  pub keeps_quiesce : (p : Provider) (id : Bytes) → Keeps view (host.quiesce p id)
  pub keeps_unquiesce : (p : Provider) (id : Bytes) → Keeps view (host.unquiesce p id)
  pub keeps_cleanup_taps : (id : Bytes) → Keeps view (host.cleanup_taps id)
