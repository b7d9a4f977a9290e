-- ===== src/Vm/VncProxy.antt =====
-- cmd/vm/vnc.go: the proxy process in front of a CNI machine's display.
use cocoon_macos.Base.{suc, ◌+◌, ◌-◌, Bool, false, if◌then◌else◌, ℤ, pos, negsuc, leb}
use cocoon_macos.Text.{Bytes, codes}
use cocoon_macos.Fault.{Result, ok, err}
use cocoon_macos.FilePath.{join_path}
use cocoon_macos.Io.{Io, pure, throw, rewrap, ignore, attempt, finally, ask, ◌>>=◌, ◌>>◌}
use cocoon_macos.Vm.Host.{Host}

abbrev pub vnc_sock_path : Bytes → Bytes
vnc_sock_path dir = join_path dir (codes "vnc.sock")

abbrev pub vnc_proxy_pid_path : Bytes → Bytes
vnc_proxy_pid_path dir = join_path dir (codes "vnc-proxy.pid")

-- `vncBasePort+disp`
unfoldable pub vnc_port : ℤ → ℤ
vnc_port (pos n) = pos (5900 + n)
vnc_port (negsuc n) = if leb (suc n) 5900 then pos (5900 - suc n) else negsuc (n - 5900)

module _ (host : Host) where
  open host use {
    World, verify_process, read_pid_file, terminate_process, remove, wait_for, is_socket, listen,
    close_listener, start_proxy, write_pid_file, kill, proxy_binary_name,
  }

  unfoldable pub kill_proxy : Bytes → Result ℤ → Io World (Unit {0})
  kill_proxy dir (ok pid) = ignore (terminate_process pid proxy_binary_name (vnc_sock_path dir) 0)
  kill_proxy dir (err e) = pure tt

  -- `stopVNCProxy`
  unfoldable pub stop_vnc_proxy : Bytes → Io World (Unit {0})
  unfolding kill_proxy
  stop_vnc_proxy dir = do
    pid ← attempt (read_pid_file (vnc_proxy_pid_path dir))
    kill_proxy dir pid
    ignore (remove (vnc_proxy_pid_path dir))

  proxy_lives : Bytes → Result ℤ → Io World Bool
  proxy_lives dir (ok pid) = ask (verify_process pid proxy_binary_name (vnc_sock_path dir))
  proxy_lives dir (err e) = pure false

  -- `vncProxyRunning`
  unfoldable pub vnc_proxy_running : Bytes → Io World Bool
  unfolding proxy_lives
  vnc_proxy_running dir = do
    pid ← attempt (read_pid_file (vnc_proxy_pid_path dir))
    proxy_lives dir pid

  keep_or_kill : ℤ → Result (Unit {0}) → Io World (Unit {0})
  keep_or_kill pid (ok u) = pure tt
  keep_or_kill pid (err e) = do ignore (kill pid); throw e

  -- what `startVNCProxy` does on the bound port
  spawn_proxy : Bytes → Io World (Unit {0})
  unfolding keep_or_kill
  spawn_proxy dir = do
    pid ← start_proxy (vnc_sock_path dir)
    written ← attempt (write_pid_file (vnc_proxy_pid_path dir) pid)
    keep_or_kill pid written

  -- `startVNCProxy`
  unfoldable pub start_vnc_proxy : Bytes → ℤ → Io World (Unit {0})
  unfolding stop_vnc_proxy spawn_proxy
  start_vnc_proxy dir disp = do
    stop_vnc_proxy dir
    rewrap "vnc socket %s not created by qemu: %w" (wait_for 5000 (is_socket (vnc_sock_path dir)))
    rewrap "bind vnc port: %w" (listen (vnc_port disp))
    finally (spawn_proxy dir) (close_listener (vnc_port disp))
