-- ===== src/Vm/VncPipe.antt =====
-- cmd/vm/vnc.go: the proxy process, which pipes each connection to qemu's socket.
use cocoon_macos.Base.{List, [], ◌∷◌}
use cocoon_macos.Fault.{Error, Result, ok, err, wrap}
use cocoon_macos.Io.{Io, throw, attempt, pure, finally, ◌>>◌, ◌>>=◌}

-- `pipeVNC` of an accepted connection, by `net.Dial` of qemu's socket, by the closing of a connection,
-- and by the wait on `done`: the first of the two goroutines that copy with `io.Copy` has ended, and
-- the other one may still run while the connections are closed, qemu's first.
module _ {W C : Type 0} (dial : Io W C) (close : C → Io W (Unit {0}))
    (copy_until_done : C → C → Io W (Unit {0})) where
  pipe_dialed : C → Result C → Io W (Unit {0})
  pipe_dialed client (err e) = pure tt
  pipe_dialed client (ok backend) = finally (copy_until_done client backend) (close backend)

  unfoldable pub pipe_vnc : C → Io W (Unit {0})
  unfolding pipe_dialed
  pipe_vnc client = finally (attempt dial >>= pipe_dialed client) (close client)

module _ {W C : Type 0} (start_pipe : C → Io W (Unit {0})) (close : Io W (Unit {0})) where
  -- the loop of `runVNCProxy`, by the connections that it accepts and the error that ends it;
  -- `start_pipe` starts the goroutine of a connection
  unfoldable pub serve : List C → Error → Io W (Unit {0})
  serve [] e = throw e
  serve (client ∷ clients) e = start_pipe client >> serve clients e

  -- `runVNCProxy`, by the listener that it inherits
  unfoldable pub run_vnc_proxy : Result (List C × Error) → Io W (Unit {0})
  run_vnc_proxy (err e) = throw (wrap "inherit vnc listener: %w" e)
  run_vnc_proxy (ok (clients, e)) = finally (serve clients e) close
