-- ===== src/Vm/Vnc.antt =====
-- cmd/vm/vnc.go: the password of the display, and the proxy in front of a CNI machine's display.
pub mod Token
use cocoon_macos.Base.{
  ℕ, ◌+◌, Bool, true, false, not, ◌&&◌, ◌||◌, List, [], ◌∷◌, ◌++◌, if◌then◌else◌, ℤ, pos, negsuc,
  ltb, ltb_ℤ, length,
}
use cocoon_macos.Text.{Bytes, codes, is_set}
use cocoon_macos.Text.Space.{has_unsafe_rune}
use cocoon_macos.Fault.{Result, ok, err, fault, reject_if, ◌>>◌, ◌>>=◌}
use cocoon_macos.FilePath.{join_path}
use cocoon_macos.Vm.Host.{Host}

-- `validateVNCPassword`
unfoldable pub validate_vnc_password : Bytes → Result (Unit {0})
validate_vnc_password pw = do
  reject_if (ltb 8 (length pw)) "--vnc-password must be at most 8 bytes, got %d"
  reject_if (has_unsafe_rune pw)
      "--vnc-password must not contain whitespace, control characters or double quotes"

-- `requireCNIVNCPassword`
unfoldable pub require_cni_vnc_password : Bool → ℤ → Bytes → Result (Unit {0})
unfolding validate_vnc_password
require_cni_vnc_password is_cni vnc_disp vnc_pass =
    if is_cni && not (ltb_ℤ vnc_disp (pos 0)) && not (is_set vnc_pass)
    then err (
        fault
          "--vnc with --net cni serves VNC on a host port reachable off-box; --vnc-password is required")
    else validate_vnc_password vnc_pass
