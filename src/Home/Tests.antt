-- ===== src/Home/Tests.antt =====
-- Examples: the state root of a command.
use cocoon_macos.Base.{true, [], ◌∷◌, ◌≡◌, refl}
use cocoon_macos.Text.{Bytes, codes, is_set}
use cocoon_macos.Fault.{Result, ok}
use cocoon_macos.Home.{TextFlags, dir, resolve_paths}
use cocoon_macos.Home.Fixed.{resolve_paths-dir}

-- an absolute path, of a command that runs in the directory /srv
abbrev absolute : Bytes → Result Bytes
absolute [] = ok (codes "/srv")
absolute (c ∷ path) = ok (c ∷ path)

absolute-is_set : (path p : Bytes) → absolute path ≡ ok p → is_set p ≡ true
absolute-is_set [] [] h = cc
absolute-is_set (c ∷ path) [] h = cc
absolute-is_set _ (c ∷ p) h = refl

abbrev given : TextFlags
given = (codes "state-dir", []) ∷ (codes "cni-bin-dir", codes "/opt/cni") ∷ []

abbrev fixed : TextFlags
fixed = (codes "state-dir", codes "/data") ∷ (codes "cni-bin-dir", codes "/opt/cni") ∷ []

resolves : resolve_paths absolute (codes "/data") given ≡ ok fixed
unfolding resolve_paths cocoon_macos.Home.resolve_path dir cocoon_macos.Home.flag_text
    cocoon_macos.Home.flag cocoon_macos.Text.text_eq cocoon_macos.Home.set_path
    cocoon_macos.Home.resolve_if_set cocoon_macos.Home.set_flag
resolves = refl

resolve_paths-dir_example :
    (p : Bytes) × (absolute (dir (codes "/data") given) ≡ ok p) × (dir (codes "/other") fixed ≡ p)
resolve_paths-dir_example =
    resolve_paths-dir absolute (codes "/data") (codes "/other") given {after = fixed}
      absolute-is_set resolves
