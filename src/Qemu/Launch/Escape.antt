-- ===== src/Qemu/Launch/Escape.antt =====
-- `escapeOptValue`: whatever bytes a path holds, qemu reads the path back as one field.
use cocoon_macos.Base.{
  false, [], ◌∷◌, ◌++◌, ◌≡◌, ap, sym, ◌∙◌, ◌==◌, Bool-cases, ==_iff, inl, inr, append-nil,
  append_assoc,
}
use cocoon_macos.Text.{Bytes}
use cocoon_macos.Qemu.Launch.{escape_opt_value}
use cocoon_macos.Qemu.Options.{fields}

-- An escaped value goes on with the field that it stands in, up to what follows it.
pub fields-escape_opt_value :
    (v field rest : Bytes)
    → fields false field (escape_opt_value v ++ rest) ≡ fields false (field ++ v) rest
unfolding escape_opt_value fields
fields-escape_opt_value [] field rest = rw append-nil
fields-escape_opt_value (c ∷ v) field rest = elim (Bool-cases (c == b',')) [
  | inl comma ↦
      rw ((==_iff c b',').0 comma)
        (fields-escape_opt_value v (field ++ b',' ∷ []) rest ∙ rw append_assoc)
  | inr other ↦
      rw other
        (rw (other, fields) (fields-escape_opt_value v (field ++ c ∷ []) rest ∙ rw append_assoc))
]

pub fields-escape_opt_value_end :
    (v field : Bytes) → fields false field (escape_opt_value v) ≡ (field ++ v) ∷ []
unfolding escape_opt_value fields
fields-escape_opt_value_end v field =
    ap (fields false field) (sym (append-nil (escape_opt_value v)))
    ∙ fields-escape_opt_value v field []
