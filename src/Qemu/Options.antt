-- ===== src/Qemu/Options.antt =====
-- A specification of how a command line is read, by qemu's documented conventions: options with one
-- value but for two, and values of fields between commas, where a doubled comma stands for one.
use cocoon_macos.Base.{
  Bool, true, false, ◌||◌, List, [], ◌∷◌, ◌++◌, Option, none, some, ◌≡◌, refl, sym, ◌∙◌, arith, ap,
  ◌==◌, if◌then◌else◌, Bool-cases, inl, inr, append-nil, append_assoc, all, leb,
}
use cocoon_macos.Text.{Bytes, codes, text_eq, cut_prefix}

-- The fields of a value from `field` on. The flag: the last byte read was a comma.
unfoldable pub fields : Bool → Bytes → Bytes → List Bytes
fields comma field [] = field ∷ []
fields false field (c ∷ v) = fields (c == b',') (if c == b',' then field else field ++ c ∷ []) v
fields true field (c ∷ v) =
    let same = fields false (field ++ c ∷ []) v in
    let next = fields false (c ∷ []) v in if c == b',' then same else field ∷ next

abbrev pub has_no_value : Bytes → Bool
has_no_value flag = text_eq flag (codes "-enable-kvm") || text_eq flag (codes "-no-reboot")

abbrev keep : Bytes → Bytes → Bytes → List Bytes → List Bytes
keep wanted flag v rest = if text_eq flag wanted then v ∷ rest else rest

-- The values of one option, in order. The first argument is an option that waits for its value.
unfoldable pub values : Bytes → Option Bytes → List Bytes → List Bytes
unfolding text_eq
values wanted waiting [] = []
values wanted none (a ∷ more) = values wanted (if has_no_value a then none else some a) more
values wanted (some flag) (a ∷ more) = keep wanted flag a (values wanted none more)

-- A part of a command line that leaves no option waiting.
unfoldable pub is_complete : Option Bytes → List Bytes → Bool
unfolding text_eq
is_complete none [] = true
is_complete (some flag) [] = false
is_complete none (a ∷ more) = is_complete (if has_no_value a then none else some a) more
is_complete (some flag) (a ∷ more) = is_complete none more

keep-append :
    (wanted flag v : Bytes) (xs ys : List Bytes)
    → keep wanted flag v (xs ++ ys) ≡ keep wanted flag v xs ++ ys
keep-append wanted flag v xs ys = elim (Bool-cases (text_eq flag wanted)) [
  | inl same ↦ rw same
  | inr other ↦ rw other
]

pub values-append :
    (wanted : Bytes) (waiting : Option Bytes) (xs ys : List Bytes)
    → is_complete waiting xs ≡ true
    → values wanted waiting (xs ++ ys) ≡ values wanted waiting xs ++ values wanted none ys
unfolding values is_complete
values-append wanted none [] ys h = refl
values-append wanted (some flag) [] ys h = cc
values-append wanted none (a ∷ xs) ys h =
    values-append wanted (if has_no_value a then none else some a) xs ys h
values-append wanted (some flag) (a ∷ xs) ys h =
    ap (keep wanted flag a) (values-append wanted none xs ys h)
    ∙ keep-append wanted flag a (values wanted none xs) (values wanted none ys)

-- the value of the first field `key=value`, for a key that ends in its sign
unfoldable pub lookup_field : Bytes → List Bytes → Option Bytes
unfolding cut_prefix
lookup_field key [] = none
lookup_field key (f ∷ fs) = elim (cut_prefix f key) [ none ↦ lookup_field key fs | some v ↦ some v ]

pub fields_plain :
    (v field rest : Bytes)
    → all (λ c. leb b'-' c) v ≡ true
    → fields false field (v ++ rest) ≡ fields false (field ++ v) rest
unfolding fields
fields_plain [] field rest h = rw append-nil
fields_plain (c ∷ v) field rest h = elim (Bool-cases (c == b',')) [
  | inl comma ↦ absurd (ground arith)
  | inr other ↦
      rw (other, fields) (fields_plain v (field ++ c ∷ []) rest (ground arith) ∙ rw append_assoc)
]

pub fields_plain_end :
    (v field : Bytes) → all (λ c. leb b'-' c) v ≡ true → fields false field v ≡ (field ++ v) ∷ []
unfolding fields
fields_plain_end v field h =
    ap (fields false field) (sym (append-nil v)) ∙ fields_plain v field [] h
