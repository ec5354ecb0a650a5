-- ===== src/Addon/Invoke.antt =====
-- addon.c: `fcitx_addon_manager_invoke`, up to the call through libffi.
pub mod Types
use fcitx_ng.Prelude.{
  ℕ, zero, suc, ◌+◌, ◌-◌, ◌≤◌, ◌<◌, ◌≡◌, ◌≢◌, ◌⊎◌, inl, inr, refl, sym, ap, ◌∙◌, Bool, true, false,
  not, ◌&&◌, ◌||◌, Option, none, some, List, [], ◌∷◌, ◌++◌, leb, ltb, ◌==◌, ==_iff, if◌then◌else◌,
  length, get_elem?, get_elem?_bound, set, length-set, get_elem?-set_self, get_elem?-set_ne,
  replicate, length-replicate, arith, Bool-cases, Option-cases, elem, subst,
}
use fcitx_ng.Strings.{Text, strchr}
use fcitx_ng.Addon.{Addon, AddonManager, AddonFunctionEntry, Functions, find_addon, lookup}

-- `FCITX_ADDON_FUNCTION_MAX_ARG`.
abbrev pub max_arg : ℕ
max_arg = 20

-- The `ffi_type_*` of libffi that are used.
pub data FfiType : Type 0 where
  ffi_pointer : FfiType
  ffi_sint8 : FfiType
  ffi_sint16 : FfiType
  ffi_sint32 : FfiType
  ffi_sint64 : FfiType
  ffi_uint8 : FfiType
  ffi_uint16 : FfiType
  ffi_uint32 : FfiType
  ffi_uint64 : FfiType
  ffi_float : FfiType
  ffi_double : FfiType
  ffi_void : FfiType

-- `fcitx_arg_to_ffi_args`: what `*ffitype` is set to, `none` when it is left as it was.
unfoldable pub arg_to_ffi_args : ℕ → Option FfiType
arg_to_ffi_args c =
    if c == 97
    then some ffi_pointer
    else if c == 121
    then some ffi_sint8
    else if c == 110
    then some ffi_sint16
    else if c == 105
    then some ffi_sint32
    else if c == 120
    then some ffi_sint64
    else if c == 122
    then some ffi_uint8
    else if c == 113
    then some ffi_uint16
    else if c == 117
    then some ffi_uint32
    else if c == 116
    then some ffi_uint64
    else if c == 102
    then some ffi_float
    else if c == 100
    then some ffi_double
    else if c == 118
    then some ffi_void
    else none

-- "aynixzqutfdv".
abbrev pub signature_chars : Text
signature_chars = 97 ∷ 121 ∷ 110 ∷ 105 ∷ 120 ∷ 122 ∷ 113 ∷ 117 ∷ 116 ∷ 102 ∷ 100 ∷ 118 ∷ []

-- The loop that validates the signature, from its character `i` on.
unfoldable pub valid_from : ℕ → Text → Bool
valid_from i [] = true
valid_from i (c ∷ signature) =
    let rest = valid_from (i + 1) signature in
    if c == 118 && not (i == 0)
    then false
    else if not (strchr signature_chars c)
    then false
    else rest

abbrev pub valid_signature : Text → Bool
valid_signature signature =
    not (length signature == 0 || ltb (max_arg + 1) (length signature)) && valid_from 0 signature

-- The loop over the arguments, from the character `i` on, into `ffi_types`.
unfoldable pub set_types : ℕ → Text → List (Option FfiType) → List (Option FfiType)
unfolding arg_to_ffi_args
set_types i [] types = types
set_types i (c ∷ signature) types = set_types (i + 1) signature (set types i (arg_to_ffi_args c))

-- What is handed to `ffi_prep_cif` and `ffi_call`; `ffi_types` is the array, with `none` where it is not set.
pub record FfiCall : Type 0 where
  pub nargs : ℕ
  pub ffi_rettype : Option FfiType
  pub ffi_types : List (Option FfiType)

unfoldable pub prepare_call : Text → Option FfiCall
unfolding set_types
prepare_call [] = none
prepare_call (c ∷ signature) = some (record {
  nargs = length (c ∷ signature);
  ffi_rettype = arg_to_ffi_args c;
  ffi_types = set (set_types 1 signature (replicate (max_arg + 1) none)) 0 (some ffi_pointer);
})

abbrev pub invoke_entry : Option AddonFunctionEntry → Option FfiCall
invoke_entry none = none
invoke_entry (some entry) =
    if entry.function && valid_signature entry.signature then prepare_call entry.signature else none

abbrev pub invoke_functions : Option Functions → Text → Option FfiCall
invoke_functions none function_name = none
invoke_functions (some functions) function_name = invoke_entry (lookup function_name functions)

abbrev pub invoke_addon : Option ℕ → Text → AddonManager → Option FfiCall
invoke_addon none function_name m = none
invoke_addon (some p) function_name m = invoke_functions (m.store p).inst.functions function_name

-- `fcitx_addon_manager_invoke`: the call that is prepared, if there is one.
unfoldable pub manager_invoke : Text → Text → AddonManager → Option FfiCall
unfolding prepare_call
manager_invoke addon_name function_name m =
    invoke_addon (find_addon addon_name m.store m.addons) function_name m

-- A call that is well formed: the array is long enough, and holds a type of a value for every argument.
pub record IsWellFormed (call : FfiCall) : Type 0 where
  pub room : call.nargs ≤ length call.ffi_types
  pub limit : length call.ffi_types ≡ max_arg + 1
  pub returns : (t : FfiType) × (call.ffi_rettype ≡ some t)
  pub self : get_elem? call.ffi_types 0 ≡ some (some ffi_pointer)
  pub arguments :
      (i : ℕ)
      → i < call.nargs
      → (t : FfiType) × ((get_elem? call.ffi_types i ≡ some (some t)) × (t ≢ ffi_void))
