-- ===== src/Addon/Invoke/Types.antt =====
-- addon.c: the argument types of a function that `fcitx_addon_manager_invoke` calls.
use fcitx_ng.Prelude.{
  ℕ, ◌+◌, ◌≤◌, ◌<◌, ◌≡◌, ◌≢◌, inl, inr, refl, sym, ap, ◌∙◌, true, false, Option, none, some, List,
  [], ◌∷◌, ◌==◌, ==_iff, length, get_elem?, set, length-set, get_elem?-set_self, get_elem?-set_ne,
  replicate, arith, Bool-cases, Option-cases, subst,
}
use fcitx_ng.Strings.{Text, strchr}
use fcitx_ng.Addon.{AddonManager, find_addon, lookup}
use fcitx_ng.Addon.Invoke.{
  max_arg, FfiType, ffi_pointer, ffi_void, arg_to_ffi_args, signature_chars, valid_from,
  valid_signature, set_types, FfiCall, prepare_call, manager_invoke, IsWellFormed,
}

char_type : (c : ℕ) → strchr signature_chars c ≡ true → (t : FfiType) × (arg_to_ffi_args c ≡ some t)
unfolding arg_to_ffi_args strchr
char_type c h = elim (Option-cases (arg_to_ffi_args c)) [
  | inl e ↦ absurd (ground (arith, h, e))
  | inr e ↦ e
]

value_type : (c : ℕ) → (c == 118) ≡ false → arg_to_ffi_args c ≢ some ffi_void
unfolding arg_to_ffi_args
value_type c h e = absurd (ground (arith, h, e))

-- The characters behind the first one.
valid_rest :
    (i c : ℕ) (signature : Text)
    → valid_from i (c ∷ signature) ≡ true
    → (strchr signature_chars c ≡ true)
      × ((valid_from (i + 1) signature ≡ true) × (0 < i → (c == 118) ≡ false))
unfolding valid_from
valid_rest i c signature h = (ground (arith, h), (ground (arith, h), λ k. ground (arith, h, k)))

-- Every element from `i` to the end of the signature is set to the type of a value.
set_types-size :
    (i : ℕ) (signature : Text) (types : List (Option FfiType))
    → length (set_types i signature types) ≡ length types
unfolding set_types
set_types-size i [] types = refl
set_types-size i (c ∷ signature) types =
    set_types-size (i + 1) signature (set types i (arg_to_ffi_args c))
    ∙ length-set types i (arg_to_ffi_args c)

set_types-below :
    (i j : ℕ) (signature : Text) (types : List (Option FfiType))
    → j < i
    → get_elem? (set_types i signature types) j ≡ get_elem? types j
unfolding set_types
set_types-below i j [] types h = refl
set_types-below i j (c ∷ signature) types h =
    set_types-below (i + 1) j signature (set types i (arg_to_ffi_args c)) (omega arith)
    ∙ get_elem?-set_ne types (arg_to_ffi_args c) (λ e. absurd (omega (arith, h, e)))

abbrev IsValue : Option (Option FfiType) → Type 0
IsValue element = (t : FfiType) × ((element ≡ some (some t)) × (t ≢ ffi_void))

set_types-value :
    (i j : ℕ) (signature : Text) (types : List (Option FfiType))
    → 0 < i
    → valid_from i signature ≡ true
    → i ≤ j
    → j < i + length signature
    → i + length signature ≤ length types
    → IsValue (get_elem? (set_types i signature types) j)
unfolding set_types
set_types-value i j [] types some_arg valid low high room = absurd (omega arith)
set_types-value i j (c ∷ signature) types some_arg valid low high room =
    let v = valid_rest i c signature valid in
    let next = set types i (arg_to_ffi_args c) in
    let same = length-set types i (arg_to_ffi_args c) in
    elim (Bool-cases (i == j)) [
      | inl e ↦
          let is : i ≡ j = ground (arith, ==_iff i j, e) in
          let t = char_type c v.0 in
          let at = set_types-below (i + 1) j signature next (omega arith) in
          let here = get_elem?-set_self types i (arg_to_ffi_args c) (omega arith) in
          (
            t.0,
            (
              at
                  ∙ ap (λ (k : ℕ). get_elem? next k) (sym is)
                  ∙ here
                  ∙ ap (λ (o : Option FfiType). some o) t.1,
              λ e. value_type c (v.1.1 some_arg) (t.1 ∙ ap (λ (u : FfiType). some u) e),
            ),
          )
      | inr e ↦
          set_types-value (i + 1) j signature next (omega arith) v.1.0
            (ground (arith, ==_iff i j, e)) (omega arith) (omega (arith, same))
    ]

prepare_call-IsWellFormed :
    (signature : Text) (call : FfiCall)
    → valid_signature signature ≡ true
    → prepare_call signature ≡ some call
    → IsWellFormed call × (call.nargs ≡ length signature)
unfolding prepare_call
prepare_call-IsWellFormed [] call v e = absurd (ground arith)
prepare_call-IsWellFormed (c ∷ signature) call v e =
    let types = set_types 1 signature (replicate (max_arg + 1) none) in
    let made : FfiCall = record {
      nargs = length (c ∷ signature);
      ffi_rettype = arg_to_ffi_args c;
      ffi_types = set types 0 (some ffi_pointer);
    } in
    let is : made ≡ call = ground (arith, e) in
    let few : length (c ∷ signature) ≤ max_arg + 1 = ground (arith, v) in
    let size : length types ≡ max_arg + 1 =
      set_types-size 1 signature (replicate (max_arg + 1) none) in
    let whole : length (set types 0 (some ffi_pointer)) ≡ max_arg + 1 =
      length-set types 0 (some ffi_pointer) ∙ size in
    let r = valid_rest 0 c signature (ground (arith, v)) in
    let self = get_elem?-set_self types 0 (some ffi_pointer) (omega (arith, size)) in
    subst (λ (k : FfiCall). IsWellFormed k × (k.nargs ≡ length (c ∷ signature))) is
      (
        record {
          room = omega (arith, few, whole);
          limit = whole;
          returns = char_type c r.0;
          self = self;
          arguments = λ i h. elim (Bool-cases (0 == i)) [
            | inl f ↦
                let zero_is : 0 ≡ i = ground (arith, ==_iff 0 i, f) in
                (
                  ffi_pointer,
                  (
                    ap (λ (k : ℕ). get_elem? (set types 0 (some ffi_pointer)) k) (sym zero_is)
                        ∙ self,
                    λ g. absurd (ground (arith, g)),
                  ),
                )
            | inr f ↦
                let behind : 1 ≤ i = ground (arith, ==_iff 0 i, f) in
                let value =
                  set_types-value 1 i signature (replicate (max_arg + 1) none) (omega arith) r.1.0
                    behind (omega (arith, h)) (omega (arith, few)) in
                let apart =
                  get_elem?-set_ne types (some ffi_pointer)
                    (λ z. absurd (omega (arith, behind, z))) in
                (value.0, (apart ∙ value.1.0, value.1.1))
          ];
        },
        refl,
      )

-- A call that is prepared for libffi has at most as many arguments as the array of types has
-- elements, a return type, the pointer to the addon first, and for every other argument a type
-- that is set and is not void.
pub manager_invoke-IsWellFormed :
    (addon_name function_name : Text) (m : AddonManager) (call : FfiCall)
    → manager_invoke addon_name function_name m ≡ some call
    → IsWellFormed call
unfolding manager_invoke
manager_invoke-IsWellFormed addon_name function_name m call e =
    elim (Option-cases (find_addon addon_name m.store m.addons)) [
      | inl f ↦ absurd (ground (arith, e, f))
      | inr (p, f) ↦ elim (Option-cases ((m.store p).inst.functions)) [
        | inl g ↦ absurd (ground (arith, e, f, g))
        | inr (functions, g) ↦ elim (Option-cases (lookup function_name functions)) [
          | inl h ↦ absurd (ground (arith, e, f, g, h))
          | inr (entry, h) ↦
              (prepare_call-IsWellFormed entry.signature call (ground (arith, e, f, g, h))
                (ground (arith, e, f, g, h))).0
        ]
      ]
    ]
