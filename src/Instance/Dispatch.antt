-- ===== src/Instance/Dispatch.antt =====
-- instance.c and event.h: the mask of the dispatch and the flags of the types.
use fcitx_ng.Prelude.{ℕ, ◌/◌, ◌%◌, ◌^◌, ◌≡◌, ◌<◌, refl, bit_and, false, some, arith}
use fcitx_ng.Prelude.Bits.{shl, bit_and-shl}
use fcitx_ng.Instance.{
  Environment, DispatchedEvent, DispatchState, event_type_flag, has_flag, event_dispatch,
}

-- The mask keeps the bits from 16 on, and a flag below 2 ^ 16 that is not 0 is none of those.
has_flag-low :
    (flag : ℕ) (event : DispatchedEvent) → 0 < flag → flag < 2 ^ 16 → has_flag flag event ≡ false
has_flag-low flag event some_bit low =
    let t = event.event_type in
    let masked : bit_and t event_type_flag ≡ shl (bit_and (t / 2 ^ 16) 0xffff) 16 =
      bit_and-shl 16 t (t / 2 ^ 16) (t % 2 ^ 16) 0xffff (omega arith) (omega arith) in
    ground (arith, masked, some_bit, low)

-- Whatever the type of an event is, key events and those of input methods and of their manager
-- included, the dispatch returns false, calls no frontend and no hotkey, and leaves the state of
-- the context and the groups as they are: none of its tests of the type holds.
pub event_dispatch-unhandled :
    (env : Environment) (event : DispatchedEvent) (s : DispatchState)
    → event_dispatch env event s ≡ some (false, s)
unfolding event_dispatch
event_dispatch-unhandled env event s = rw (has_flag-low 0x1000 event (omega arith) (omega arith)) (
    rw (has_flag-low 0x2000 event (omega arith) (omega arith))
      (rw (has_flag-low 0x4000 event (omega arith) (omega arith)) refl))
