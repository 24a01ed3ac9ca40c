-- ===== src/Reactor/Registration.antt =====
-- tokio-uring-reactor/src/registration.rs: the cell that a future shares with the completion of its
-- operation. A task or waker is a number; `futures::task::current()` is an argument. The boxed
-- `dyn Any` is a value of the type that `Registration::new` put in, which is the type that every
-- downcast asks for. The methods for tasks take the new `CompatWaker`; Wakers has those for wakers.
pub mod Once
pub mod Stream
pub mod Wakers
mod Tests
use rust_io_uring.Prelude.{
  ℕ, ◌+◌, ◌-◌, ℤ, pos, Bool, true, false, not, ◌&&◌, List, [], ◌∷◌, Option, none, some, ◌==◌,
  if◌then◌else◌, bit_and, Outcome, returned, panicked,
}

pub data CompatWaker : Type 0 where
  empty : CompatWaker
  old : ℕ → CompatWaker
  new_waker : ℕ → CompatWaker

-- `CompatWaker::notify` puts `Empty` in place and wakes what was there.
unfoldable pub wake : CompatWaker → CompatWaker × List CompatWaker
wake empty = (empty, [])
wake (old t) = (empty, old t ∷ [])
wake (new_waker w) = (empty, new_waker w ∷ [])

pub record UringResult : Type 0 where
  pub result : ℤ
  pub flags : ℕ

pub record Inner {ℓ} (T : Type ℓ) : Type ℓ where
  pub result : UringResult
  pub finished : Bool
  pub waker : CompatWaker
  pub payload : Option T

pub data Async {ℓ} (A : Type ℓ) : Type ℓ where
  ready : A → Async A
  not_ready : Async A

module _ {ℓ} {T : Type ℓ} where
  -- `Registration::new`
  unfoldable pub new : T → Inner T
  new d = record {
    result = record { result = pos 0; flags = 0 };
    finished = false;
    waker = empty;
    payload = some d;
  }

  -- `track`
  unfoldable pub track : CompatWaker → Inner T → Inner T
  track w i = record i { waker = w }

  -- `RawRegistration::notify`, with what it wakes.
  unfoldable pub notify : UringResult → Inner T → Outcome (Inner T × List CompatWaker)
  unfolding wake
  notify r i =
      if not i.finished
      then (let (w, woken) = wake i.waker in
          returned (record i { finished = true; result = r; waker = w }, woken))
      else panicked

  -- `poll`
  unfoldable pub poll : CompatWaker → Inner T → Inner T × Async (UringResult × T)
  unfolding track
  poll w i = elim i.payload [
    | none ↦ (i, not_ready)
    | some d ↦
        if i.finished
        then (record i { payload = none }, ready (i.result, d))
        else (track w i, not_ready)
  ]

  -- `poll_stream_and_reset`
  unfoldable pub poll_stream_and_reset : CompatWaker → Inner T → Inner T × Async UringResult
  unfolding track
  poll_stream_and_reset w i =
      if i.finished then (record i { finished = false }, ready i.result) else (track w i, not_ready)

-- The `Rc` around the cell: its contents and how many owners it has.
pub record Shared {ℓ} (T : Type ℓ) : Type ℓ where
  pub inner : Inner T
  pub strong : ℕ

module _ {ℓ} {T : Type ℓ} where
  -- `Registration::new`: one owner.
  unfoldable pub share : T → Shared T
  unfolding new
  share d = record { inner = new d; strong = 1 }

  -- `to_raw`: a second owner.
  unfoldable pub to_raw : Shared T → Shared T
  to_raw s = record s { strong = s.strong + 1 }

  -- The drop of a `RawRegistration`.
  unfoldable pub drop_raw : Shared T → Shared T
  drop_raw s = record s { strong = s.strong - 1 }

  -- `abort`: `Rc::try_unwrap` succeeds for a single owner only.
  unfoldable pub abort : Shared T → Outcome (Option T)
  abort s =
      if s.strong == 1
      then elim s.inner.payload [ none ↦ panicked | some d ↦ returned (some d) ]
      else returned none

-- `into_user_data` and `user_data`, of the address of the cell.
unfoldable pub into_user_data : ℕ → Outcome ℕ
into_user_data address =
    if not (address == 0) && (bit_and address 1 == 0) then returned address else panicked
