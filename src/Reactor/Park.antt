-- ===== src/Reactor/Park.antt =====
-- tokio-uring-reactor/src/unpark.rs: one parking thread and any number of unparking threads, an
-- atomic access at a time, each as weak as the source asks for. The accesses of `enter` and the load
-- in `unpark` are sequentially consistent. The swap in `unpark` is not: other swaps find what it
-- wrote at once, but the load in `enter` may still read the older value until the step `appear`. The
-- store of `Drop` is relaxed: the load in `unpark` may still read `true` after it. The `Weak` of
-- an `Unpark` upgrades: the `Park` is alive.
pub mod Wakeup
mod Tests
use Prim.Native.Nat.{ℕ}
use rust_io_uring.Prelude.{
  suc, ◌+◌, ◌-◌, ◌<◌, ◌≡◌, ◌⊎◌, Bool, true, false, not, ◌&&◌, if◌then◌else◌, ℕ_discrete,
}
use mathlib.Core.Logic.{ite}

-- `Shared`, with the number of bytes in the pipe behind `write_fd`.
pub record Shared : Type 0 where
  pub pending : Bool
  pub entered : Bool
  pub pipe : ℕ

-- `Park::new`, once the pipe exists.
abbrev pub new : Shared
new = record { pending = false; entered = false; pipe = 0 }

-- `Unpark::unpark`: `pending.swap(true)` with the old value; the rest runs if that was false. When
-- the parking thread sees the new value is a matter of `System`.
unfoldable pub swap_pending : Shared → Shared × Bool
swap_pending s = (record s { pending = true }, s.pending)

-- `Park::enter` in two accesses.
unfoldable pub store_entered : Shared → Shared
store_entered s = record s { entered = true }

unfoldable pub allow_wait : Shared → Bool
allow_wait s = not s.pending

-- `Drop for ParkEntered` in two accesses.
unfoldable pub store_left : Shared → Shared
store_left s = record s { entered = false }

unfoldable pub clear_unpark : Shared → Shared
clear_unpark s = record s { pending = false }

-- `Park::clear_event` reads up to 16 bytes. The reading end blocks while the pipe is empty; the
-- reactor calls it when its poll of the pipe has found it readable, and nobody else reads the pipe.
unfoldable pub clear_event : Shared → Shared
clear_event s = record s { pipe = s.pipe - 16 }

-- Where the parking thread stands. `announced` and `inside` hold whether it wants to wait; inside
-- and wanting to, it is blocked in `io_uring_enter`.
pub data ParkPc : Type 0 where
  outside : ParkPc
  announced : (wait : Bool) → ParkPc
  inside : (wait : Bool) → ParkPc
  withdrawn : ParkPc

-- Where an unparking thread stands in `unpark`.
pub data UnparkPc : Type 0 where
  resting swapped writing : UnparkPc

-- `shared` holds the newest value of `pending`, and `seen` the one that the parking thread reads.
-- `overlooked` says whether the last load in `enter` read an older value than a swap's.
pub record System : Type 0 where
  pub shared : Shared
  pub seen : Bool
  pub overlooked : Bool
  pub park : ParkPc
  pub unpark : ℕ → UnparkPc

abbrev pub update {ℓ} : {A : Type ℓ} → (ℕ → A) → ℕ → A → ℕ → A
update f i a j = ite (ℕ_discrete i j) a (f j)

-- The pipe after a write of one byte to its non-blocking end: one byte more, or, only if it was
-- full, no change.
abbrev pub Written : Shared → Shared → Type 0
Written s t =
    (t.pending ≡ s.pending)
    × (t.entered ≡ s.entered)
    × ((t.pipe ≡ suc s.pipe) ⊎ ((t.pipe ≡ s.pipe) × (0 < s.pipe)))

-- A step of thread `i` in `Unpark::unpark`.
pub data UnparkStep (i : ℕ) (s : System) : System → Type 0 where
  swap :
      s.unpark i ≡ resting
      → UnparkStep i s (record s {
        shared = (swap_pending s.shared).0;
        unpark = update s.unpark i (if (swap_pending s.shared).1 then resting else swapped);
      })
  load :
      (found : Bool)
      → s.unpark i ≡ swapped
      → (s.shared.entered ≡ true → found ≡ true)
      → UnparkStep i s
          (record s { unpark = update s.unpark i (if found then writing else resting) })
  write :
      (t : Shared)
      → s.unpark i ≡ writing
      → Written s.shared t
      → UnparkStep i s (record s { shared = t; unpark = update s.unpark i resting })

-- A step of the parking thread. It leaves `inside` at any time: other events end its wait too. It
-- reads the pipe only outside, when the poll of the pipe has found it readable.
pub data ParkStep (s : System) : System → Type 0 where
  announce :
      (wait : Bool)
      → s.park ≡ outside
      → ParkStep s (record s { shared = store_entered s.shared; park = announced wait })
  decide :
      (wait : Bool)
      → s.park ≡ announced wait
      → ParkStep s (record s {
        park = inside (wait && allow_wait (record s.shared { pending = s.seen }));
        overlooked = s.shared.pending && not s.seen;
      })
  leave :
      (wait : Bool)
      → s.park ≡ inside wait
      → ParkStep s (record s { shared = store_left s.shared; park = withdrawn })
  clear :
      s.park ≡ withdrawn
      → ParkStep s (record s { shared = clear_unpark s.shared; seen = false; park = outside })
  read :
      s.park ≡ outside → 0 < s.shared.pipe → ParkStep s (record s { shared = clear_event s.shared })

pub data Step (s t : System) : Type 0 where
  unparks : (i : ℕ) → UnparkStep i s t → Step s t
  parks : ParkStep s t → Step s t
  appear : t ≡ record s { seen = s.shared.pending } → Step s t

abbrev pub init : System
init = record {
  shared = new;
  seen = false;
  overlooked = false;
  park = outside;
  unpark = λ _. resting;
}

pub data Reach : System → Type 0 where
  start : Reach init
  later : {s t : System} → Reach s → Step s t → Reach t
