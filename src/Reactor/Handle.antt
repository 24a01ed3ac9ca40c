-- ===== src/Reactor/Handle.antt =====
-- tokio-uring-reactor/src/reactor.rs: `Reactor`, its trait `Park`, and `Handle`. `m` is the memory of
-- the `Rc`s: what lies at an address while its `Reactor` lives. An `InnerMut` lives within one call
-- only. lib.rs: `with_default`.
use rust_io_uring.Prelude.{
  ℕ, ℤ, Bool, Option, none, some, Result, ok, err, Outcome, returned, undefined, ◌>>=◌, ℕ_discrete,
}
use mathlib.Core.Logic.{ite}
use rust_io_uring.Sys.Fill.{Slice}
use rust_io_uring.Reactor.Queue.{Inner, IoError, reactor_dead}
use rust_io_uring.Reactor.Turn
use rust_io_uring.Reactor.Transfer.{Context, State, start_read, start_write}
use rust_io_uring.Reactor.Readiness
use rust_io_uring.Reactor.Readiness.{AsyncPoll}

-- The address of the shared `Inner`, owned and not.
pub record Reactor : Type 0 where
  pub inner : ℕ

pub record Handle : Type 0 where
  pub weak : ℕ

abbrev pub Memory : Type 0 → Type 0
Memory D = ℕ → Option (Inner D)

unfoldable pub handle : Reactor → Handle
handle r = record { weak = r.inner }

module _ {D : Type 0} where
  abbrev pub place : Memory D → ℕ → Option (Inner D) → Memory D
  place m a i b = ite (ℕ_discrete a b) i (m b)

  -- `Handle::inner_mut`
  unfoldable pub inner_mut : Handle → Memory D → Result IoError (Inner D)
  inner_mut h m = elim (m h.weak) [ none ↦ err reactor_dead | some i ↦ ok i ]

  -- A call on the `Inner` of a reactor, which writes back what it leaves.
  unfoldable pub on_inner :
      {A : Type 0} → Reactor → (Inner D → Outcome (Inner D × A)) → Memory D → Outcome (Memory D × A)
  on_inner r f m = elim (m r.inner) [
    | none ↦ undefined
    | some i ↦ (do p ← f i; returned (place m r.inner (some p.0), p.1))
  ]

  module _ (enter : ℕ → ℕ → ℕ → Inner D → Inner D × Result IoError ℕ) where
    -- `Park::park` and `Park::park_timeout` of `Reactor`
    unfoldable pub park :
        Bool → ℕ → Reactor → Memory D → Outcome (Memory D × Result IoError (Unit {0}))
    unfolding on_inner
    park checks fuel r m = on_inner r (Turn.park enter checks fuel) m

    unfoldable pub park_timeout :
        Bool → ℕ → ℕ → Reactor → Memory D → Outcome (Memory D × Result IoError (Unit {0}))
    unfolding on_inner
    park_timeout checks fuel duration r m =
        on_inner r (Turn.park_timeout enter checks fuel duration) m

module _ {T F : Type 0} (as_raw_fd : F → ℤ) (bytes : T → Slice) where
  -- The memory after `AsyncRead::new` or `AsyncWrite::new` on what a handle upgrades to.
  abbrev written :
      Handle
      → Memory (Context T F)
      → Option (Inner (Context T F)) × State T F
      → Memory (Context T F) × State T F
  written h m p = (place m h.weak p.0, p.1)

  -- `Handle::async_read` and `Handle::async_write`, with a registration at `address` and its iovec at
  -- `vec`.
  unfoldable pub async_read :
      Handle → ℕ → ℕ → F → ℕ → T → Memory (Context T F) → Outcome (Memory (Context T F) × State T F)
  async_read h address vec file offset buffer m = do
    p ← start_read as_raw_fd bytes (m h.weak) address vec file offset buffer
    returned (written h m p)

  unfoldable pub async_write :
      Handle → ℕ → ℕ → F → ℕ → T → Memory (Context T F) → Outcome (Memory (Context T F) × State T F)
  async_write h address vec file offset buffer m = do
    p ← start_write as_raw_fd bytes (m h.weak) address vec file offset buffer
    returned (written h m p)

-- `Handle::async_poll`: the stream keeps the handle.
unfoldable pub async_poll : Handle → ℤ → ℕ → ℕ → Handle × AsyncPoll
async_poll h fd flags address = (h, Readiness.new fd flags address)

-- `with_default`: the handle is not used.
unfoldable pub with_default {ℓ} : {A : Type ℓ} → Handle → A → A
with_default h f = f
