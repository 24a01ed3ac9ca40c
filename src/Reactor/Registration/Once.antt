-- ===== src/Reactor/Registration/Once.antt =====
-- One operation, one result.
use rust_io_uring.Prelude.{
  ◌≡◌, refl, ap, ◌∙◌, arith, true, false, List, [], ◌∷◌, none, some, returned, panicked,
}
use rust_io_uring.Reactor.Registration.{
  CompatWaker, empty, old, new_waker, UringResult, Inner, Async, ready, not_ready, new, notify,
  poll, wake,
}

-- The last of the wakers, or the first argument.
abbrev pub last_of : CompatWaker → List CompatWaker → CompatWaker
last_of w [] = w
last_of w (v ∷ vs) = last_of v vs

-- Who waits in a waker: nobody, a task or a waker.
abbrev pub sleepers : CompatWaker → List CompatWaker
sleepers empty = []
sleepers (old t) = old t ∷ []
sleepers (new_waker w) = new_waker w ∷ []

pub wake-sleepers : (w : CompatWaker) → (wake w).1 ≡ sleepers w
unfolding wake
wake-sleepers empty = refl
wake-sleepers (old t) = refl
wake-sleepers (new_waker w) = refl

pub wake-empty : (w : CompatWaker) → (wake w).0 ≡ empty
unfolding wake
wake-empty w = ground arith

module _ {ℓ} {T : Type ℓ} where
  -- Polls by a list of wakers, one after the other, with their results.
  unfoldable pub poll_all : List CompatWaker → Inner T → Inner T × List (Async (UringResult × T))
  poll_all [] i = (i, [])
  poll_all (w ∷ ws) i = let (i', r) = poll w i in let (i'', rs) = poll_all ws i' in (i'', r ∷ rs)

  -- A list of `not_ready`, one for each waker.
  abbrev pub none_ready : List CompatWaker → List (Async (UringResult × T))
  none_ready [] = []
  none_ready (w ∷ ws) = not_ready ∷ none_ready ws

  poll_waiting :
      (w : CompatWaker) (i : Inner T) (d : T)
      → i.finished ≡ false
      → i.payload ≡ some d
      → poll w i ≡ (record i { waker = w }, not_ready)
  unfolding poll
  poll_waiting w i d f p = ground arith

  poll_taken : (w : CompatWaker) (i : Inner T) → i.payload ≡ none → poll w i ≡ (i, not_ready)
  unfolding poll
  poll_taken w i p = ground arith

  poll_all-waiting :
      (ws : List CompatWaker) (i : Inner T) (d : T)
      → i.finished ≡ false
      → i.payload ≡ some d
      → poll_all ws i ≡ (record i { waker = last_of i.waker ws }, none_ready ws)
  unfolding poll_all
  poll_all-waiting [] i d f p = refl
  poll_all-waiting (w ∷ ws) i d f p =
      rw (poll_waiting w i d f p, poll_all-waiting ws (record i { waker = w }) d f p)

  poll_all-taken :
      (ws : List CompatWaker) (i : Inner T) → i.payload ≡ none → poll_all ws i ≡ (i, none_ready ws)
  unfolding poll_all
  poll_all-taken [] i p = refl
  poll_all-taken (w ∷ ws) i p = rw (poll_taken w i p, poll_all-taken ws i p)

  -- The cell after polls by `ws`, and after the completion `r`.
  abbrev polled : List CompatWaker → T → Inner T
  polled ws d = record (new d) { waker = last_of empty ws }

  abbrev completed : UringResult → T → Inner T
  completed r d = record { result = r; finished = true; waker = empty; payload = some d }

  poll_all-new :
      (ws : List CompatWaker) (d : T) → poll_all ws (new d) ≡ (polled ws d, none_ready ws)
  unfolding new
  poll_all-new ws d = poll_all-waiting ws (new d) d refl refl

  notify-polled :
      (ws : List CompatWaker) (d : T) (r : UringResult)
      → notify r (polled ws d) ≡ returned (completed r d, sleepers (last_of empty ws))
  unfolding notify new
  notify-polled ws d r = rw (wake-empty (last_of empty ws), wake-sleepers (last_of empty ws)) refl

  -- A future registered with `d` and polled any number of times before its operation completes with
  -- `r`, once or more after it: every poll before is not ready; the completion wakes the waker of
  -- the last poll, if there was one, and no other; the first poll after it gives `r` and `d` back,
  -- and every later one is not ready; and a second completion panics at any later time.
  pub registration_once :
      (ws : List CompatWaker) (d : T) (r : UringResult) (w : CompatWaker) (vs : List CompatWaker)
      → ((poll_all ws (new d)).1 ≡ none_ready ws)
        × ((i : Inner T) × (notify r (poll_all ws (new d)).0
              ≡ returned (i, sleepers (last_of empty ws)))
            × ((poll w i).1 ≡ ready (r, d))
            × ((poll_all vs (poll w i).0).1 ≡ none_ready vs)
            × ((r' : UringResult) → notify r' (poll_all vs (poll w i).0).0 ≡ panicked))
  unfolding poll notify
  registration_once ws d r w vs = (
    ap (λ p. p.1) (poll_all-new ws d),
    (
      completed r d,
      ap (λ p. notify r p.0) (poll_all-new ws d) ∙ notify-polled ws d r,
      refl,
      ap (λ p. p.1) after,
      λ r'. ap (λ p. notify r' p.0) after ∙ again r',
    ),
  )
    where
      after :
          poll_all vs (poll w (completed r d)).0
          ≡ (record (completed r d) { payload = none }, none_ready vs)
      after = poll_all-taken vs (record (completed r d) { payload = none }) refl

      again : (r' : UringResult) → notify r' (record (completed r d) { payload = none }) ≡ panicked
      again r' = refl
