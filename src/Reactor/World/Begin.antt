-- ===== src/Reactor/World/Begin.antt =====
-- A start of a read or a write keeps the invariant.
use rust_io_uring.Prelude.{
  ℕ, ◌+◌, ◌≤◌, ◌≡◌, ◌≢◌, inl, inr, refl, sym, ap, subst, Bool, true, false, ℤ, [], ◌∷◌, Option,
  none, some, arith, count, count_self, count_other, returned, bit_and, ℕ_discrete,
}
use mathlib.Core.Bool.{false≢true}
use rust_io_uring.Sys.Entry.{SubmissionEntry}
use rust_io_uring.Sys.Fill.{Slice}
use rust_io_uring.Ring.Submission.{pending}
use rust_io_uring.Ring.Completion.{available}
use rust_io_uring.Ring.Completion.Valid
use rust_io_uring.Reactor.Registration.{Shared}
use rust_io_uring.Reactor.State.InFlight.{InFlight, NotIn}
use rust_io_uring.Reactor.State.Tokens.{count-tokens}
use rust_io_uring.Reactor.Queue.{Inner}
use rust_io_uring.Reactor.Turn.Extends.{entry_keys, count-entry_keys_snoc}
use rust_io_uring.Reactor.Turn.Honest.{keys}
use rust_io_uring.Reactor.Transfer.{Context, State, TransferError, pending_at, init_failed, closed}
use rust_io_uring.Reactor.Transfer.Start.{Begun, Failed, Starts, begun, begun_lem, start_lem}
use rust_io_uring.Reactor.World.{World, start_transfer}
use rust_io_uring.Reactor.World.Owners.{Filled, Owned, Owners, Owners-store}
use rust_io_uring.Reactor.World.Cells.{count-NotIn}
use rust_io_uring.Reactor.World.Good.{Good}
use rust_io_uring.Reactor.World.Turns.{returned_injective}

abbrev is_pending : {T F : Type 0} → State T F → Bool
is_pending (pending_at _) = true
is_pending (init_failed _) = false
is_pending closed = false

abbrev inner_or {ℓ} : {A : Type ℓ} → A → Option A → A
inner_or d none = d
inner_or d (some a) = a

module _ {T F : Type 0} {k l : ℕ} (w : World T F) {g : InFlight} (good : Good k l w g) (a : ℕ)
    (free : w.reactor.completion_state.heap a ≡ none) where
  -- An address that is not in use has no owner.
  unowned : count a w.futures + count a g.ops ≡ 0
  unowned = subst (λ o. Owned o (count a w.futures + count a g.ops)) free (good.owners a)

  unowned-NotIn : NotIn a g.ops
  unowned-NotIn = count-NotIn a g.ops (omega (arith, unowned))

  Begun-Good :
      (c : Shared (Context T F)) (entry : SubmissionEntry) (j : Inner (Context T F))
      → c.strong ≡ 2
      → Filled c
      → entry.user_data ≡ a
      → Begun k a c entry g w.reactor j
      → Good k l (record w { reactor = j; futures = a ∷ w.futures }) (record g { ops = a ∷ g.ops })
  Begun-Good c entry j two filled key b = record {
    sound = record { ring = b.ring; inv = b.inv };
    cring = subst (Valid.IsValid l) (sym b.cq) good.cring;
    owners =
        subst (λ h. Owners h (a ∷ w.futures) (a ∷ g.ops)) (sym b.heap)
          (Owners-store w.reactor.completion_state.heap w.futures g.ops (a ∷ w.futures) (a ∷ g.ops)
            a (some c) good.owners
            (omega (arith, two, unowned, count_self a), omega (arith, count_self a), filled)
            (λ b n. omega (arith, count_other a b n)));
    balance = λ u. omega (
      arith,
      good.balance u,
      ap (λ es. count u (entry_keys es)) b.last,
      count-entry_keys_snoc u (pending w.reactor.sq) entry,
      ap (λ x. count u (x ∷ [])) key,
      ap (λ q. count u (keys (available q))) b.cq,
      count-tokens u g,
      count-tokens u (record g { ops = a ∷ g.ops }),
    );
    single = λ b. elim (ℕ_discrete a b) [
      | yes e ↦ subst (λ x. count x (a ∷ w.futures) ≤ 1) e (omega (arith, unowned, count_self a))
      | no n ↦ omega (arith, good.single b, count_other a b n)
    ];
  }

  Failed-Good :
      (j : Inner (Context T F)) → Failed k a g w.reactor j → Good k l (record w { reactor = j }) g
  Failed-Good j b = record {
    sound = record { ring = b.ring; inv = b.inv };
    cring = subst (Valid.IsValid l) (sym b.cq) good.cring;
    owners = λ x. elim (ℕ_discrete a x) [
      | yes e ↦
          subst (λ y. Owned (j.completion_state.heap y) (count y w.futures + count y g.ops)) e
            (subst (λ o. Owned o (count a w.futures + count a g.ops)) (sym b.freed) unowned)
      | no n ↦
          subst (λ o. Owned o (count x w.futures + count x g.ops)) (sym (b.others x n))
            (good.owners x)
    ];
    balance = λ u. omega (
      arith,
      good.balance u,
      ap (λ es. count u (entry_keys es)) b.same,
      ap (λ q. count u (keys (available q))) b.cq,
    );
    single = good.single;
  }

  module _ (as_raw_fd : F → ℤ) (bytes : T → Slice) (vec : ℕ) (file : F) (offset : ℕ) (buffer : T)
      (nonzero : a ≢ 0) (even : bit_and a 1 ≡ 0) where
    -- What either start comes to.
    Either : Bool → Type 0
    Either write =
        (entry : SubmissionEntry) × (entry.user_data ≡ a)
        × Starts as_raw_fd bytes a vec file offset buffer k entry g w.reactor
            (start_transfer as_raw_fd bytes write w.reactor a vec file offset buffer)

    either : (write : Bool) → Either write
    unfolding Either
    either true = (
      _,
      refl,
      (start_lem as_raw_fd bytes a vec file offset buffer {k = k} w.reactor g good.sound.ring
          good.sound.inv nonzero even unowned-NotIn).1,
    )
    either false = (
      _,
      refl,
      (start_lem as_raw_fd bytes a vec file offset buffer {k = k} w.reactor g good.sound.ring
          good.sound.inv nonzero even unowned-NotIn).0,
    )

    pub begin-Good :
        (write : Bool) (j : Inner (Context T F))
        → start_transfer as_raw_fd bytes write w.reactor a vec file offset buffer
          ≡ returned (some j, pending_at a)
        → (h : InFlight) × Good k l (record w { reactor = j; futures = a ∷ w.futures }) h
    unfolding Either Starts
    begin-Good write j e =
        let (entry, key, (j', outcome)) = either write in
        elim outcome [
          | inl b ↦ (
            record g { ops = a ∷ g.ops },
            subst
                (λ (i : Inner (Context T F)).
                  Good k l (record w { reactor = i; futures = a ∷ w.futures })
                    (record g { ops = a ∷ g.ops }))
                (ap (λ r. inner_or j r.0) (returned_injective _ _ b.0 e))
                (Begun-Good (begun bytes file buffer) entry j' (begun_lem bytes file buffer).0
                  (_, (begun_lem bytes file buffer).1) key b.1),
          )
          | inr b ↦ absurd (false≢true (ap (λ r. is_pending r.1) (returned_injective _ _ b.0 e)))
        ]

    pub refuse-Good :
        (write : Bool) (j : Inner (Context T F)) (x : TransferError T F)
        → start_transfer as_raw_fd bytes write w.reactor a vec file offset buffer
          ≡ returned (some j, init_failed x)
        → (h : InFlight) × Good k l (record w { reactor = j }) h
    unfolding Either Starts
    refuse-Good write j x e =
        let (entry, key, (j', outcome)) = either write in
        elim outcome [
          | inl b ↦ absurd (false≢true (ap (λ r. is_pending r.1) (returned_injective _ _ e b.0)))
          | inr b ↦ (
            g,
            subst (λ (i : Inner (Context T F)). Good k l (record w { reactor = i }) g)
                (ap (λ r. inner_or j r.0) (returned_injective _ _ b.0 e)) (Failed-Good j' b.1),
          )
        ]
